-- ===== src/Samples/Library.antt =====
-- Plain functions in the place of the libraries, and that they keep the laws.
use mathlib.Core.Bool.{Bool-discrete}
use mathlib.Core.List.{filter, mem-filter, mem-cons_self}
use cluster_api_k3s.Prelude.{
  String, Bool, true, false, Option, none, some, List, keep, [], ◌∷◌, Mem, Dict, lookup, put, find,
  length, suc, ap, Bool-cases, inl, inr, any, not, is_some, eq_iff, eq_refl, ◌≢◌, arith, ◌==◌, ◌&&◌,
  ◌||◌, ◌≡◌, refl, subst,
}
use cluster_api_k3s.Prelude.Int.{pos}
use cluster_api_k3s.Api.{
  Status, condition_true, condition_false, condition_unknown, Condition, Machine, Capi, CapiLaws,
}

abbrev pub keep_if : (Machine → Bool) → List Machine → List Machine
keep_if f ms = filter (λ m. Bool-discrete (f m) true) ms

length-keep_if :
    (f : Machine → Bool) (ms : List Machine) → length (keep_if f ms) ≡ length (keep f ms)
length-keep_if f [] = refl
length-keep_if f (m ∷ ms) = elim (Bool-cases (f m)) [
  | inl h ↦ rw h (ap (λ n. suc n) (length-keep_if f ms))
  | inr h ↦ rw h (length-keep_if f ms)
]

abbrev first : List Machine → Option Machine
first [] = none
first (m ∷ ms) = some m

abbrev get : List Condition → String → Option Condition
get cs type = find (λ (c : Condition). c.type == type) cs

abbrev has_status : Status → Option Condition → Bool
has_status wanted none = false
has_status condition_true (some c) = elim c.status [ condition_true ↦ true | _ ↦ false ]
has_status condition_false (some c) = elim c.status [ condition_false ↦ true | _ ↦ false ]
has_status condition_unknown (some c) = elim c.status [ condition_unknown ↦ true | _ ↦ false ]

abbrev has_all : List String → List String → Bool
has_all [] b = true
has_all (x ∷ a) b = any (λ y. x == y) b && has_all a b

abbrev has_key : String → Option (Dict String) → Bool
unfolding lookup
has_key k none = false
has_key k (some d) = is_some (lookup k d)

-- `deep_equal` looks at one field only; no theorem rests on it.
unfoldable pub capi : Capi
unfolding lookup put
capi = record {
  filter = keep_if;
  any_filter = λ f g ms. keep_if (λ m. f m || g m) ms;
  difference = λ a b. keep_if (λ m. not (any (λ (o : Machine). o.name == m.name) b)) a;
  should_rollout_after = λ now after m. false;
  oldest = first;
  newest = first;
  is_unhealthy = λ m. has_status condition_false (get m.conditions "AgentHealthy");
  has_node = λ m. is_some m.node_ref;
  has_deletion_timestamp = λ m. m.deleting;
  has_annotation_key = λ k m. has_key k m.annotations;
  in_failure_domains = λ domains m. any (λ d. d == m.failure_domain) domains;
  is_control_plane_machine = λ m. true;
  is_owned = λ kcp m. true;
  pick_most = λ domains all ms. "";
  pick_fewest = λ domains all ms. "";
  get_condition = get;
  set_condition = λ cs c. c ∷ cs;
  delete_condition = λ cs type. cs;
  is_true = λ cs type. has_status condition_true (get cs type);
  is_false = λ cs type. has_status condition_false (get cs type);
  is_false_v1beta1 = λ cs type. has_status condition_false (get cs type);
  get_condition_v1beta1 = get;
  set_condition_v1beta1 = λ cs c. c ∷ cs;
  set_aggregate = λ cs type ms. cs;
  is_node_ready = λ cs. has_status condition_true (get cs "Ready");
  remove_finalizer = λ f fs. keep (λ g. not (g == f)) fs;
  has_with_prefix = has_key;
  add_annotation = put;
  group_kind = λ r. r.kind;
  deep_equal = λ a b. a.version == b.version;
  set_equal = λ a b. has_all a b && has_all b a;
  generate_name = λ n base. base;
  marshal = λ d. some d.machine;
  unmarshal = λ t. some (record { machine = t; timestamp = some (pos 0); retry_count = pos 1 });
  marshal_server_config = λ c. some "{}";
}

first_mem : (ms : List Machine) (m : Machine) → first ms ≡ some m → Mem m ms
first_mem [] m h = cc
first_mem (x ∷ ms) m h = let same : x ≡ m = cc in subst (λ y. Mem y (x ∷ ms)) same mem-cons_self

first-none : (ms : List Machine) → first ms ≡ none → ms ≡ []
first-none [] h = refl
first-none (x ∷ ms) h = cc

get_cons : (cs : List Condition) (x : Condition) → get (x ∷ cs) x.type ≡ some x
get_cons cs x = rw (eq_refl x.type) refl

get_cons_other :
    (cs : List Condition) (x : Condition) (type : String)
    → type ≢ x.type
    → get (x ∷ cs) type ≡ get cs type
get_cons_other cs x type h = ground (arith, eq_iff x.type type)

pub laws : CapiLaws capi
unfolding capi
laws = record {
  mem_filter = λ f ms m. mem-filter (λ m. Bool-discrete (f m) true);
  length_filter = length-keep_if;
  oldest_mem = first_mem;
  oldest_none = first-none;
  get_set = λ cs x. get_cons cs x;
  get_set_other = λ cs x type h. get_cons_other cs x type h;
  get_set_v1beta1 = λ cs x. get_cons cs x;
}
