-- ===== src/Workload/Spared.antt =====
-- The reconciliation of etcd's members spares the members of the nodes that machines have.
use cluster_api_k3s.Prelude.{
  ℕ, String, Bool, true, false, Option, none, some, List, [], ◌∷◌, any, if◌then◌else◌, ◌==◌, ◌||◌,
  ◌≡◌, refl, Bool-cases, inl, inr,
}
use cluster_api_k3s.Prelude.Exec.{Exec, Outcome, ok, err, pure, stop, continue, attempt, ◌>>=◌}
use cluster_api_k3s.Api.{
  Error, Member, EtcdClient, Client, Session, Call, Trace, list_nodes, list_members, remove_member,
  perform, query,
}
use cluster_api_k3s.Etcd.{node_name_from_member, member_for_name}
use cluster_api_k3s.Workload.{
  get_control_plane_nodes, dial_first, members, remove_found, remove_member_for_non_existing_node,
  remove_unmatched, listed_members, reconcile_etcd_member, reconcile_each, reconcile_etcd_members,
}

-- The id is that of a member on a node with a name, which is none of the given ones, in the answer
-- of an etcd member to the question for all of them.
pub record IsStale (client : Client) (node_names : List String) (id : ℕ) : Type 0 where
  pub asked : Trace
  pub etcd : EtcdClient
  pub listed : List Member
  pub answer : client.members asked etcd ≡ ok listed
  pub name : String
  pub member : Member
  pub found : member_for_name listed name ≡ some member
  pub same : member.id ≡ id
  pub is_named : (name == "") ≡ false
  pub is_other : any (λ n. name == n) node_names ≡ false

abbrev pub StaleCall : Client → List String → Call → Type 0
StaleCall client node_names (remove_member endpoint id) = IsStale client node_names id
StaleCall client node_names _ = Unit

-- Every removal among the calls is of a stale member.
abbrev pub RemovesStale : Client → List String → Trace → Type 0
RemovesStale client node_names [] = Unit
RemovesStale client node_names (c ∷ t) =
    StaleCall client node_names c × RemovesStale client node_names t

-- An action after which only stale members were removed, if that was so before it.
record Spares {A : Type 0} (client : Client) (node_names : List String) (m : Exec Session Error A)
    : Type 0 where
  at :
      (s : Session)
      → RemovesStale client node_names s.trace
      → RemovesStale client node_names (m s).1.trace

module _ {client : Client} {node_names : List String} where
  Spares-pure : {A : Type 0} (a : A) → Spares client node_names (pure {S = Session} {E = Error} a)
  Spares-pure a = record { at = λ s p. p }

  Spares-stop : {A : Type 0} (e : Error) → Spares client node_names (stop {S = Session} {A = A} e)
  Spares-stop e = record { at = λ s p. p }

  Spares-if :
      {A : Type 0} (b : Bool) (m n : Exec Session Error A)
      → Spares client node_names m
      → Spares client node_names n
      → Spares client node_names (if b then m else n)
  Spares-if true m n pm pn = pm
  Spares-if false m n pm pn = pn

  continue-Spares :
      {A B : Type 0} (r : Outcome Error A × Session) (f : A → Exec Session Error B)
      → ((a : A) → Spares client node_names (f a))
      → RemovesStale client node_names r.1.trace
      → RemovesStale client node_names (continue r f).1.trace
  continue-Spares (ok a, s) f pf p = (pf a).at s p
  continue-Spares (err e, s) f pf p = p

  Spares-bind :
      {A B : Type 0} (m : Exec Session Error A) (f : A → Exec Session Error B)
      → Spares client node_names m
      → ((a : A) → Spares client node_names (f a))
      → Spares client node_names (m >>= f)
  Spares-bind m f pm pf = record { at = λ s p. continue-Spares (m s) f pf (pm.at s p) }

  Spares-attempt :
      {A : Type 0} (m : Exec Session Error A)
      → Spares client node_names m
      → Spares client node_names (attempt {F = Error} m)
  Spares-attempt m pm = record { at = pm.at }

ruleset spares_rules = (Spares-pure, Spares-stop, Spares-if, Spares-bind, Spares-attempt)

module _ (client : Client) (node_names : List String) where
  nodes-Spares : Spares client node_names (get_control_plane_nodes client)
  unfolding get_control_plane_nodes query
  nodes-Spares =
      let asked : Spares client node_names (query list_nodes client.list_nodes) = record {
        at = λ s p. (tt, p);
      } in
      search spares_rules

  dial_first-Spares : (names : List String) → Spares client node_names (dial_first client names)
  unfolding dial_first query
  dial_first-Spares names = record { at = λ s p. (tt, p) }

  members-Spares : (etcd : EtcdClient) → Spares client node_names (members client etcd)
  unfolding members query
  members-Spares etcd = record { at = λ s p. (tt, p) }

  remove_listed :
      (etcd : EtcdClient) (name : String) (asked : Trace) (listed : List Member) (o : Option Member)
      → client.members asked etcd ≡ ok listed
      → member_for_name listed name ≡ o
      → (name == "") ≡ false
      → any (λ n. name == n) node_names ≡ false
      → Spares client node_names (remove_found client etcd o)
  unfolding remove_found perform
  remove_listed etcd name asked listed none a f h k = search spares_rules
  remove_listed etcd name asked listed (some m) a f h k = record {
    at = λ s p. (
      record {
        asked = asked;
        etcd = etcd;
        listed = listed;
        answer = a;
        name = name;
        member = m;
        found = f;
        same = refl;
        is_named = h;
        is_other = k;
      },
      p,
    );
  }

  listed_by :
      (etcd : EtcdClient) (name : String) (s : Session) (o : Outcome Error (List Member))
      → client.members s.trace etcd ≡ o
      → (name == "") ≡ false
      → any (λ n. name == n) node_names ≡ false
      → RemovesStale client node_names s.trace
      → RemovesStale client node_names
          (continue
            (o, record s { trace = list_members etcd.endpoint ∷ s.trace })
            (λ ms. remove_found client etcd (member_for_name ms name))).1.trace
  listed_by etcd name s (ok ms) e h k p =
      (remove_listed etcd name s.trace ms _ e refl h k).at _ (tt, p)
  listed_by etcd name s (err x) e h k p = (tt, p)

  list_and_remove-Spares :
      (etcd : EtcdClient) (name : String)
      → (name == "") ≡ false
      → any (λ n. name == n) node_names ≡ false
      → Spares client node_names
          (members client etcd >>= λ ms. remove_found client etcd (member_for_name ms name))
  unfolding members query
  list_and_remove-Spares etcd name h k = record { at = λ s p. listed_by etcd name s _ refl h k p }

  remove_member-Spares :
      (name : String)
      → (name == "") ≡ false
      → any (λ n. name == n) node_names ≡ false
      → Spares client node_names (remove_member_for_non_existing_node client name)
  unfolding remove_member_for_non_existing_node
  remove_member-Spares name h k =
      search (spares_rules, nodes-Spares, dial_first-Spares, list_and_remove-Spares) depth 8

  -- Only a name that is neither empty nor a node's is acted on.
  guarded-Spares :
      (name : String) (rest body : Exec Session Error (List String × List Error))
      → Spares client node_names rest
      → ((name == "") ≡ false
          → any (λ n. name == n) node_names ≡ false
          → Spares client node_names body)
      → Spares client node_names
          (if name == "" || any (λ n. name == n) node_names then rest else body)
  guarded-Spares name rest body pr pb = elim (Bool-cases (name == "")) [
    | inl e ↦ rw e pr
    | inr h ↦ elim (Bool-cases (any (λ n. name == n) node_names)) [
      | inl e ↦ rw (h, e) pr
      | inr k ↦ rw (h, k) (pb h k)
    ]
  ]

  remove_unmatched-Spares :
      (ms : List Member) → Spares client node_names (remove_unmatched client node_names ms)
  unfolding remove_unmatched
  remove_unmatched-Spares [] = search spares_rules
  remove_unmatched-Spares (m ∷ ms) =
      let rest = remove_unmatched-Spares ms in
      guarded-Spares (node_name_from_member m) _ _ rest (λ h k.
        let removal = remove_member-Spares (node_name_from_member m) h k in
        search spares_rules depth 8)

  listed_members-Spares :
      (o : Outcome Error (List Member))
      → Spares client node_names (listed_members client node_names o)
  unfolding listed_members
  listed_members-Spares (ok ms) = remove_unmatched-Spares ms
  listed_members-Spares (err e) = search spares_rules

  reconcile_etcd_member-Spares :
      (name : String) → Spares client node_names (reconcile_etcd_member client node_names name)
  unfolding reconcile_etcd_member
  reconcile_etcd_member-Spares name =
      search (spares_rules, dial_first-Spares, members-Spares, listed_members-Spares) depth 8

  reconcile_each-Spares :
      (left : List String) → Spares client node_names (reconcile_each client node_names left)
  unfolding reconcile_each
  reconcile_each-Spares [] = search spares_rules
  reconcile_each-Spares (name ∷ left) =
      let rest = reconcile_each-Spares left in
      search (spares_rules, reconcile_etcd_member-Spares) depth 8

  -- Every call of ReconcileEtcdMembers for the removal of a member is for a member whose node has a
  -- name that is none of the given ones, as a list tells that an etcd member answered with.
  pub reconcile_etcd_members-RemovesStale :
      (s : Session)
      → RemovesStale client node_names s.trace
      → RemovesStale client node_names (reconcile_etcd_members client node_names s).1.trace
  unfolding reconcile_etcd_members
  reconcile_etcd_members-RemovesStale s p = (reconcile_each-Spares node_names).at s p
