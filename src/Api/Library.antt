-- ===== src/Api/Library.antt =====
-- The pure functions of sigs.k8s.io/cluster-api, k8s.io/apimachinery and encoding/json that the code
-- calls: a parameter of the model. What the theorems assume of them is in `CapiLaws`, each law the
-- documented behaviour of one function.
use cluster_api_k3s.Prelude.{
  length, keep, ℕ, String, Bool, true, Option, none, some, List, [], Mem, Dict, ◌≡◌, ◌≢◌, ◌↔◌,
}
use cluster_api_k3s.Prelude.Int.{ℤ}
use cluster_api_k3s.Api.Types.{
  Machine, Condition, FailureDomain, KThreesControlPlane, KThreesServerConfig, KThreesConfigSpec,
  Ref,
}

-- controllers.RemediationData (controlplane/controllers/remediation.go), the value of two
-- annotations. A zero timestamp is none.
pub record RemediationData : Type 0 where
  pub machine : String
  pub timestamp : Option ℤ
  pub retry_count : ℤ

pub record Capi : Type 0 where
  -- util/collections: a `Machines` map is the list of its machines, in any order
  pub filter : (Machine → Bool) → List Machine → List Machine
  pub any_filter : (Machine → Bool) → (Machine → Bool) → List Machine → List Machine
  pub difference : List Machine → List Machine → List Machine
  pub should_rollout_after : ℤ → Option ℤ → Machine → Bool
  pub oldest : List Machine → Option Machine
  pub newest : List Machine → Option Machine
  pub is_unhealthy : Machine → Bool
  pub has_node : Machine → Bool
  pub has_deletion_timestamp : Machine → Bool
  pub has_annotation_key : String → Machine → Bool
  pub in_failure_domains : List String → Machine → Bool
  pub is_control_plane_machine : Machine → Bool
  -- OwnedMachines, with the kind KThreesControlPlane
  pub is_owned : KThreesControlPlane → Machine → Bool
  -- util/failuredomains
  pub pick_most : List FailureDomain → List Machine → List Machine → String
  pub pick_fewest : List FailureDomain → List Machine → List Machine → String
  -- util/conditions, on the conditions of an object
  pub get_condition : List Condition → String → Option Condition
  pub set_condition : List Condition → Condition → List Condition
  pub delete_condition : List Condition → String → List Condition
  pub is_true : List Condition → String → Bool
  pub is_false : List Condition → String → Bool
  -- util/conditions/deprecated/v1beta1.IsFalse, on the same object
  pub is_false_v1beta1 : List Condition → String → Bool
  -- Set and Get of util/conditions/deprecated/v1beta1, on the conditions of the control plane; Set is
  -- what MarkTrue, MarkFalse and MarkUnknown call
  pub get_condition_v1beta1 : List Condition → String → Option Condition
  pub set_condition_v1beta1 : List Condition → Condition → List Condition
  -- SetAggregate of the same package, of a condition's type and the machines that it is made of
  pub set_aggregate : List Condition → String → List Machine → List Condition
  -- util.IsNodeReady, on the conditions of a node
  pub is_node_ready : List Condition → Bool
  -- controllerutil.RemoveFinalizer
  pub remove_finalizer : String → List String → List String
  -- util/annotations.HasWithPrefix
  pub has_with_prefix : String → Option (Dict String) → Bool
  -- util/annotations.AddAnnotations with one key
  pub add_annotation : String → String → Dict String → Dict String
  -- schema.GroupKind.String of a reference's group and kind
  pub group_kind : Ref → String
  -- reflect.DeepEqual of two configurations
  pub deep_equal : KThreesConfigSpec → KThreesConfigSpec → Bool
  -- sets.Set[string]{}.Insert(a...).Equal(sets.Set[string]{}.Insert(b...))
  pub set_equal : List String → List String → Bool
  -- names.SimpleNameGenerator.GenerateName; the number stands for its source of randomness
  pub generate_name : ℕ → String → String
  -- json.Marshal and json.Unmarshal; none is an error
  pub marshal : RemediationData → Option String
  pub unmarshal : String → Option RemediationData
  pub marshal_server_config : KThreesServerConfig → Option String

pub record CapiLaws (c : Capi) : Type 0 where
  -- Filter returns the machines that pass, and no others
  pub mem_filter :
      (f : Machine → Bool) (ms : List Machine) (m : Machine)
      → Mem m (c.filter f ms) ↔ (Mem m ms × (f m ≡ true))
  -- and as many of them as there are
  pub length_filter :
      (f : Machine → Bool) (ms : List Machine) → length (c.filter f ms) ≡ length (keep f ms)
  -- Oldest returns a machine of the collection, and nil only for an empty one
  pub oldest_mem : (ms : List Machine) (m : Machine) → c.oldest ms ≡ some m → Mem m ms
  -- what Set has set is what Get gets, and the other types of condition are as they were
  pub get_set :
      (cs : List Condition) (x : Condition) → c.get_condition (c.set_condition cs x) x.type ≡ some x
  pub get_set_other :
      (cs : List Condition) (x : Condition) (type : String)
      → type ≢ x.type
      → c.get_condition (c.set_condition cs x) type ≡ c.get_condition cs type
  pub get_set_v1beta1 :
      (cs : List Condition) (x : Condition)
      → c.get_condition_v1beta1 (c.set_condition_v1beta1 cs x) x.type ≡ some x
  pub oldest_none : (ms : List Machine) → c.oldest ms ≡ none → ms ≡ []
