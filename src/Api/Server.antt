-- ===== src/Api/Server.antt =====
-- The management cluster's API server, the workload cluster's one and its etcd. What they answer is
-- a parameter, which may depend on all the calls made before; so a theorem over every `Client`
-- covers every failure of every call, at any point of a reconciliation. The calls made are recorded,
-- the latest first.
use cluster_api_k3s.Prelude.{ℕ, String, Bool, Option, none, some, List, ◌∷◌, Dict}
use cluster_api_k3s.Prelude.Int.{ℤ}
use cluster_api_k3s.Prelude.Exec.{Exec, Outcome, ok, err}
use cluster_api_k3s.Api.Types.{
  Error, Ref, OwnerReference, Machine, Cluster, KThreesConfigSpec, KThreesControlPlane, Node,
  EtcdClient, Member,
}

-- A call with an effect or an answer outside the process, with the objects that it sends.
pub data Call : Type 0 where
  new_patch_helper : String → Call
  patch_machine : Machine → Call
  delete_machine : String → Call
  ssa_patch_machine : Machine → Call
  list_machines : Call
  list_all_machines : Call
  list_owned_machines : Call
  get_infrastructure : String → Call
  get_config : String → Call
  get_etcd_secret : Call
  list_active_machines : Call
  get_machine : String → Call
  get_workload_cluster : Call
  get_cluster : Call
  get_control_plane_object : Ref → Call
  create_from_template : Ref → Call
  create_kthrees_config : String → KThreesConfigSpec → Call
  get_object : Ref → Call
  delete_object : Ref → Call
  list_nodes : Call
  get_node : String → Call
  get_serving_secret : Call
  new_node_patch_helper : String → Call
  patch_node : Node → Call
  dial_first_available : List String → Call
  dial_leader : List String → Call
  list_members : String → Call
  move_leader : String → ℕ → Call
  remove_member : String → ℕ → Call
  get_template : Ref → Call
  new_template_patch_helper : Ref → Call
  patch_template : Ref → List OwnerReference → Call
  list_control_plane_machines : Call
  clean_up_managed_fields : String → Call
  drop_managed_fields : Ref → Call
  get_api_version : Ref → Call
  -- the labels and the annotations of an external object
  apply_external : Ref → Dict String → Dict String → Call

abbrev pub Trace : Type 0
Trace = List Call

-- The answers, from the calls made before and the arguments of this one. A none is a nil error.
pub record Client : Type 0 where
  pub new_patch_helper : Trace → Machine → Option Error
  pub patch_machine : Trace → Machine → Option Error
  pub delete_machine : Trace → String → Option Error
  pub ssa_patch_machine : Trace → Machine → Option Error
  -- GetMachinesForCluster, uncached, with the filter of the owned machines
  pub owned_machines : Trace → Outcome Error (List Machine)
  -- GetMachinesForCluster with no filter
  pub all_machines : Trace → Outcome Error (List Machine)
  -- of a machine: the two annotations of its infrastructure machine, and its KThreesConfig
  pub get_infrastructure : Trace → Machine → Outcome Error (Option String × Option String)
  pub get_config : Trace → Machine → Outcome Error KThreesConfigSpec
  -- the secret of the cluster's etcd CA
  pub get_etcd_secret : Trace → Option Error
  -- metav1.Now
  pub now : Trace → ℤ
  -- GetFilteredMachinesForCluster with ActiveMachines, then the filter ControlPlaneMachines
  pub active_control_plane_machines : Trace → Outcome Error (List Machine)
  pub get_machine : Trace → String → Outcome Error Machine
  pub get_workload_cluster : Trace → Option Error
  pub get_cluster : Trace → Machine → Outcome Error Cluster
  -- GetObjectFromContractVersionedRef of the control plane: whether the object is being deleted
  pub get_control_plane_object : Trace → Ref → Outcome Error Bool
  pub create_from_template : Trace → Ref → Outcome Error Ref
  pub create_kthrees_config : Trace → String → Option Error
  pub get_object : Trace → Ref → Option Error
  pub delete_object : Trace → Ref → Option Error
  pub list_nodes : Trace → Outcome Error (List Node)
  pub get_node : Trace → String → Outcome Error Node
  -- the secret `k3s-serving` in the namespace kube-system
  pub get_serving_secret : Trace → Option Error
  pub new_node_patch_helper : Trace → Node → Option Error
  pub patch_node : Trace → Node → Option Error
  -- the interface etcdClientFor (pkg/k3s/workload_cluster_etcd.go)
  pub for_first_available_node : Trace → List String → Outcome Error EtcdClient
  pub for_leader : Trace → List String → Outcome Error EtcdClient
  pub members : Trace → EtcdClient → Outcome Error (List Member)
  pub move_leader : Trace → EtcdClient → ℕ → Option Error
  pub remove_member : Trace → EtcdClient → ℕ → Option Error
  -- the infrastructure template: its owner references
  pub get_template : Trace → Ref → Outcome Error (List OwnerReference)
  pub new_template_patch_helper : Trace → Ref → Option Error
  pub patch_template : Trace → Ref → List OwnerReference → Option Error
  -- GetMachinesForCluster, uncached, with the filter ControlPlaneMachines
  pub control_plane_machines : Trace → Outcome Error (List Machine)
  -- ssa.CleanUpManagedFieldsForSSAAdoption and ssa.DropManagedFields
  pub clean_up_managed_fields : Trace → Machine → Option Error
  pub drop_managed_fields : Trace → Ref → Option Error
  -- ssa.Patch of an existing machine, with the machine as the server has it then
  pub apply_machine : Trace → Machine → Outcome Error Machine
  -- contract.GetAPIVersion and schema.ParseGroupVersion
  pub get_api_version : Trace → Ref → Option Error
  pub apply_external : Trace → Ref → Dict String → Dict String → Option Error

-- pkg/k3s ControlPlane, without the patch helpers of its machines.
pub record ControlPlane : Type 0 where
  pub kcp : KThreesControlPlane
  pub cluster : Cluster
  pub machines : List Machine
  pub has_etcd_ca : Bool
  pub reconciliation_time : ℤ
  -- the two annotations of an infrastructure machine that tell its template: name, group and kind
  pub infra_resources : Dict (Option String × Option String)
  pub kthrees_configs : Dict KThreesConfigSpec

-- What a reconciliation works on: the objects in memory, and the calls made so far.
pub record Session : Type 0 where
  pub plane : ControlPlane
  pub open plane use *
  pub trace : Trace

abbrev answered : Option Error → Outcome Error Unit
answered none = ok tt
answered (some e) = err e

-- A call that answers with an error or nil.
unfoldable pub perform : Call → (Trace → Option Error) → Exec Session Error Unit
perform c answer s = (answered (answer s.trace), record s { trace = c ∷ s.trace })

-- A call that answers with an error or a value.
unfoldable pub query : {A : Type 0} → Call → (Trace → Outcome Error A) → Exec Session Error A
query c answer s = (answer s.trace, record s { trace = c ∷ s.trace })
