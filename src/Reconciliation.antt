-- ===== src/Reconciliation.antt =====
-- controlplane/controllers/kthreescontrolplane_controller.go: what a reconciliation does with an
-- assembled control plane, from the conditions to the choice between replacing, adding and removing
-- a machine; and pkg/k3s/control_plane.go: PatchMachines.
pub mod Quiet
pub mod Ends
pub mod Surplus
pub mod Resizing
pub mod Deletes
pub mod Deletion
pub mod Syncing
pub mod Entry
pub mod Status
use cluster_api_k3s.Prelude.{
  ℕ, String, Bool, true, false, Option, none, some, List, [], ◌∷◌, eqb, ltb, leb, is_some, not,
  length, if◌then◌else◌, ◌&&◌,
}
use cluster_api_k3s.Prelude.Exec.{
  Exec, Outcome, ok, err, pure, stop, gets, modify, attempt, ◌>>=◌, ◌>>◌,
}
use cluster_api_k3s.Prelude.Int.{ℤ}
use cluster_api_k3s.Api.{
  Error, nil_dereference, condition_true, condition_false, Machine, Capi, Client, Session,
  patch_machine, get_workload_cluster, perform, etcd_cluster_healthy_condition,
}
use cluster_api_k3s.Controllers.{
  CtrlResult, zero_result, Return, Handler, finish, fail, or_fail, returned, is_zero, current,
}
use cluster_api_k3s.ControlPlane.{is_etcd_managed, machines_needing_rollout}
use cluster_api_k3s.Workload.{reconcile_etcd_members}
use cluster_api_k3s.Workload.Conditions.{has_status, mark_kcp}
use cluster_api_k3s.Workload.Conditions.Agent.{update_agent_conditions}
use cluster_api_k3s.Workload.Conditions.EtcdHealth.{update_managed_etcd_conditions}
use cluster_api_k3s.Remediation.Reconcile.{reconcile_unhealthy_machines}
use cluster_api_k3s.Scale.Up.{initialize_control_plane, scale_up_control_plane}
use cluster_api_k3s.Scale.Down.{scale_down_control_plane}

abbrev pub machines_spec_up_to_date_condition : String
machines_spec_up_to_date_condition = "MachinesSpecUpToDate"

abbrev pub available_condition : String
available_condition = "Available"

-- `if result, err := h(); err != nil || !result.IsZero() { return result, err }`
abbrev pub unless_done : Return → Outcome Return Unit
unless_done (r, some e) = err (r, some e)
unless_done (r, none) = if is_zero r then ok tt else err (r, none)

abbrev pub settled : Outcome Return CtrlResult × Session → Outcome Return Unit × Session
settled (o, s) = (unless_done (returned o), s)

abbrev pub or_return : Handler CtrlResult → Handler Unit
or_return h s = settled (h s)

-- The nodes of all the machines, or none while a machine has no node.
unfoldable pub all_nodes : List Machine → Option (List String)
all_nodes [] = some []
all_nodes (m ∷ ms) =
    let rest = all_nodes ms in
    elim m.node_ref [
      | none ↦ none
      | some name ↦ elim rest [ none ↦ none | some names ↦ some (name ∷ names) ]
    ]

abbrev first_error : List Error → Exec Session Error Unit
first_error [] = pure tt
first_error (e ∷ errs) = stop e

module _ (capi : Capi) (client : Client) where
  -- The machine is sent as it is in memory then.
  patch_one : Machine → Exec Session Error Unit
  unfolding perform
  patch_one m = do
    now ← gets (λ s. current m s.plane.machines)
    perform (patch_machine now) (λ t. client.patch_machine t now)

  abbrev also : Outcome Error Unit → List Error → List Error
  also (ok _) errs = errs
  also (err e) errs = e ∷ errs

  patch_each : List Machine → Exec Session Error (List Error)
  unfolding patch_one
  patch_each [] = pure []
  patch_each (m ∷ ms) = do done ← attempt (patch_one m); errs ← patch_each ms; pure (also done errs)

  -- Every machine has its patch helper. An aggregate of errors is returned as its first one.
  unfoldable pub patch_machines : Exec Session Error Unit
  unfolding patch_each
  patch_machines = do
    machines ← gets (λ s. s.plane.machines)
    errs ← patch_each machines
    first_error errs

  unfoldable pub reconcile_control_plane_conditions : Exec Session Error Unit
  unfolding perform patch_machines
  reconcile_control_plane_conditions = do
    initialized ← gets (λ s. s.plane.kcp.initialized)
    if not initialized then pure tt else do
      perform get_workload_cluster client.get_workload_cluster
      update_agent_conditions capi client
      update_managed_etcd_conditions capi client
      patch_machines

  -- The names of the members that were removed are only logged.
  remove_stale_members : List String → Exec Session Error Unit
  unfolding perform
  remove_stale_members names = do
    perform get_workload_cluster client.get_workload_cluster
    (removed, errs) ← reconcile_etcd_members client names
    first_error errs

  unless_provisioning : Option (List String) → Exec Session Error Unit
  unfolding remove_stale_members
  unless_provisioning none = pure tt
  unless_provisioning (some names) = do
    conditions ← gets (λ s. s.plane.kcp.conditions)
    if has_status condition_true
          (capi.get_condition_v1beta1 conditions etcd_cluster_healthy_condition)
        then pure tt
        else remove_stale_members names

  unfoldable pub reconcile_control_plane_etcd : Exec Session Error Unit
  unfolding is_etcd_managed unless_provisioning all_nodes
  reconcile_control_plane_etcd = do
    plane ← gets (λ s. s.plane)
    if not (is_etcd_managed plane)
        then pure tt
        else if eqb (length plane.machines) 0
        then pure tt
        else unless_provisioning (all_nodes plane.machines)

  unfoldable pub dereferenced : Option ℕ → Handler ℕ
  dereferenced none = fail nil_dereference
  dereferenced (some n) = pure n

  -- `*kcp.Spec.Replicas`: a nil pointer is followed.
  unfoldable pub desired_replicas : Handler ℕ
  desired_replicas = do replicas ← gets (λ s. s.plane.kcp.replicas); dereferenced replicas

  -- There is one machine more than asked for before an outdated one goes.
  unfoldable pub upgrade_control_plane : List Machine → Handler CtrlResult
  unfolding desired_replicas
  upgrade_control_plane outdated = do
    desired ← desired_replicas
    machines ← gets (λ s. s.plane.machines)
    if leb (length machines) desired
        then scale_up_control_plane capi client
        else scale_down_control_plane capi client outdated

  -- From the number of machines to the desired one.
  unfoldable pub scale : ℕ → ℕ → Handler CtrlResult
  unfolding mark_kcp
  scale number desired =
      if ltb number desired && eqb number 0
      then (do
        modify (mark_kcp capi available_condition condition_false "WaitingForKthreesServer")
        initialize_control_plane capi client)
      else if ltb number desired && ltb 0 number
      then scale_up_control_plane capi client
      else if ltb desired number
      then scale_down_control_plane capi client []
      else pure zero_result

  -- The condition is set only where it is there already.
  unfoldable pub mark_up_to_date : Session → Session
  unfolding mark_kcp
  mark_up_to_date s =
      if is_some
        (capi.get_condition_v1beta1 s.plane.kcp.conditions machines_spec_up_to_date_condition)
      then mark_kcp capi machines_spec_up_to_date_condition condition_true "" s
      else s

  unfoldable pub roll_out_or_scale : List Machine → Handler CtrlResult
  unfolding mark_kcp mark_up_to_date desired_replicas
  roll_out_or_scale need_rollout =
      if ltb 0 (length need_rollout)
      then (do
        modify (
            mark_kcp capi machines_spec_up_to_date_condition condition_false
              "RollingUpdateInProgress")
        upgrade_control_plane need_rollout)
      else do
        modify mark_up_to_date
        desired ← desired_replicas
        machines ← gets (λ s. s.plane.machines)
        scale (length machines) desired

  -- What is done before any machine is touched.
  unfoldable pub observe : Handler Unit
  observe = do or_fail reconcile_control_plane_conditions; or_fail reconcile_control_plane_etcd

  -- From the point on where the control plane is assembled and its machines are in sync.
  unfoldable pub operate : ℤ → Handler CtrlResult
  operate now = do
    observe
    or_return (reconcile_unhealthy_machines capi client now)
    need_rollout ← gets (λ s. machines_needing_rollout capi s.plane)
    roll_out_or_scale need_rollout
