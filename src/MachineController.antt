-- ===== src/MachineController.antt =====
-- controlplane/controllers/machine_controller.go: a machine that is being deleted keeps its
-- pre-terminate hook until its etcd member is removed. The session's control plane is not read.
pub mod Hook
use cluster_api_k3s.Prelude.{
  ℕ, String, Bool, Option, none, some, List, [], ◌∷◌, Dict, remove, length, not, eqb, if◌then◌else◌,
  ◌==◌, ◌&&◌,
}
use cluster_api_k3s.Prelude.Exec.{Exec, Outcome, ok, err, pure, stop, catch, attempt, ◌>>=◌, ◌>>◌}
use cluster_api_k3s.Api.{
  Error, not_found, cluster_is_being_deleted, nil_node_ref, control_plane_is_being_deleted,
  no_control_plane_nodes, Ref, Machine, Cluster, Capi, Client, Session, new_patch_helper,
  patch_machine, list_active_machines, get_machine, get_workload_cluster, get_cluster,
  get_control_plane_object, perform, query,
}
use cluster_api_k3s.Controllers.{
  CtrlResult, zero_result, requeued_after, etcd_removal_requeue_after, Handler, finish, fail,
  or_fail, k3s_hook_name, pre_terminate_hook,
}
use cluster_api_k3s.Workload.{annotation}
use cluster_api_k3s.Workload.Leaving.{remove_etcd_member_for_machine}

abbrev pub pre_terminate_hook_succeeded_condition : String
pre_terminate_hook_succeeded_condition = "PreTerminateDeleteHookSucceeded"

-- `m[k] == v`, where a missing key reads as the empty text
abbrev pub reads : Option String → String → Bool
reads none v = "" == v
reads (some w) v = w == v

module _ (capi : Capi) (client : Client) where
  -- A control plane object that is not found is no reason to keep the member.
  object_error : Outcome Error Bool → Exec Session Error Unit
  object_error (ok deleting) = if deleting then stop control_plane_is_being_deleted else pure tt
  object_error (err not_found) = pure tt
  object_error (err e) = stop e

  check_control_plane : Option Ref → Exec Session Error Unit
  unfolding query object_error
  check_control_plane none = pure tt
  check_control_plane (some ref) = do
    object ←
        attempt (query (get_control_plane_object ref) (λ t. client.get_control_plane_object t ref))
    object_error object

  check_node : Option String → Exec Session Error Unit
  check_node none = stop nil_node_ref
  check_node (some node) = pure tt

  -- Returns if the member is to be removed, and stops with the reason if not.
  unfoldable pub is_remove_etcd_member_needed : Cluster → Machine → Exec Session Error Unit
  unfolding check_node check_control_plane query
  is_remove_etcd_member_needed cluster m =
      if cluster.deleting then stop cluster_is_being_deleted else do
        check_node m.node_ref
        check_control_plane cluster.control_plane_ref
        machines ← query list_active_machines client.active_control_plane_machines
        if eqb (length machines) 0 then stop no_control_plane_nodes else pure tt

  unfoldable pub await_removal : Machine → Handler Unit
  unfolding perform
  await_removal m = do
    or_fail (perform get_workload_cluster client.get_workload_cluster)
    removed ← or_fail (remove_etcd_member_for_machine client m)
    if removed then pure tt else finish (requeued_after etcd_removal_requeue_after)

  -- The four reasons for which the removal is skipped; any other error is returned.
  unfoldable pub unless_skipped : Machine → Outcome Error Unit → Handler Unit
  unless_skipped m (ok _) = await_removal m
  unless_skipped m (err no_control_plane_nodes) = pure tt
  unless_skipped m (err nil_node_ref) = pure tt
  unless_skipped m (err cluster_is_being_deleted) = pure tt
  unless_skipped m (err control_plane_is_being_deleted) = pure tt
  unless_skipped m (err e) = fail e

  abbrev pub without_hook : Machine → Machine
  without_hook m = record m {
    annotations = elim m.annotations [ none ↦ none | some d ↦ some (remove pre_terminate_hook d) ];
  }

  unfoldable pub remove_hook : Machine → Exec Session Error Unit
  unfolding perform
  remove_hook m = do
    perform (new_patch_helper m.name) (λ t. client.new_patch_helper t m)
    perform (patch_machine (without_hook m)) (λ t. client.patch_machine t (without_hook m))

  unfoldable pub resolve_hook : Machine → Handler CtrlResult
  unfolding query
  resolve_hook m = do
    cluster ← or_fail (query get_cluster (λ t. client.get_cluster t m))
    needed ← attempt (is_remove_etcd_member_needed cluster m)
    unless_skipped m needed
    or_fail (remove_hook m)
    pure zero_result

  unfoldable pub has_k3s_hook : Machine → Bool
  has_k3s_hook m =
      capi.has_with_prefix pre_terminate_hook m.annotations
      && reads (annotation pre_terminate_hook m.annotations) k3s_hook_name

  unfoldable pub reconcile_machine : Machine → Handler CtrlResult
  unfolding has_k3s_hook
  reconcile_machine m =
      if not m.deleting
      then finish zero_result
      else if not (has_k3s_hook m)
      then finish zero_result
      else if not (capi.is_false_v1beta1 m.conditions pre_terminate_hook_succeeded_condition)
      then finish zero_result
      else resolve_hook m

  unfoldable pub not_fetched : Error → Handler Machine
  not_fetched not_found = finish zero_result
  not_fetched e = fail e

  unfoldable pub reconcile : String → Handler CtrlResult
  unfolding query
  reconcile name = do
    m ← catch (query (get_machine name) (λ t. client.get_machine t name)) not_fetched
    reconcile_machine m
