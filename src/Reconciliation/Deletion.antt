-- ===== src/Reconciliation/Deletion.antt =====
-- controlplane/controllers/kthreescontrolplane_controller.go: reconcileDelete.
pub mod Names
pub mod Order
use cluster_api_k3s.Prelude.{String, Bool, List, [], ◌∷◌, eqb, ltb, length, not, if◌then◌else◌}
use cluster_api_k3s.Prelude.Exec.{Exec, Outcome, ok, err, pure, gets, modify, attempt, ◌>>=◌, ◌>>◌}
use cluster_api_k3s.Api.{
  Error, not_found, condition_false, Machine, Capi, Client, Session, list_all_machines,
  kthrees_control_plane_finalizer, query,
}
use cluster_api_k3s.Controllers.{
  CtrlResult, zero_result, requeued_after, Handler, finish, fail, or_fail, delete_requeue_after,
}
use cluster_api_k3s.ControlPlane.Assembly.{new_control_plane}
use cluster_api_k3s.Workload.Conditions.{mark_kcp}
use cluster_api_k3s.Remediation.Reconcile.{delete}
use cluster_api_k3s.Reconciliation.{reconcile_control_plane_conditions}

abbrev pub resized_condition : String
resized_condition = "Resized"

abbrev pub machines_ready_condition : String
machines_ready_condition = "MachinesReady"

-- A machine that is not there any more is deleted.
abbrev pub noted : Outcome Error Unit → List Error → List Error
noted (ok _) errs = errs
noted (err not_found) errs = errs
noted (err e) errs = e ∷ errs

module _ (capi : Capi) (client : Client) where
  unfoldable pub without_finalizer : Session → Session
  without_finalizer s = record s {
    plane = record s.plane {
      kcp = record s.plane.kcp {
        finalizers = capi.remove_finalizer kthrees_control_plane_finalizer s.plane.kcp.finalizers;
      };
    };
  }

  -- MachinesReady is made of the machines' conditions.
  unfoldable pub aggregated_ready : Session → Session
  aggregated_ready s = record s {
    plane = record s.plane {
      kcp = record s.plane.kcp {
        conditions =
            capi.set_aggregate s.plane.kcp.conditions machines_ready_condition s.plane.machines;
      };
    };
  }

  -- The calls for the deletions, one for each machine: the errors of those that failed.
  unfoldable pub delete_each : List Machine → Exec Session Error (List Error)
  unfolding delete
  delete_each [] = pure []
  delete_each (m ∷ ms) = do
    done ← attempt (delete capi client m)
    errs ← delete_each ms
    pure (noted done errs)

  unfoldable pub first_or_wait : List Error → Handler CtrlResult
  unfolding mark_kcp
  first_or_wait (e ∷ errs) = fail e
  first_or_wait [] = do
    modify (mark_kcp capi resized_condition condition_false "Deleting")
    pure (requeued_after delete_requeue_after)

  unfoldable pub delete_machines : Handler CtrlResult
  unfolding delete_each first_or_wait
  delete_machines = do
    machines ← gets (λ s. s.plane.machines)
    errs ← or_fail (delete_each (capi.filter (λ m. not (capi.has_deletion_timestamp m)) machines))
    first_or_wait errs

  unfoldable pub delete_owned : List Machine → List Machine → Handler CtrlResult
  unfolding mark_kcp aggregated_ready
  delete_owned all owned = do
    or_fail (new_control_plane client owned)
    conditions ← attempt (reconcile_control_plane_conditions capi client)
    modify aggregated_ready
    if eqb (length all) (length owned) then delete_machines else (do
      modify (mark_kcp capi resized_condition condition_false "Deleting")
      finish (requeued_after delete_requeue_after))

  -- The finalizer goes only once no machine is owned any more.
  unfoldable pub reconcile_delete : Handler CtrlResult
  unfolding without_finalizer query
  reconcile_delete = do
    all ← or_fail (query list_all_machines client.all_machines)
    owned ← gets (λ s. capi.filter (capi.is_owned s.plane.kcp) all)
    if eqb (length owned) 0
        then (do modify without_finalizer; finish zero_result)
        else delete_owned all owned
