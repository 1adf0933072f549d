-- ===== src/Scale/Down.antt =====
-- controlplane/controllers/scale.go: scaleDownControlPlane. The events that it records are not
-- modelled.
pub mod Safety
use cluster_api_k3s.Prelude.{Bool, Option, none, some, List, [], ◌∷◌, if◌then◌else◌}
use cluster_api_k3s.Prelude.Exec.{Exec, Outcome, ok, err, pure, gets, lift, catch, ◌>>=◌, ◌>>◌}
use cluster_api_k3s.Api.{
  Error, not_found, Machine, Capi, Client, Session, get_workload_cluster, perform,
}
use cluster_api_k3s.Controllers.{CtrlResult, requeued, is_zero, Handler, finish, fail, or_fail}
use cluster_api_k3s.ControlPlane.{is_etcd_managed}
use cluster_api_k3s.Workload.Leaving.{forward_etcd_leadership}
use cluster_api_k3s.Remediation.Reconcile.{delete, add_hook}
use cluster_api_k3s.Scale.Preflight.{preflight_checks, select_machine_for_scale_down}

module _ (capi : Capi) (client : Client) where
  -- The candidate is the newest machine, whichever is deleted.
  unfoldable pub hand_over_etcd : Machine → Exec Session Error Unit
  unfolding perform
  hand_over_etcd m = do
    perform get_workload_cluster client.get_workload_cluster
    machines ← gets (λ s. s.plane.machines)
    forward_etcd_leadership client m (capi.newest machines)
    add_hook capi client m

  -- A machine that is not there any more is deleted.
  unfoldable pub ignore_not_found : Error → Handler Unit
  ignore_not_found not_found = pure tt
  ignore_not_found e = fail e

  unfoldable pub delete_selected : Machine → Handler CtrlResult
  delete_selected m = do
    managed ← gets (λ s. is_etcd_managed s.plane)
    if managed then or_fail (hand_over_etcd m) else pure tt
    catch (delete capi client m) ignore_not_found
    pure requeued

  unfoldable pub scale_down_control_plane : List Machine → Handler CtrlResult
  scale_down_control_plane outdated = do
    selected ← gets (λ s. select_machine_for_scale_down capi s.plane outdated)
    m ← or_fail (lift selected)
    result ← gets (λ s. preflight_checks capi s.plane (m.name ∷ []))
    if is_zero result then delete_selected m else finish result
