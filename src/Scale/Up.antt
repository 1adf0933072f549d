-- ===== src/Scale/Up.antt =====
-- controlplane/controllers/scale.go: initializeControlPlane and scaleUpControlPlane. The events that
-- they record are not modelled.
use cluster_api_k3s.Prelude.{[], ltb, length, if◌then◌else◌}
use cluster_api_k3s.Prelude.Exec.{pure, gets, ◌>>=◌, ◌>>◌}
use cluster_api_k3s.Api.{other, KThreesConfigSpec, Capi, Client, ControlPlane, list_machines, query}
use cluster_api_k3s.Controllers.{CtrlResult, requeued, is_zero, Handler, finish, fail, or_fail}
use cluster_api_k3s.ControlPlane.{next_failure_domain_for_scale_up}
use cluster_api_k3s.Scale.Machines.{clone_configs_and_generate_machine}
use cluster_api_k3s.Scale.Preflight.{preflight_checks}

-- InitialControlPlaneConfig and JoinControlPlaneConfig are both a copy of the spec.
abbrev pub control_plane_config : ControlPlane → KThreesConfigSpec
control_plane_config c = c.kcp.kthrees_config_spec

module _ (capi : Capi) (client : Client) where
  -- Both sizes grow by one machine, in the next failure domain.
  unfoldable pub add_machine : Handler CtrlResult
  add_machine = do
    spec ← gets (λ s. control_plane_config s.plane)
    failure_domain ← gets (λ s. next_failure_domain_for_scale_up capi s.plane)
    or_fail (clone_configs_and_generate_machine capi client spec failure_domain)
    pure requeued

  unfoldable pub initialize_control_plane : Handler CtrlResult
  unfolding query add_machine
  initialize_control_plane = do
    owned ← or_fail (query list_machines client.owned_machines)
    if ltb 0 (length owned)
        then fail (other "control plane has already been initialized")
        else add_machine

  unfoldable pub scale_up_control_plane : Handler CtrlResult
  unfolding preflight_checks add_machine
  scale_up_control_plane = do
    result ← gets (λ s. preflight_checks capi s.plane [])
    if is_zero result then add_machine else finish result
