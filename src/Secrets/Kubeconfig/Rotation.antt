-- ===== src/Secrets/Kubeconfig/Rotation.antt =====
-- controlplane/controllers/kthreescontrolplane_controller.go, reconcileKubeconfig: the kubeconfig
-- secret is created where there is none, and made anew before its client certificate ends.
pub mod Writes
use cluster_api_k3s.Prelude.{
  String, Bool, true, false, Option, none, some, List, [], ◌∷◌, if◌then◌else◌, not,
}
use cluster_api_k3s.Prelude.Exec.{Outcome, ok, err, pure, stop, catch, attempt, ◌>>=◌, ◌>>◌}
use cluster_api_k3s.Api.{
  Error, not_found, dependent_certificate_not_found, OwnerReference, ObjectKey, ApiEndpoint, Secret,
  KThreesControlPlane, ManagementClient, Io,
}
use cluster_api_k3s.Controllers.{CtrlResult, zero_result, requeued_after}
use cluster_api_k3s.Secrets.{kubeconfig, get_from_namespaced_name}
use cluster_api_k3s.Secrets.Kubeconfig.{
  KubeconfigLibrary, create_secret_with_owner, needs_client_cert_rotation, regenerate_secret,
}

-- metav1.NewControllerRef with the kind KThreesControlPlane
abbrev pub controller_ref : KThreesControlPlane → OwnerReference
controller_ref kcp = record {
  kind = "KThreesControlPlane";
  name = kcp.name;
  uid = kcp.uid;
  controller = true;
}

-- A missing authority is waited for; any other error is returned.
abbrev pub creation_error : Error → Io CtrlResult
creation_error dependent_certificate_not_found = pure (requeued_after 30)
creation_error e = stop e

module _ (lib : KubeconfigLibrary) (client : ManagementClient) where
  unfoldable pub created : ObjectKey → ApiEndpoint → KThreesControlPlane → Io CtrlResult
  unfolding create_secret_with_owner
  created cluster endpoint kcp =
      catch
        (create_secret_with_owner lib client cluster (lib.endpoint_string endpoint)
            (controller_ref kcp)
          >> pure zero_result)
        creation_error

  unfoldable pub rotated : Secret → Io CtrlResult
  unfolding needs_client_cert_rotation regenerate_secret
  rotated s = do
    needed ← needs_client_cert_rotation lib client s lib.client_certificate_renewal_duration
    if needed then regenerate_secret lib client s else pure tt
    pure zero_result

  unfoldable pub kubeconfig_found :
      ObjectKey → ApiEndpoint → KThreesControlPlane → Outcome Error Secret → Io CtrlResult
  unfolding created rotated
  kubeconfig_found cluster endpoint kcp (err not_found) = created cluster endpoint kcp
  kubeconfig_found cluster endpoint kcp (err e) = stop e
  kubeconfig_found cluster endpoint kcp (ok s) =
      if not (lib.is_controlled_by s kcp) then pure zero_result else rotated s

  unfoldable pub reconcile_kubeconfig :
      ObjectKey → ApiEndpoint → KThreesControlPlane → Io CtrlResult
  unfolding get_from_namespaced_name kubeconfig_found
  reconcile_kubeconfig cluster endpoint kcp =
      if lib.endpoint_is_zero endpoint then pure zero_result else do
        found ← attempt (get_from_namespaced_name client cluster kubeconfig)
        kubeconfig_found cluster endpoint kcp found
