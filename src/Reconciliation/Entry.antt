-- ===== src/Reconciliation/Entry.antt =====
-- reconcile as a whole: the secrets of the cluster, the machines that the control plane owns, and what
-- is done with them.
pub mod Deletes
pub mod Owned
use cluster_api_k3s.Prelude.{
  ℕ, String, Bool, true, false, Option, none, some, List, [], ◌∷◌, eqb, ltb, not, length,
  if◌then◌else◌,
}
use cluster_api_k3s.Prelude.Int.{ℤ}
use cluster_api_k3s.Prelude.Exec.{
  Exec, Outcome, ok, err, pure, stop, gets, modify, catch, ◌>>=◌, ◌>>◌,
}
use cluster_api_k3s.Api.{
  Error, nil_dereference, condition_true, condition_false, Ref, OwnerReference, Machine, Cluster,
  KThreesControlPlane, ObjectKey, ApiEndpoint, Capi, Client, Session, Trace, Requests,
  ManagementClient, Io, get_template, new_template_patch_helper, patch_template,
  list_control_plane_machines, perform, query,
}
use cluster_api_k3s.Controllers.{CtrlResult, zero_result, Return}
use cluster_api_k3s.Workload.Conditions.{mark_kcp}
use cluster_api_k3s.ControlPlane.Assembly.{new_control_plane}
use cluster_api_k3s.Secrets.Certificates.{
  Certificate, new_certificates_for_initial_control_plane, lookup_or_generate,
}
use cluster_api_k3s.Secrets.Token.{Owner, Ownership}
use cluster_api_k3s.Secrets.Token
use cluster_api_k3s.Secrets.Kubeconfig.{KubeconfigLibrary}
use cluster_api_k3s.Secrets.Kubeconfig.Rotation.{controller_ref, reconcile_kubeconfig}
use cluster_api_k3s.Reconciliation.{operate}
use cluster_api_k3s.Reconciliation.Deletion.{aggregated_ready}
use cluster_api_k3s.Reconciliation.Syncing.{sync_machines}

-- Library functions that only the beginning of reconcile calls.
pub record EntryLibrary : Type 0 where
  -- strings.HasSuffix with TemplateSuffix, of the kind of a reference
  pub is_template : Ref → Bool
  pub ensure_owner_ref : List OwnerReference → OwnerReference → List OwnerReference
  pub endpoint_is_valid : ApiEndpoint → Bool
  -- collections.AdoptableControlPlaneMachines
  pub is_adoptable : Cluster → Machine → Bool
  pub ownership : Ownership
  pub kubeconfig : KubeconfigLibrary

-- The objects in memory with the calls of the controllers, and the requests for secrets.
pub record Whole : Type 0 where
  pub session : Session
  pub requests : Requests

abbrev pub WholeHandler : Type 0 → Type 0
WholeHandler A = Exec Whole Return A

abbrev pub in_session : {E A : Type 0} → Whole → Outcome E A × Session → Outcome E A × Whole
in_session w (r, s) = (r, record w { session = s })

abbrev pub on_session : {E A : Type 0} → Exec Session E A → Exec Whole E A
on_session m w = in_session w (m w.session)

abbrev pub in_requests : {A : Type 0} → Whole → Outcome Error A × Requests → Outcome Error A × Whole
in_requests w (r, rs) = (r, record w { requests = rs })

abbrev pub on_requests : {A : Type 0} → Io A → Exec Whole Error A
on_requests m w = in_requests w (m w.requests)

-- `return reconcile.Result{}, err` and `return reconcile.Result{}, nil`
abbrev pub or_error : {A : Type 0} → Exec Whole Error A → WholeHandler A
or_error m = catch m (λ e. stop (zero_result, some e))

abbrev pub done_early : {A : Type 0} → WholeHandler A
done_early = stop (zero_result, none)

abbrev pub plane_key : Whole → ObjectKey
plane_key w = record {
  namespace = w.session.plane.cluster.namespace;
  name = w.session.plane.cluster.name;
}

abbrev pub token_owner : KThreesControlPlane → Owner
token_owner kcp = record { kind = "KThreesControlPlane"; name = kcp.name; uid = kcp.uid }

abbrev pub certificates_condition : String
certificates_condition = "CertificatesAvailable"

abbrev pub certificates_failed_reason : String
certificates_failed_reason = "CertificatesGenerationFailed"

abbrev pub token_available_condition : String
token_available_condition = "TokenAvailable"

abbrev pub token_generation_failed_reason : String
token_generation_failed_reason = "TokenGenerationFailed"

abbrev cluster_owner : Cluster → OwnerReference
cluster_owner cluster = record {
  kind = "Cluster";
  name = cluster.name;
  uid = cluster.uid;
  controller = false;
}

-- Whether the code came to an end at a nil pointer, which no handler of errors sees.
unfoldable is_panic : Error → Bool
is_panic nil_dereference = true
is_panic e = false

module _ (capi : Capi) (lib : EntryLibrary) (client : Client) (management : ManagementClient) where
  unfoldable pub reconcile_external_reference : Ref → Exec Session Error Unit
  unfolding perform query
  reconcile_external_reference ref = if not (lib.is_template ref) then pure tt else (do
    owners ← query (get_template ref) (λ t. client.get_template t ref)
    perform (new_template_patch_helper ref) (λ t. client.new_template_patch_helper t ref)
    cluster ← gets (λ s. s.plane.cluster)
    let now = lib.ensure_owner_ref owners (cluster_owner cluster) in
        perform (patch_template ref now) (λ t. client.patch_template t ref now))

  -- The condition tells how it went: it is True, or False with the reason. Where a nil pointer was
  -- followed, nothing more is done.
  unfoldable pub marked : {A : Type 0} → String → String → Io A → Exec Whole Error Unit
  unfolding mark_kcp is_panic
  marked type reason m = do
    catch (on_requests m) λ e.
        if is_panic e
        then stop e
        else on_session (modify (mark_kcp capi type condition_false reason)) >> stop e
    on_session (modify (mark_kcp capi type condition_true ""))

  -- Certificates, token and kubeconfig; the result of reconcileKubeconfig is not looked at.
  unfoldable pub reconcile_secrets : WholeHandler Unit
  unfolding marked lookup_or_generate new_certificates_for_initial_control_plane
      reconcile_kubeconfig
  reconcile_secrets = do
    key ← gets plane_key
    kcp ← gets (λ w. w.session.plane.kcp)
    or_error (
        marked certificates_condition certificates_failed_reason (
          lookup_or_generate management key (controller_ref kcp)
            (new_certificates_for_initial_control_plane true)))
    or_error (
        marked token_available_condition token_generation_failed_reason
          (Token.reconcile lib.ownership management key (token_owner kcp)))
    endpoint ← gets (λ w. w.session.plane.cluster.control_plane_endpoint)
    if not (lib.endpoint_is_valid endpoint) then done_early else pure tt
    or_error (on_requests (reconcile_kubeconfig lib.kubeconfig management key endpoint kcp))
    pure tt

  -- Where a machine could be adopted, or is somebody else's, nothing is done.
  unfoldable pub owned_machines : List Machine → WholeHandler (List Machine)
  owned_machines machines = do
    plane ← gets (λ w. w.session.plane)
    if ltb 0 (length (capi.filter (lib.is_adoptable plane.cluster) machines))
        then done_early
        else pure tt
    let owned = capi.filter (capi.is_owned plane.kcp) machines in
        if not (eqb (length owned) (length machines)) then done_early else pure owned

  unfoldable pub aggregate_if_any : Session → Session
  unfolding aggregated_ready
  aggregate_if_any s = if ltb 0 (length s.plane.machines) then aggregated_ready capi client s else s

  -- From the machines that are owned to the conditions.
  unfoldable pub take_up : List Machine → WholeHandler Unit
  unfolding sync_machines new_control_plane aggregate_if_any
  take_up owned = do
    or_error (on_session (new_control_plane client owned))
    or_error (on_session (sync_machines capi client))
    on_session (modify aggregate_if_any)

  -- What comes before the conditions.
  unfoldable pub assemble : WholeHandler Unit
  unfolding reconcile_external_reference reconcile_secrets owned_machines query take_up
  assemble = do
    ref ← gets (λ w. w.session.plane.kcp.machine_template.infrastructure_ref)
    or_error (on_session (reconcile_external_reference ref))
    reconcile_secrets
    machines ←
        or_error (on_session (query list_control_plane_machines client.control_plane_machines))
    owned ← owned_machines machines
    take_up owned

  unfoldable pub reconcile : ℤ → WholeHandler CtrlResult
  reconcile now = do assemble; on_session (operate capi client now)
