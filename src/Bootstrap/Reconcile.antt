-- ===== src/Bootstrap/Reconcile.antt =====
-- Reconcile of a KThreesConfig, from its request to the patch that is deferred.
pub mod Safety
use cluster_api_k3s.Prelude.{
  String, Bool, true, false, Option, none, some, List, [], ◌∷◌, not, is_some, if◌then◌else◌, ◌==◌,
  ◌&&◌, ◌||◌,
}
use cluster_api_k3s.Prelude.Exec.{
  Exec, Outcome, ok, err, pure, modify, catch, stop, gets, lift, attempt, ◌>>=◌, ◌>>◌,
}
use cluster_api_k3s.Api.{
  Error, not_found, no_cluster, Cluster, KThreesConfig, ConfigOwner, Request, Requests,
  ManagementClient, get_kthrees_config, get_config_owner, get_cluster_by_name,
  new_config_patch_helper, patch_config, unlock, Io, ask, tell, decide,
}
use cluster_api_k3s.Controllers.{CtrlResult, zero_result, requeued_after, Return, returned}
use cluster_api_k3s.Bootstrap.{
  BootstrapLibrary, BootstrapSession, Action, BootstrapHandler, zoom, with_config, with_conditions,
  mark_true, mark_false, data_secret_available_condition, certificates_available_condition,
  waiting_for_cluster_infrastructure_reason,
}
use cluster_api_k3s.Bootstrap.Joining.{join_control_plane, join_worker}
use cluster_api_k3s.Bootstrap.Initializing.{
  or_return_error, finish_after, handle_cluster_not_initialized,
}

-- ptr.Deref with false
abbrev pub deref : Option Bool → Bool
deref none = false
deref (some b) = b

-- A request for a config that has nothing to do yet, or the error of a call.
abbrev pub unless_missing : {A : Type 0} → Error → Exec Requests Return A
unless_missing not_found = stop (zero_result, none)
unless_missing no_cluster = stop (zero_result, none)
unless_missing e = stop (zero_result, some e)

abbrev pub unless_not_found : {A : Type 0} → Error → Exec Requests Return A
unless_not_found not_found = stop (zero_result, none)
unless_not_found e = stop (zero_result, some e)

abbrev pub owner_or_done : Option ConfigOwner → Exec Requests Return ConfigOwner
owner_or_done none = stop (zero_result, none)
owner_or_done (some owner) = pure owner

module _ (lib : BootstrapLibrary) (client : ManagementClient) where
  abbrev pub recover : ConfigOwner → KThreesConfig → KThreesConfig
  recover owner config = record config { ready = true; data_secret_name = owner.data_secret_name }

  unfoldable pub join : Cluster → ConfigOwner → BootstrapHandler CtrlResult
  unfolding decide join_control_plane join_worker
  join cluster owner = do
    or_return_error (zoom (decide unlock (λ rs. client.unlock rs cluster)))
    or_return_error (
        if owner.is_control_plane_machine
        then join_control_plane lib client cluster owner
        else join_worker lib client cluster owner)
    pure zero_result

  unfoldable pub await_infrastructure : BootstrapHandler CtrlResult
  unfolding mark_false
  await_infrastructure = do
    mark_false lib data_secret_available_condition waiting_for_cluster_infrastructure_reason
    finish_after (requeued_after 60)

  unfoldable pub recover_status : ConfigOwner → BootstrapHandler CtrlResult
  unfolding mark_true
  recover_status owner = do
    modify (with_config (recover owner))
    mark_true lib data_secret_available_condition
    finish_after zero_result

  -- The machine has its secret, and the status of the config does not say so.
  abbrev pub is_stale : ConfigOwner → KThreesConfig → Bool
  is_stale owner config =
      is_some owner.data_secret_name && (not config.ready || not (is_some config.data_secret_name))

  unfoldable pub generate_data : Cluster → ConfigOwner → BootstrapHandler CtrlResult
  unfolding handle_cluster_not_initialized join
  generate_data cluster owner =
      if not (deref cluster.control_plane_initialized)
      then handle_cluster_not_initialized lib client cluster owner
      else join cluster owner

  -- The switch and what follows it.
  unfoldable pub reconcile_config : Cluster → ConfigOwner → BootstrapHandler CtrlResult
  unfolding await_infrastructure recover_status generate_data
  reconcile_config cluster owner = do
    config ← gets (λ s. s.config)
    if not (deref cluster.infrastructure_provisioned)
        then await_infrastructure
        else if is_stale owner config
        then recover_status owner
        else if config.ready
        then finish_after zero_result
        else generate_data cluster owner

  abbrev pub is_nil : Option Error → Bool
  is_nil none = true
  is_nil (some e) = false

  -- An error of the patch is returned where there is no other.
  abbrev pub after_patch : Return → Outcome Error Unit → Return
  after_patch (r, none) (err e) = (r, some e)
  after_patch r patched = r

  abbrev pub summarized : KThreesConfig → KThreesConfig
  summarized config = record config {
    conditions =
        lib.set_summary config.conditions
          (data_secret_available_condition ∷ certificates_available_condition ∷ []);
  }

  unfoldable pub deferred_patch : Outcome Return CtrlResult × BootstrapSession → Return × Requests
  unfolding tell
  deferred_patch (o, s) =
      let config = summarized s.config in
      let complete = is_nil (returned o).1 in
      let (patched, rs) =
        tell (patch_config config complete) (λ rs. client.patch_config rs config complete)
          s.requests in
      (after_patch (returned o) patched, rs)

  -- What is looked up before the config is worked on.
  unfoldable pub start :
      String → String → Exec Requests Return (KThreesConfig × (ConfigOwner × Cluster))
  unfolding ask tell
  start namespace name = do
    config ←
        catch
          (ask (get_kthrees_config namespace name)
            (λ rs. client.get_kthrees_config rs namespace name))
          unless_not_found
    found ← catch (ask get_config_owner (λ rs. client.get_config_owner rs config)) unless_not_found
    owner ← owner_or_done found
    cluster ←
        catch
          (ask (get_cluster_by_name owner.namespace owner.cluster_name)
            (λ rs. client.get_cluster_by_name rs owner.namespace owner.cluster_name))
          unless_missing
    if lib.is_paused cluster config then stop (zero_result, none) else pure tt
    catch (tell new_config_patch_helper (λ rs. client.new_config_patch_helper rs config))
        (λ e. stop (zero_result, some e))
    pure (config, (owner, cluster))

  unfoldable pub started :
      Outcome Return (KThreesConfig × (ConfigOwner × Cluster)) × Requests → Return × Requests
  unfolding reconcile_config deferred_patch
  started (err r, rs) = (r, rs)
  started (ok (config, (owner, cluster)), rs) =
      deferred_patch (reconcile_config cluster owner (record { config = config; requests = rs }))

  unfoldable pub reconcile : String → String → Requests → Return × Requests
  unfolding start started
  reconcile namespace name rs = started (start namespace name rs)
