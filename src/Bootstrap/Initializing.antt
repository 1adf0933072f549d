-- ===== src/Bootstrap/Initializing.antt =====
-- handleClusterNotInitialized: the first machine of the control plane makes the certificates and the
-- configuration that initialises the cluster, while it holds the initialisation lock.
pub mod Locked
use cluster_api_k3s.Prelude.{
  String, Bool, true, false, Option, none, some, List, [], ◌∷◌, not, if◌then◌else◌, ◌==◌,
}
use cluster_api_k3s.Prelude.Exec.{
  Exec, Outcome, ok, err, pure, modify, catch, stop, gets, lift, ◌>>=◌, ◌>>◌,
}
use cluster_api_k3s.Api.{
  Error, failed_unlock, aggregate, OwnerReference, Cluster, KThreesConfig, ConfigOwner,
  OwnerMachine, ManagementClient, lock, unlock, Io, decide,
}
use cluster_api_k3s.Controllers.{CtrlResult, zero_result, requeued_after, Return}
use cluster_api_k3s.K3sConfig.{generate_init_control_plane_config}
use cluster_api_k3s.Secrets.Certificates.{
  Certificate, new_certificates_for_initial_control_plane, lookup_or_generate,
}
use cluster_api_k3s.Secrets.Token.{lookup_token}
use cluster_api_k3s.Cloudinit.{new_init_control_plane}
use cluster_api_k3s.Bootstrap.{
  BootstrapLibrary, BootstrapSession, Action, BootstrapHandler, zoom, mark_true, mark_false,
  reconcile_top_level_object_settings, user_data, root_file, default_k3s_config_location,
  data_secret_available_condition, certificates_available_condition,
  waiting_for_control_plane_available_reason, data_secret_generation_failed_reason,
  certificates_generation_failed_reason,
}
use cluster_api_k3s.Bootstrap.Files.{is_etcd_embedded}
use cluster_api_k3s.Bootstrap.Storing.{store_bootstrap_data}
use cluster_api_k3s.Bootstrap.Joining.{key_of, current_config, control_plane_files}

-- metav1.NewControllerRef with the kind KThreesConfig
abbrev pub config_controller_ref : KThreesConfig → OwnerReference
config_controller_ref config = record {
  kind = "KThreesConfig";
  name = config.name;
  uid = config.uid;
  controller = true;
}

-- `return ctrl.Result{}, err`
abbrev pub or_return_error : {A : Type 0} → Action A → BootstrapHandler A
or_return_error m = catch m (λ e. stop (zero_result, some e))

abbrev pub finish_after : {A : Type 0} → CtrlResult → BootstrapHandler A
finish_after r = stop (r, none)

module _ (lib : BootstrapLibrary) (client : ManagementClient) where
  unfoldable pub certificates_of : Cluster → Action (List Certificate)
  unfolding mark_true mark_false lookup_or_generate new_certificates_for_initial_control_plane
  certificates_of cluster = do
    config ← current_config
    certificates ←
        catch
          (zoom (
            lookup_or_generate client (key_of cluster) (config_controller_ref config)
              (new_certificates_for_initial_control_plane (is_etcd_embedded config))))
          λ e.
            mark_false lib certificates_available_condition certificates_generation_failed_reason
            >> stop e
    mark_true lib certificates_available_condition
    pure certificates

  -- What is done while the lock is held.
  unfoldable pub initialize : Cluster → OwnerMachine → Action Unit
  unfolding reconcile_top_level_object_settings certificates_of lookup_token control_plane_files
      new_init_control_plane store_bootstrap_data
  initialize cluster machine = do
    reconcile_top_level_object_settings machine
    certificates ← certificates_of cluster
    token ← zoom (lookup_token client (key_of cluster))
    config ← current_config
    content ← lift (
        lib.marshal_server (
          generate_init_control_plane_config cluster.control_plane_endpoint.host token
            config.spec.server_config config.spec.agent_config))
    files ← control_plane_files lib client
    cloud_init ← lift (
        new_init_control_plane lib.generate
          (user_data config files (root_file default_k3s_config_location content)) certificates)
    store_bootstrap_data lib client cluster cloud_init

  -- The deferred function, where an error is returned.
  unfoldable pub unlock_after : Cluster → Error → Action Unit
  unfolding decide
  unlock_after cluster e = do
    unlocked ← zoom (decide unlock (λ rs. client.unlock rs cluster))
    if unlocked then stop e else stop (aggregate e failed_unlock)

  unfoldable pub with_lock : Cluster → OwnerMachine → BootstrapHandler CtrlResult
  unfolding initialize unlock_after
  with_lock cluster machine = do
    or_return_error (catch (initialize cluster machine) (unlock_after cluster))
    pure zero_result

  abbrev pub has_failed : KThreesConfig → Bool
  has_failed config =
      lib.get_reason config.conditions data_secret_available_condition
      == data_secret_generation_failed_reason

  -- The condition is set if it is not that the generation failed.
  unfoldable pub mark_waiting : {E : Type 0} → Exec BootstrapSession E Unit
  unfolding mark_false
  mark_waiting = do
    config ← gets (λ s. s.config)
    if has_failed config
        then pure tt
        else mark_false lib data_secret_available_condition
            waiting_for_control_plane_available_reason

  unfoldable pub take_lock : Cluster → OwnerMachine → Action Bool
  unfolding decide
  take_lock cluster machine =
      zoom (decide (lock machine.name) (λ rs. client.lock rs cluster machine.name))

  unfoldable pub handle_cluster_not_initialized :
      Cluster → ConfigOwner → BootstrapHandler CtrlResult
  unfolding mark_waiting take_lock with_lock
  handle_cluster_not_initialized cluster owner = do
    mark_waiting
    if not owner.is_control_plane_machine then finish_after (requeued_after 30) else (do
      machine ← or_return_error (lift (lib.to_machine owner))
      locked ← or_return_error (take_lock cluster machine)
      if not locked then finish_after (requeued_after 30) else with_lock cluster machine)
