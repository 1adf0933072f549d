-- ===== src/Bootstrap/Joining.antt =====
-- joinControlplane and joinWorker: the bootstrap data of a machine that joins a control plane.
use cluster_api_k3s.Prelude.{String, List, [], ◌∷◌, ◌++◌, if◌then◌else◌}
use cluster_api_k3s.Prelude.Exec.{pure, catch, stop, gets, lift, ◌>>=◌, ◌>>◌}
use cluster_api_k3s.Api.{Cluster, File, KThreesConfig, ConfigOwner, ObjectKey, ManagementClient}
use cluster_api_k3s.K3sConfig.{generate_join_control_plane_config, generate_worker_config}
use cluster_api_k3s.K3sConfig.Ciphers.{concat}
use cluster_api_k3s.Secrets.Token.{lookup_token}
use cluster_api_k3s.Cloudinit.{new_join_control_plane, new_worker}
use cluster_api_k3s.Bootstrap.{
  BootstrapLibrary, Action, zoom, mark_false, reconcile_top_level_object_settings, user_data,
  root_file, default_k3s_config_location, data_secret_available_condition,
  data_secret_generation_failed_reason,
}
use cluster_api_k3s.Bootstrap.Files.{is_etcd_embedded, resolve_files, resolve_etcd_proxy_file}
use cluster_api_k3s.Bootstrap.Storing.{store_bootstrap_data}

abbrev pub key_of : Cluster → ObjectKey
key_of cluster = record { namespace = cluster.namespace; name = cluster.name }

abbrev pub current_config : Action KThreesConfig
current_config = gets (λ s. s.config)

module _ (lib : BootstrapLibrary) (client : ManagementClient) where
  -- `if err != nil { MarkFalse(DataSecretAvailable, DataSecretGenerationFailed); return err }`
  unfoldable pub or_mark_failed : {A : Type 0} → Action A → Action A
  unfolding mark_false
  or_mark_failed m = catch m λ e.
      mark_false lib data_secret_available_condition data_secret_generation_failed_reason >> stop e

  unfoldable pub with_etcd_proxy : List File → Action (List File)
  unfolding or_mark_failed resolve_etcd_proxy_file
  with_etcd_proxy files = do
    config ← current_config
    if is_etcd_embedded config
        then (do
          proxy ← or_mark_failed (lift (resolve_etcd_proxy_file lib config))
          pure (files ++ proxy ∷ []))
        else pure files

  -- The files of a machine of the control plane.
  unfoldable pub control_plane_files : Action (List File)
  unfolding or_mark_failed with_etcd_proxy resolve_files
  control_plane_files = do
    config ← current_config
    files ← or_mark_failed (zoom (resolve_files client config))
    with_etcd_proxy files

  abbrev pub server_url : Cluster → String
  server_url cluster = concat "https://" (lib.endpoint_string cluster.control_plane_endpoint)

  unfoldable pub join_control_plane : Cluster → ConfigOwner → Action Unit
  unfolding reconcile_top_level_object_settings or_mark_failed lookup_token control_plane_files
      new_join_control_plane store_bootstrap_data
  join_control_plane cluster owner = do
    machine ← lift (lib.to_machine owner)
    reconcile_top_level_object_settings machine
    token ← or_mark_failed (zoom (lookup_token client (key_of cluster)))
    config ← current_config
    content ← lift (
        lib.marshal_server (
          generate_join_control_plane_config (server_url cluster) token
            cluster.control_plane_endpoint.host config.spec.server_config config.spec.agent_config))
    files ← control_plane_files
    cloud_init ← lift (
        new_join_control_plane lib.generate
          (user_data config files (root_file default_k3s_config_location content)))
    store_bootstrap_data lib client cluster cloud_init

  unfoldable pub join_worker : Cluster → ConfigOwner → Action Unit
  unfolding reconcile_top_level_object_settings or_mark_failed lookup_token resolve_files new_worker
      store_bootstrap_data
  join_worker cluster owner = do
    machine ← lift (lib.to_machine owner)
    reconcile_top_level_object_settings machine
    token ← or_mark_failed (zoom (lookup_token client (key_of cluster)))
    config ← current_config
    content ← lift (
        lib.marshal_agent (
          generate_worker_config (server_url cluster) token config.spec.server_config
            config.spec.agent_config))
    files ← or_mark_failed (zoom (resolve_files client config))
    cloud_init ← lift (
        new_worker lib.generate
          (user_data config files (root_file default_k3s_config_location content)))
    store_bootstrap_data lib client cluster cloud_init
