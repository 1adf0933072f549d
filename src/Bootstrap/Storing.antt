-- ===== src/Bootstrap/Storing.antt =====
-- storeBootstrapData: the secret is created or, where there is one, updated; then the config is ready.
pub mod Written
use cluster_api_k3s.Prelude.{String, Bool, true, Option, none, some, List, [], ◌∷◌}
use cluster_api_k3s.Prelude.Exec.{Outcome, ok, err, pure, modify, catch, stop, gets, ◌>>=◌, ◌>>◌}
use cluster_api_k3s.Api.{
  Error, already_exists, Cluster, Secret, KThreesConfig, cluster_name_label, cluster_secret_type,
  ManagementClient, create_secret, update_secret, Io, tell,
}
use cluster_api_k3s.Bootstrap.{
  BootstrapLibrary, BootstrapSession, Action, zoom, with_config, mark_true,
  data_secret_available_condition,
}

unfoldable pub bootstrap_secret : Cluster → KThreesConfig → String → Secret
bootstrap_secret cluster config content = record {
  namespace = config.namespace;
  name = config.name;
  labels = (cluster_name_label, cluster.name) ∷ [];
  owners =
      record { kind = "KThreesConfig"; name = config.name; uid = config.uid; controller = true }
      ∷ [];
  entries = ("value", content) ∷ [];
  type = cluster_secret_type;
}

module _ (client : ManagementClient) where
  unfoldable pub update_if_exists : Secret → Error → Io Unit
  unfolding tell
  update_if_exists s already_exists = tell (update_secret s) (λ rs. client.update_secret rs s)
  update_if_exists s e = stop e

  unfoldable pub create_or_update : Secret → Io Unit
  unfolding tell update_if_exists
  create_or_update s =
      catch (tell (create_secret s) (λ rs. client.create_secret rs s)) (update_if_exists s)

module _ (lib : BootstrapLibrary) (client : ManagementClient) where
  abbrev pub set_ready : KThreesConfig → KThreesConfig
  set_ready config = record config { data_secret_name = some config.name; ready = true }

  unfoldable pub store_bootstrap_data : Cluster → String → Action Unit
  unfolding create_or_update bootstrap_secret mark_true
  store_bootstrap_data cluster content = do
    config ← gets (λ s. s.config)
    zoom (create_or_update client (bootstrap_secret cluster config content))
    modify (with_config set_ready)
    mark_true lib data_secret_available_condition
