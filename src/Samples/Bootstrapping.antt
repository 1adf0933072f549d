-- ===== src/Samples/Bootstrapping.antt =====
-- A KThreesConfig of a machine of the control plane, and the first machine of a cluster.
use cluster_api_k3s.Prelude.{true, false, none, some, [], ◌∷◌, refl}
use cluster_api_k3s.Prelude.Exec.{ok}
use cluster_api_k3s.Api.{File, KThreesConfig, ConfigOwner, ManagementClient}
use cluster_api_k3s.Samples.{cluster, config_spec}
use cluster_api_k3s.Samples.Management.{management}
use cluster_api_k3s.Secrets.Certificates.Loops.{Both}
use cluster_api_k3s.Bootstrap.{BootstrapLibrary, BootstrapSession}
use cluster_api_k3s.Bootstrap.Files.{resolve_files}
use cluster_api_k3s.Bootstrap.Files.Resolved.{IsResolved, resolve_files-Resolved}
use cluster_api_k3s.Bootstrap.Initializing.{handle_cluster_not_initialized}
use cluster_api_k3s.Bootstrap.Initializing.Locked.{
  AfterHandling, handle_cluster_not_initialized-WritesUnderLock,
}
use cluster_api_k3s.Bootstrap.Reconcile.{reconcile_config}
use cluster_api_k3s.Bootstrap.Reconcile.Safety.{IsAccounted, reconcile_config-Accounted}

abbrev library : BootstrapLibrary
library = record {
  to_machine = λ o. ok (record { name = o.name; version = some "v1.30.0+k3s1" });
  is_paused = λ c config. false;
  get_reason = λ cs type. "";
  mark_true = λ cs type. cs;
  mark_false = λ cs type reason. cs;
  set_summary = λ cs types. cs;
  endpoint_string = λ e. e.host;
  marshal_server = λ c. ok c.agent.token;
  marshal_agent = λ c. ok c.token;
  render_etcd_proxy = λ image registry. ok registry;
  generate = λ kind template input. ok template;
}

abbrev owner : ConfigOwner
owner = record {
  kind = "Machine";
  namespace = "default";
  name = "m1";
  cluster_name = "my-cluster";
  data_secret_name = none;
  is_control_plane_machine = true;
}

-- A file whose content is in a secret.
abbrev secret_file : File
secret_file = record {
  path = "/etc/registries.yaml";
  owner = "root:root";
  permissions = "0600";
  encoding = "";
  content = "";
  content_from = some ("registries", "value");
}

abbrev config : KThreesConfig
config = record {
  namespace = "default";
  name = "m1-config";
  uid = "u1";
  annotations = [];
  spec = record config_spec { files = secret_file ∷ [] };
  ready = false;
  data_secret_name = none;
  conditions = [];
}

abbrev session : BootstrapSession
session = record { config = config; requests = [] }

-- Every secret has one entry.
abbrev registries : ManagementClient
registries = record management {
  get_secret = λ rs namespace n. ok (record {
    namespace = namespace;
    name = n;
    labels = [];
    owners = [];
    entries = ("value", "mirrors") ∷ [];
    type = "";
  });
}

resolve_files-Resolved_example :
    Both
      (IsResolved registries "default")
      (secret_file ∷ [])
      (record secret_file { content = "mirrors"; content_from = none } ∷ [])
      (resolve_files registries config []).1
unfolding resolve_files
resolve_files-Resolved_example =
    resolve_files-Resolved registries config
      (record secret_file { content = "mirrors"; content_from = none } ∷ []) [] refl

handle_cluster_not_initialized-WritesUnderLock_example :
    AfterHandling management cluster library
      (handle_cluster_not_initialized library management cluster owner session).0
      (handle_cluster_not_initialized library management cluster owner session).1.requests
handle_cluster_not_initialized-WritesUnderLock_example =
    handle_cluster_not_initialized-WritesUnderLock management cluster library owner session refl tt

reconcile_config-Accounted_example :
    IsAccounted library management owner session
      (reconcile_config library management cluster owner session).1
reconcile_config-Accounted_example =
    reconcile_config-Accounted library management cluster owner session
