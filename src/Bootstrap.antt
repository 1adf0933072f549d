-- ===== src/Bootstrap.antt =====
-- bootstrap/controllers/kthreesconfig_controller.go: a KThreesConfig becomes the bootstrap data of a
-- machine. What a reconciliation works on is the config in memory and the requests made so far.
pub mod Files
pub mod Storing
pub mod Joining
pub mod Initializing
pub mod Reconcile
pub mod Effects
pub mod Published
use cluster_api_k3s.Prelude.{
  String, Bool, true, false, Option, none, some, List, [], ◌∷◌, if◌then◌else◌, ◌==◌,
}
use cluster_api_k3s.Prelude.Exec.{Exec, Outcome, ok, err, modify, stop, catch}
use cluster_api_k3s.Api.{
  Error, Condition, Cluster, ApiEndpoint, File, KThreesConfig, ConfigOwner, OwnerMachine, Request,
  Requests, Io,
}
use cluster_api_k3s.Controllers.{CtrlResult, zero_result, Return}
use cluster_api_k3s.K3sConfig.{K3sServerConfig, K3sAgentConfig}
use cluster_api_k3s.Cloudinit.{BaseUserData, Engine}

-- The functions of sigs.k8s.io/cluster-api, yaml and text/template that the controller calls.
pub record BootstrapLibrary : Type 0 where
  -- DefaultUnstructuredConverter.FromUnstructured, into a Machine
  pub to_machine : ConfigOwner → Outcome Error OwnerMachine
  pub is_paused : Cluster → KThreesConfig → Bool
  -- util/conditions/deprecated/v1beta1, on the conditions of the config: of a type, and a reason
  pub get_reason : List Condition → String → String
  pub mark_true : List Condition → String → List Condition
  pub mark_false : List Condition → String → String → List Condition
  pub set_summary : List Condition → List String → List Condition
  pub endpoint_string : ApiEndpoint → String
  pub marshal_server : K3sServerConfig → Outcome Error String
  pub marshal_agent : K3sAgentConfig → Outcome Error String
  -- the template of the etcd proxy: of the image, and the registry
  pub render_etcd_proxy : String → String → Outcome Error String
  pub generate : Engine

pub record BootstrapSession : Type 0 where
  pub config : KThreesConfig
  pub requests : Requests

-- Code that returns an error, and code that returns a result and an error.
abbrev pub Action : Type 0 → Type 0
Action A = Exec BootstrapSession Error A

abbrev pub BootstrapHandler : Type 0 → Type 0
BootstrapHandler A = Exec BootstrapSession Return A

abbrev pub zoomed :
    {A : Type 0}
    → BootstrapSession
    → Outcome Error A × Requests
    → Outcome Error A × BootstrapSession
zoomed s (r, rs) = (r, record s { requests = rs })

-- Code that only makes requests, within a reconciliation.
abbrev pub zoom : {A : Type 0} → Io A → Action A
zoom m s = zoomed s (m s.requests)

abbrev pub data_secret_available_condition : String
data_secret_available_condition = "DataSecretAvailable"

abbrev pub certificates_available_condition : String
certificates_available_condition = "CertificatesAvailable"

abbrev pub waiting_for_cluster_infrastructure_reason : String
waiting_for_cluster_infrastructure_reason = "WaitingForClusterInfrastructure"

-- a constant of sigs.k8s.io/cluster-api
abbrev pub waiting_for_control_plane_available_reason : String
waiting_for_control_plane_available_reason = "WaitingForControlPlaneAvailable"

abbrev pub data_secret_generation_failed_reason : String
data_secret_generation_failed_reason = "DataSecretGenerationFailed"

abbrev pub certificates_generation_failed_reason : String
certificates_generation_failed_reason = "CertificatesGenerationFailed"

abbrev pub with_config : (KThreesConfig → KThreesConfig) → BootstrapSession → BootstrapSession
with_config f s = record s { config = f s.config }

abbrev pub with_conditions : (List Condition → List Condition) → BootstrapSession → BootstrapSession
with_conditions f s = record s { config = record s.config { conditions = f s.config.conditions } }

module _ (lib : BootstrapLibrary) where
  unfoldable pub mark_true : {E : Type 0} → String → Exec BootstrapSession E Unit
  mark_true type = modify (with_conditions (λ cs. lib.mark_true cs type))

  unfoldable pub mark_false : {E : Type 0} → String → String → Exec BootstrapSession E Unit
  mark_false type reason = modify (with_conditions (λ cs. lib.mark_false cs type reason))

-- The version of the machine, where the config has none.
unfoldable pub version_of : KThreesConfig → Option String → String
version_of config none = config.spec.version
version_of config (some v) = if config.spec.version == "" then v else config.spec.version

unfoldable pub reconcile_top_level_object_settings :
    {E : Type 0} → OwnerMachine → Exec BootstrapSession E Unit
unfolding version_of
reconcile_top_level_object_settings machine = modify (
    with_config λ config. record config {
      spec = record config.spec { version = version_of config machine.version };
    })

-- The BaseUserData of a config, its files and the k3s configuration file.
unfoldable pub user_data : KThreesConfig → List File → File → BaseUserData
user_data config files config_file = record {
  header = "";
  pre_k3s_commands = config.spec.pre_k3s_commands;
  post_k3s_commands = config.spec.post_k3s_commands;
  additional_files = files;
  write_files = [];
  config_file = config_file;
  k3s_version = config.spec.version;
  air_gapped = config.spec.agent_config.air_gapped;
  air_gapped_install_script_path = config.spec.agent_config.air_gapped_install_script_path;
  sentinel_file_command = "";
}

abbrev pub root_file : String → String → File
root_file path content = record {
  path = path;
  owner = "root:root";
  permissions = "0640";
  encoding = "";
  content = content;
  content_from = none;
}

abbrev pub default_k3s_config_location : String
default_k3s_config_location = "/etc/rancher/k3s/config.yaml"
