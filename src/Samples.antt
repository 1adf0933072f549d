-- ===== src/Samples.antt =====
-- A control plane of three machines, one of which is unhealthy, with servers that answer well, and
-- plain functions in the place of the libraries. The children run the theorems on them.
pub mod Library
pub mod Remediating
pub mod Reporting
pub mod Retrying
pub mod Scaling
pub mod Releasing
pub mod Names
pub mod Locking
pub mod Watching
pub mod Reconciling
pub mod Management
pub mod Secrets
pub mod Bootstrapping
use cluster_api_k3s.Prelude.{
  ℕ, String, Bool, true, false, Option, none, some, List, [], ◌∷◌, not, ◌==◌, if◌then◌else◌,
}
use cluster_api_k3s.Prelude.Int.{ℤ, pos}
use cluster_api_k3s.Prelude.Exec.{Outcome, ok, err}
use cluster_api_k3s.Controllers.{current}
use cluster_api_k3s.Api.{
  not_found, condition_true, condition_false, Condition, Machine, Ref, Cluster, KThreesServerConfig,
  KThreesAgentConfig, KThreesConfigSpec, KThreesControlPlaneMachineTemplate, KThreesControlPlane,
  Node, Member, EtcdClient, Client, ControlPlane, Session,
}

abbrev pub condition : String → Bool → Condition
condition type good = record {
  type = type;
  status = if good then condition_true else condition_false;
  reason = "";
}

-- A machine on the node of its name.
abbrev pub machine : String → Bool → Machine
machine name healthy = record {
  name = name;
  namespace = "default";
  uid = name;
  labels = [];
  annotations = some [];
  owners = [];
  deleting = false;
  cluster_name = "c";
  version = "v1.30.2+k3s2";
  failure_domain = "";
  infrastructure_ref = none;
  config_ref = none;
  node_drain_timeout_seconds = none;
  node_volume_detach_timeout_seconds = none;
  node_deletion_timeout_seconds = none;
  node_ref = some name;
  conditions =
      condition "AgentHealthy" healthy
      ∷ condition "EtcdMemberHealthy" healthy
      ∷ condition "PreTerminateDeleteHookSucceeded" false
      ∷ [];
}

abbrev pub one : Machine
one = machine "m1" false

abbrev pub two : Machine
two = machine "m2" true

abbrev pub three : Machine
three = machine "m3" true

abbrev pub cluster : Cluster
cluster = record {
  name = "c";
  namespace = "default";
  uid = "c";
  deleting = false;
  failure_domains = [];
  control_plane_ref = none;
  control_plane_endpoint = record { host = "10.0.0.1"; port = 6443 };
  infrastructure_provisioned = some true;
  control_plane_initialized = some true;
}

abbrev pub server_config : KThreesServerConfig
server_config = record {
  kube_api_server_args = [];
  kube_controller_manager_args = [];
  kube_scheduler_args = [];
  tls_san = [];
  bind_address = "";
  https_listen_port = "";
  advertise_address = "";
  advertise_port = "";
  cluster_cidr = "";
  service_cidr = "";
  cluster_dns = "";
  cluster_domain = "";
  disable_components = "servicelb" ∷ [];
  disable_cloud_controller = none;
  deprecated_disable_external_cloud_provider = false;
  cloud_provider_name = some "external";
  system_default_registry = "";
  etcd_proxy_image = "";
}

abbrev pub agent_config : KThreesAgentConfig
agent_config = record {
  node_labels = [];
  node_taints = [];
  private_registry = "";
  kubelet_args = [];
  kube_proxy_args = [];
  node_name = "";
  air_gapped = false;
  air_gapped_install_script_path = "";
}

abbrev pub config_spec : KThreesConfigSpec
config_spec = record {
  files = [];
  pre_k3s_commands = [];
  post_k3s_commands = [];
  version = "v1.30.2+k3s2";
  server_config = server_config;
  agent_config = agent_config;
}

abbrev pub template : KThreesControlPlaneMachineTemplate
template = record {
  labels = [];
  annotations = [];
  infrastructure_ref = record { api_group = "infra"; kind = "Template"; name = "t" };
  node_drain_timeout = none;
  node_volume_detach_timeout = none;
  node_deletion_timeout = none;
}

abbrev pub kcp : KThreesControlPlane
kcp = record {
  name = "cp";
  namespace = "default";
  uid = "cp";
  annotations = [];
  finalizers = "kthrees.controlplane.cluster.x-k8s.io" ∷ [];
  deleting = false;
  replicas = some 3;
  version = "v1.30.2+k3s2";
  kthrees_config_spec = config_spec;
  rollout_after = none;
  machine_template = template;
  remediation_strategy = none;
  initialized = true;
  conditions = [];
}

abbrev pub with_machines : List Machine → Session
with_machines machines = record {
  plane = record {
    kcp = kcp;
    cluster = cluster;
    machines = machines;
    has_etcd_ca = true;
    reconciliation_time = pos 0;
    infra_resources = [];
    kthrees_configs = [];
  };
  trace = [];
}

abbrev pub node : String → Node
node name = record {
  name = name;
  labels = ("node-role.kubernetes.io/master", "true") ∷ [];
  annotations = some [];
  taints = [];
  conditions = condition "Ready" true ∷ [];
}

abbrev pub member : ℕ → String → Member
member id name = record { id = id; name = name; cluster_id = 1; alarms = [] }

-- No call fails; the machine that is fetched is the given one.
abbrev pub client : Machine → Client
client m = record {
  new_patch_helper = λ t x. none;
  patch_machine = λ t x. none;
  delete_machine = λ t x. none;
  ssa_patch_machine = λ t x. none;
  owned_machines = λ t. ok [];
  all_machines = λ t. ok (one ∷ two ∷ three ∷ []);
  get_infrastructure = λ t x. err not_found;
  get_config = λ t x. err not_found;
  get_etcd_secret = λ t. none;
  now = λ t. pos 0;
  active_control_plane_machines = λ t. ok (two ∷ three ∷ []);
  get_machine = λ t x. ok m;
  get_workload_cluster = λ t. none;
  get_cluster = λ t x. ok cluster;
  get_control_plane_object = λ t x. ok false;
  create_from_template = λ t x. ok (record { api_group = "infra"; kind = "Machine"; name = "i" });
  create_kthrees_config = λ t x. none;
  get_object = λ t x. none;
  delete_object = λ t x. none;
  list_nodes = λ t. ok (node "m1" ∷ node "m2" ∷ node "m3" ∷ []);
  get_node = λ t x. ok (node x);
  get_serving_secret = λ t. none;
  new_node_patch_helper = λ t x. none;
  patch_node = λ t x. none;
  for_first_available_node = λ t x. ok (record { endpoint = "m2"; leader_id = 1; errors = [] });
  for_leader = λ t x. ok (record { endpoint = "m1"; leader_id = 1; errors = [] });
  members = λ t x. ok (member 1 "m1-1a2b" ∷ member 2 "m2-3c4d" ∷ member 3 "m3-5e6f" ∷ []);
  move_leader = λ t x id. none;
  remove_member = λ t x id. none;
  get_template = λ t x. ok [];
  new_template_patch_helper = λ t x. none;
  patch_template = λ t x refs. none;
  control_plane_machines = λ t. ok (one ∷ two ∷ three ∷ []);
  clean_up_managed_fields = λ t x. none;
  drop_managed_fields = λ t x. none;
  apply_machine = λ t x. ok (current x (one ∷ two ∷ three ∷ []));
  get_api_version = λ t x. none;
  apply_external = λ t x labels annotations. none;
}
