-- ===== src/K3sConfig.antt =====
-- pkg/k3s/config.go: the k3s configuration files that a machine boots with, from the
-- KThreesConfig's server and agent parts.
pub mod Ciphers
pub mod Laws
use cluster_api_k3s.Prelude.{
  String, Bool, true, false, Option, none, some, List, [], ◌∷◌, ◌++◌, ◌==◌, if◌then◌else◌,
}
use cluster_api_k3s.K3sConfig.Ciphers.{concat, get_tls_cipher_suite_arg}
use cluster_api_k3s.Api.{KThreesServerConfig, KThreesAgentConfig}

-- k3s.K3sAgentConfig
pub record K3sAgentConfig : Type 0 where
  pub token : String
  pub server : String
  pub kubelet_args : List String
  pub node_labels : List String
  pub node_taints : List String
  pub private_registry : String
  pub kube_proxy_args : List String
  pub node_name : String

-- k3s.K3sServerConfig; the embedded agent configuration is a field
pub record K3sServerConfig : Type 0 where
  pub disable_cloud_controller : Bool
  pub kube_api_server_args : List String
  pub kube_controller_manager_args : List String
  pub kube_scheduler_args : List String
  pub tls_san : List String
  pub bind_address : String
  pub https_listen_port : String
  pub advertise_address : String
  pub advertise_port : String
  pub cluster_cidr : String
  pub service_cidr : String
  pub cluster_dns : String
  pub cluster_domain : String
  pub disable_components : List String
  pub cluster_init : Bool
  pub system_default_registry : String
  pub agent : K3sAgentConfig

-- A nil or empty name of a cloud provider adds nothing.
unfoldable pub get_kubelet_extra_args : KThreesServerConfig → List String
get_kubelet_extra_args server = elim server.cloud_provider_name [
  | none ↦ []
  | some name ↦ if name == "" then [] else concat "cloud-provider=" name ∷ []
]

unfoldable pub get_disable_cloud_controller : KThreesServerConfig → Bool
get_disable_cloud_controller server = elim server.disable_cloud_controller [
  | none ↦ true
  | some b ↦ b
]

unfoldable pub generate_init_control_plane_config :
    String → String → KThreesServerConfig → KThreesAgentConfig → K3sServerConfig
generate_init_control_plane_config endpoint token server agent = record {
  disable_cloud_controller = get_disable_cloud_controller server;
  kube_api_server_args =
      server.kube_api_server_args ++ "anonymous-auth=true" ∷ get_tls_cipher_suite_arg ∷ [];
  kube_controller_manager_args =
      server.kube_controller_manager_args ++ get_kubelet_extra_args server;
  kube_scheduler_args = server.kube_scheduler_args;
  tls_san = server.tls_san ++ endpoint ∷ [];
  bind_address = server.bind_address;
  https_listen_port = server.https_listen_port;
  advertise_address = server.advertise_address;
  advertise_port = server.advertise_port;
  cluster_cidr = server.cluster_cidr;
  service_cidr = server.service_cidr;
  cluster_dns = server.cluster_dns;
  cluster_domain = server.cluster_domain;
  disable_components = server.disable_components;
  cluster_init = true;
  system_default_registry = server.system_default_registry;
  agent = record {
    token = token;
    server = "";
    kubelet_args = agent.kubelet_args ++ get_kubelet_extra_args server;
    node_labels = agent.node_labels;
    node_taints = agent.node_taints;
    private_registry = agent.private_registry;
    kube_proxy_args = agent.kube_proxy_args;
    node_name = agent.node_name;
  };
}

unfoldable pub generate_join_control_plane_config :
    String → String → String → KThreesServerConfig → KThreesAgentConfig → K3sServerConfig
generate_join_control_plane_config url token endpoint server agent = record {
  disable_cloud_controller = get_disable_cloud_controller server;
  kube_api_server_args =
      server.kube_api_server_args ++ "anonymous-auth=true" ∷ get_tls_cipher_suite_arg ∷ [];
  kube_controller_manager_args =
      server.kube_controller_manager_args ++ get_kubelet_extra_args server;
  kube_scheduler_args = server.kube_scheduler_args;
  tls_san = server.tls_san ++ endpoint ∷ [];
  bind_address = server.bind_address;
  https_listen_port = server.https_listen_port;
  advertise_address = server.advertise_address;
  advertise_port = server.advertise_port;
  cluster_cidr = server.cluster_cidr;
  service_cidr = server.service_cidr;
  cluster_dns = server.cluster_dns;
  cluster_domain = server.cluster_domain;
  disable_components = server.disable_components;
  cluster_init = false;
  system_default_registry = server.system_default_registry;
  agent = record {
    token = token;
    server = url;
    kubelet_args = agent.kubelet_args ++ get_kubelet_extra_args server;
    node_labels = agent.node_labels;
    node_taints = agent.node_taints;
    private_registry = agent.private_registry;
    kube_proxy_args = agent.kube_proxy_args;
    node_name = agent.node_name;
  };
}

unfoldable pub generate_worker_config :
    String → String → KThreesServerConfig → KThreesAgentConfig → K3sAgentConfig
generate_worker_config url token server agent = record {
  token = token;
  server = url;
  kubelet_args = agent.kubelet_args ++ get_kubelet_extra_args server;
  node_labels = agent.node_labels;
  node_taints = agent.node_taints;
  private_registry = agent.private_registry;
  kube_proxy_args = agent.kube_proxy_args;
  node_name = agent.node_name;
}
