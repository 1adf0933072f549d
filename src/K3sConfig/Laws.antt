-- ===== src/K3sConfig/Laws.antt =====
-- What a first server, a joining server and a worker have in common, and what they do not.
use cluster_api_k3s.Prelude.{String, true, false, ◌≡◌, refl}
use cluster_api_k3s.Api.{KThreesServerConfig, KThreesAgentConfig}
use cluster_api_k3s.K3sConfig.{
  generate_init_control_plane_config, generate_join_control_plane_config, generate_worker_config,
}

-- A server that joins is configured as the first server is, but for two settings: it does not
-- initialise a cluster, and it has the address of a server to join, which the first one has not.
pub generate_join_control_plane_config-init :
    (url token endpoint : String) (server : KThreesServerConfig) (agent : KThreesAgentConfig)
    → (let first = generate_init_control_plane_config endpoint token server agent in
        (first.cluster_init ≡ true)
        × (first.agent.server ≡ "")
        × (generate_join_control_plane_config url token endpoint server agent
            ≡ record first { cluster_init = false; agent = record first.agent { server = url } }))
unfolding generate_init_control_plane_config generate_join_control_plane_config
generate_join_control_plane_config-init url token endpoint server agent = (refl, refl, refl)

-- A worker is configured as the agent that runs on a server that joins at the same address.
pub generate_worker_config-join :
    (url token endpoint : String) (server : KThreesServerConfig) (agent : KThreesAgentConfig)
    → generate_worker_config url token server agent
      ≡ (generate_join_control_plane_config url token endpoint server agent).agent
unfolding generate_worker_config generate_join_control_plane_config
generate_worker_config-join url token endpoint server agent = refl
