-- ===== src/Workload/Conditions/Cluster.antt =====
-- pkg/k3s/workload_cluster.go: ClusterStatus.
use cluster_api_k3s.Prelude.{ℕ, Bool, true, false, keep, length}
use cluster_api_k3s.Prelude.Exec.{Exec, Outcome, ok, err, pure, attempt, ◌>>=◌}
use cluster_api_k3s.Api.{Error, Node, Capi, Client, Session, get_serving_secret, perform}
use cluster_api_k3s.Workload.{get_control_plane_nodes}

-- The two numbers are int32 in the source, far above any number of nodes.
pub record ClusterStatus : Type 0 where
  pub nodes : ℕ
  pub ready_nodes : ℕ
  pub has_k3s_serving_secret : Bool

abbrev is_ok : Outcome Error Unit → Bool
is_ok (ok _) = true
is_ok (err e) = false

module _ (capi : Capi) (client : Client) where
  -- Any error of the second call is read as: the control plane is not initialised yet.
  unfoldable pub cluster_status : Exec Session Error ClusterStatus
  unfolding get_control_plane_nodes perform
  cluster_status = do
    nodes ← get_control_plane_nodes client
    secret ← attempt (perform get_serving_secret client.get_serving_secret)
    pure (record {
      nodes = length nodes;
      ready_nodes = length (keep (λ (n : Node). capi.is_node_ready n.conditions) nodes);
      has_k3s_serving_secret = is_ok secret;
    })
