-- ===== src/Workload/Conditions/Agent.antt =====
-- pkg/k3s/workload_cluster.go: UpdateAgentConditions.
pub mod Stale
use cluster_api_k3s.Prelude.{
  Bool, false, Option, none, some, List, [], ◌∷◌, ◌++◌, any, not, if◌then◌else◌, ◌==◌, ◌&&◌,
}
use cluster_api_k3s.Prelude.Exec.{
  Exec, Outcome, ok, err, pure, stop, gets, modify, catch, attempt, ◌>>=◌, ◌>>◌,
}
use cluster_api_k3s.Api.{
  Error, not_found, condition_true, condition_false, condition_unknown, Condition, Taint, Machine,
  Node, Capi, Client, Session, get_node, query, machine_agent_healthy_condition,
  control_plane_components_healthy_condition,
}
use cluster_api_k3s.Workload.{get_control_plane_nodes}
use cluster_api_k3s.Workload.Conditions.{
  KcpError, Body, run_body, machine_on_node, unmatched, has_status, set, mark_kcp,
  aggregate_from_machines_to_kcp,
}

unfoldable pub node_has_unreachable_taint : Node → Bool
node_has_unreachable_taint n =
    any (λ (t : Taint). t.key == "node.kubernetes.io/unreachable" && t.effect == "NoExecute")
      n.taints

-- A machine whose node is not in the list.
unfoldable pub lacks_node : List Node → Machine → Bool
lacks_node nodes m = elim m.node_ref [
  | none ↦ false
  | some name ↦ not (any (λ (n : Node). name == n.name) nodes)
]

abbrev pub is_ready : Condition → Bool
is_ready c = c.type == "Ready" && has_status condition_true (some c)

module _ (capi : Capi) (client : Client) where
  -- The loop over the node's conditions; nothing is set where Ready is not True.
  unfoldable pub ready : Machine → List Condition → Body Unit
  unfolding set
  ready m [] = pure tt
  ready m (c ∷ cs) = do
    if is_ready c
        then set capi m machine_agent_healthy_condition condition_true "NodeReady"
        else pure tt
    ready m cs

  -- A node that cannot be read ends the whole update.
  unfoldable pub inspected : Machine → Outcome Error Node → Body Unit
  unfolding ready set
  inspected m (ok target) = ready m target.conditions
  inspected m (err not_found) = do
    set capi m machine_agent_healthy_condition condition_false "PodMissing"
    stop tt
  inspected m (err e) = do
    set capi m machine_agent_healthy_condition condition_unknown "PodInspectionFailed"
    stop tt

  unfoldable pub inspect : Machine → Node → Body Unit
  unfolding set inspected query
  inspect m n =
      if m.deleting
      then set capi m machine_agent_healthy_condition condition_false "Deleting"
      else if node_has_unreachable_taint n
      then set capi m machine_agent_healthy_condition condition_unknown "PodInspectionFailed"
      else do
        target ← attempt (query (get_node n.name) (λ t. client.get_node t n.name))
        inspected m target

  unfoldable pub inspect_matched : Node → Option Machine → Body (List KcpError)
  unfolding inspect
  inspect_matched n none = gets (λ s. unmatched n.name s.plane.machines)
  inspect_matched n (some m) = do inspect m n; pure []

  unfoldable pub inspect_nodes : List Node → Body (List KcpError)
  unfolding inspect_matched
  inspect_nodes [] = pure []
  inspect_nodes (n ∷ ns) = do
    machine ← gets (λ s. machine_on_node n.name s.plane.machines)
    errs ← inspect_matched n machine
    rest ← inspect_nodes ns
    pure (errs ++ rest)

  unfoldable pub report_missing : List Node → List Machine → Body Unit
  unfolding set
  report_missing nodes [] = pure tt
  report_missing nodes (m ∷ ms) = do
    if lacks_node nodes m
        then set capi m machine_agent_healthy_condition condition_false "PodFailed"
        else pure tt
    report_missing nodes ms

  unfoldable pub set_all_unknown : List Machine → Body Unit
  unfolding set
  set_all_unknown [] = pure tt
  set_all_unknown (m ∷ ms) = do
    set capi m machine_agent_healthy_condition condition_unknown "PodInspectionFailed"
    set_all_unknown ms

  unfoldable pub agent_nodes_unknown : Error → Body (List Node)
  unfolding set_all_unknown mark_kcp
  agent_nodes_unknown e = do
    machines ← gets (λ s. s.plane.machines)
    set_all_unknown machines
    modify (
        mark_kcp capi control_plane_components_healthy_condition condition_unknown
          "ControlPlaneComponentsInspectionFailed")
    stop tt

  unfoldable pub update_agent_conditions : Exec Session Error Unit
  unfolding get_control_plane_nodes agent_nodes_unknown inspect_nodes report_missing
      aggregate_from_machines_to_kcp
  update_agent_conditions = run_body (do
    nodes ← catch (get_control_plane_nodes client) agent_nodes_unknown
    errs ← inspect_nodes nodes
    machines ← gets (λ s. s.plane.machines)
    report_missing nodes machines
    aggregate_from_machines_to_kcp capi machine_agent_healthy_condition
        control_plane_components_healthy_condition "ControlPlaneComponentsUnhealthy"
        "ControlPlaneComponentsUnknown" errs)
