-- ===== src/Workload/Leaving/Patches.antt =====
-- RemoveEtcdMemberForMachine patches a node, and no machine.
use cluster_api_k3s.Prelude.{String, Option, none, some, Dict}
use cluster_api_k3s.Prelude.Exec.Keeps.{Keeps, keeps_rules}
use cluster_api_k3s.Api.{Machine, Node, Client}
use cluster_api_k3s.Controllers.Deletions.{patched}
use cluster_api_k3s.Workload.{get_control_plane_nodes}
use cluster_api_k3s.Workload.Leaving.{
  mark_for_removal, remove_member_for_node, remove_member_on, remove_etcd_member_for_machine,
}

module _ (client : Client) where
  get_control_plane_nodes-Keeps : Keeps patched (get_control_plane_nodes client)
  unfolding get_control_plane_nodes
  get_control_plane_nodes-Keeps = search keeps_rules

  mark_for_removal-Keeps :
      (n : Node) (d : Option (Dict String)) → Keeps patched (mark_for_removal client n d)
  unfolding mark_for_removal
  mark_for_removal-Keeps n none = search keeps_rules
  mark_for_removal-Keeps n (some d) = search keeps_rules

  remove_member_for_node-Keeps :
      (name : String) → Keeps patched (remove_member_for_node client name)
  unfolding remove_member_for_node
  remove_member_for_node-Keeps name =
      search (keeps_rules, get_control_plane_nodes-Keeps, mark_for_removal-Keeps) depth 8

  remove_member_on-Keeps : (r : Option String) → Keeps patched (remove_member_on client r)
  unfolding remove_member_on
  remove_member_on-Keeps none = search keeps_rules
  remove_member_on-Keeps (some node) = remove_member_for_node-Keeps node

  pub remove_etcd_member_for_machine-Keeps :
      (m : Machine) → Keeps patched (remove_etcd_member_for_machine client m)
  unfolding remove_etcd_member_for_machine
  remove_etcd_member_for_machine-Keeps m = remove_member_on-Keeps m.node_ref
