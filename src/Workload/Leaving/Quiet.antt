-- ===== src/Workload/Leaving/Quiet.antt =====
-- The operations of workload_cluster_etcd.go on a leaving machine delete no machine.
use cluster_api_k3s.Prelude.{String, Option, none, some, List, ◌≡◌, refl}
use cluster_api_k3s.Prelude.Exec.Keeps.{Keeps, keeps_rules}
use cluster_api_k3s.Api.{Machine, Member, EtcdClient, Client}
use cluster_api_k3s.Controllers.Deletions.{deleted}
use cluster_api_k3s.Workload.{dial_for_leader, members, get_control_plane_nodes}
use cluster_api_k3s.Workload.Leaving.{
  etcd_members, move_to, forward_from, forward, forward_to_candidate, forward_on,
  forward_etcd_leadership, node_names,
}

module _ (client : Client) where
  pub get_control_plane_nodes-Keeps : Keeps deleted (get_control_plane_nodes client)
  unfolding get_control_plane_nodes
  get_control_plane_nodes-Keeps = search keeps_rules

  dial_for_leader-Keeps : (names : List String) → Keeps deleted (dial_for_leader client names)
  unfolding dial_for_leader
  dial_for_leader-Keeps names = record { at = λ s. refl }

  members-Keeps : (etcd : EtcdClient) → Keeps deleted (members client etcd)
  unfolding members
  members-Keeps etcd = record { at = λ s. refl }

  node_names-Keeps : Keeps deleted (node_names client)
  unfolding node_names
  node_names-Keeps = search (keeps_rules, get_control_plane_nodes-Keeps)

  pub etcd_members-Keeps : Keeps deleted (etcd_members client)
  unfolding etcd_members
  etcd_members-Keeps = search (keeps_rules, node_names-Keeps, dial_for_leader-Keeps, members-Keeps)

  move_to-Keeps : (etcd : EtcdClient) (m : Option Member) → Keeps deleted (move_to client etcd m)
  unfolding move_to
  move_to-Keeps etcd none = search keeps_rules
  move_to-Keeps etcd (some m) = record { at = λ s. refl }

  forward_from-Keeps :
      (etcd : EtcdClient) (m : Option Member) (ms : List Member) (c : String)
      → Keeps deleted (forward_from client etcd m ms c)
  unfolding forward_from
  forward_from-Keeps etcd none ms c = search keeps_rules
  forward_from-Keeps etcd (some m) ms c = search (keeps_rules, move_to-Keeps)

  forward-Keeps : (node c : String) → Keeps deleted (forward client node c)
  unfolding forward
  forward-Keeps node c =
      search
        (keeps_rules, node_names-Keeps, dial_for_leader-Keeps, members-Keeps, forward_from-Keeps)

  to_node-Keeps :
      (node : String) (m : Machine) (r : Option String)
      → m.node_ref ≡ r
      → Keeps deleted (forward_to_candidate client node (some m))
  unfolding forward_to_candidate
  to_node-Keeps node m none e = rw e (search keeps_rules)
  to_node-Keeps node m (some c) e = rw e (forward-Keeps node c)

  forward_to_candidate-Keeps :
      (node : String) (m : Option Machine) → Keeps deleted (forward_to_candidate client node m)
  unfolding forward_to_candidate
  forward_to_candidate-Keeps node none = search keeps_rules
  forward_to_candidate-Keeps node (some m) = to_node-Keeps node m m.node_ref refl

  forward_on-Keeps :
      (r : Option String) (m : Option Machine) → Keeps deleted (forward_on client r m)
  unfolding forward_on
  forward_on-Keeps none m = search keeps_rules
  forward_on-Keeps (some node) m = forward_to_candidate-Keeps node m

  pub forward_etcd_leadership-Keeps :
      (m : Machine) (c : Option Machine) → Keeps deleted (forward_etcd_leadership client m c)
  unfolding forward_etcd_leadership
  forward_etcd_leadership-Keeps m c = forward_on-Keeps m.node_ref c
