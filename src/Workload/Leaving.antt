-- ===== src/Workload/Leaving.antt =====
-- pkg/k3s/workload_cluster_etcd.go: what a machine that is about to leave does with its etcd member
-- (RemoveEtcdMemberForMachine), with the leadership (ForwardEtcdLeadership), and the members as nodes.
pub mod Quiet
pub mod Patches
use cluster_api_k3s.Prelude.{
  String, Bool, true, false, Option, none, some, List, [], Dict, put, map, is_some, not, ltb,
  length, eqb, if◌then◌else◌, ◌==◌,
}
use cluster_api_k3s.Prelude.Exec.{Exec, pure, stop, ◌>>=◌, ◌>>◌}
use cluster_api_k3s.Api.{
  Error, nil_map_write, control_plane_min_nodes, other, Machine, Node, Member, EtcdClient, Client,
  Session, new_node_patch_helper, patch_node, move_leader, perform,
}
use cluster_api_k3s.Etcd.{node_name_from_member, member_for_name}
use cluster_api_k3s.Workload.{
  etcd_remove_annotation, etcd_removed_node_annotation, annotation, find_last, dial_for_leader,
  members, get_control_plane_nodes,
}

-- `var removingNode corev1.Node`, then the loop that overwrites it
abbrev found_node : Option Node → Node
found_node none = record {
  name = "";
  labels = [];
  annotations = none;
  taints = [];
  conditions = [];
}
found_node (some n) = n

module _ (client : Client) where
  -- `annotations["etcd.k3s.cattle.io/remove"] = "true"`: a write to a nil map panics.
  mark_for_removal : Node → Option (Dict String) → Exec Session Error Bool
  unfolding perform
  mark_for_removal n none = do
    perform (new_node_patch_helper n.name) (λ t. client.new_node_patch_helper t n)
    stop nil_map_write
  mark_for_removal n (some d) =
      let marked = record n { annotations = some (put etcd_remove_annotation "true" d) } in
      do
        perform (new_node_patch_helper n.name) (λ t. client.new_node_patch_helper t n)
        perform (patch_node marked) (λ t. client.patch_node t marked)
        pure false

  unfoldable pub remove_member_for_node : String → Exec Session Error Bool
  unfolding get_control_plane_nodes mark_for_removal
  remove_member_for_node name = do
    nodes ← get_control_plane_nodes client
    if ltb (length nodes) 2
        then stop control_plane_min_nodes
        else let n = found_node (find_last (λ (n : Node). n.name == name) nodes) in
          if not (n.name == name)
          then pure true
          else if is_some (annotation etcd_removed_node_annotation n.annotations)
          then pure true
          else mark_for_removal n n.annotations

  remove_member_on : Option String → Exec Session Error Bool
  unfolding remove_member_for_node
  remove_member_on none = pure true
  remove_member_on (some node) = remove_member_for_node node

  unfoldable pub remove_etcd_member_for_machine : Machine → Exec Session Error Bool
  unfolding remove_member_on
  remove_etcd_member_for_machine m = remove_member_on m.node_ref

  node_names : Exec Session Error (List String)
  unfolding get_control_plane_nodes
  node_names = do nodes ← get_control_plane_nodes client; pure (map (λ n. n.name) nodes)

  move_to : EtcdClient → Option Member → Exec Session Error Unit
  unfolding perform
  move_to etcd none = stop (other "failed to get etcd member from node")
  move_to etcd (some next) =
      perform (move_leader etcd.endpoint next.id) (λ t. client.move_leader t etcd next.id)

  -- The leadership moves only if the machine's member holds it.
  forward_from : EtcdClient → Option Member → List Member → String → Exec Session Error Unit
  unfolding move_to
  forward_from etcd none ms candidate = pure tt
  forward_from etcd (some current) ms candidate =
      if eqb current.id etcd.leader_id then move_to etcd (member_for_name ms candidate) else pure tt

  forward : String → String → Exec Session Error Unit
  unfolding node_names dial_for_leader members forward_from
  forward node candidate = do
    names ← node_names
    etcd ← dial_for_leader client names
    ms ← members client etcd
    forward_from etcd (member_for_name ms node) ms candidate

  -- The node of the candidate, if there is a candidate and it has one.
  forward_to_candidate : String → Option Machine → Exec Session Error Unit
  unfolding forward
  forward_to_candidate node none = stop (other "leader candidate cannot be nil")
  forward_to_candidate node (some candidate) = elim candidate.node_ref [
    | none ↦ stop (other "leader has no node reference")
    | some c ↦ forward node c
  ]

  forward_on : Option String → Option Machine → Exec Session Error Unit
  unfolding forward_to_candidate
  forward_on none candidate = pure tt
  forward_on (some node) candidate = forward_to_candidate node candidate

  unfoldable pub forward_etcd_leadership : Machine → Option Machine → Exec Session Error Unit
  unfolding forward_on
  forward_etcd_leadership m candidate = forward_on m.node_ref candidate

  unfoldable pub etcd_members : Exec Session Error (List String)
  unfolding node_names dial_for_leader members
  etcd_members = do
    names ← node_names
    etcd ← dial_for_leader client names
    ms ← members client etcd
    pure (map node_name_from_member ms)
