-- ===== src/Workload.antt =====
-- pkg/k3s/workload_cluster.go and workload_cluster_etcd.go: the operations on a workload cluster.
-- A method of `Workload` is an action on the session; a call of an interface outside the package
-- asks the client. `GetWorkloadCluster` is a call of its own, made by the callers.

pub mod Leaving
pub mod Conditions
pub mod Quiet
pub mod Spared
use cluster_api_k3s.Prelude.{
  ℕ, String, Bool, true, false, Option, none, some, List, [], ◌∷◌, ◌++◌, Dict, lookup, put, any,
  keep, map, is_some, not, ltb, length, if◌then◌else◌, ◌==◌, ◌||◌,
}
use cluster_api_k3s.Prelude.Exec.{Exec, Outcome, ok, err, pure, stop, attempt, ◌>>=◌, ◌>>◌}
use cluster_api_k3s.Api.{
  Error, nil_map_write, control_plane_min_nodes, other, Machine, Node, Member, EtcdClient, Client,
  Session, Call, new_patch_helper, list_nodes, patch_node, dial_first_available, dial_leader,
  list_members, move_leader, remove_member, perform, query,
}
use cluster_api_k3s.Etcd.{node_name_from_member, member_for_name}

abbrev pub label_node_role_master : String
label_node_role_master = "node-role.kubernetes.io/master"

abbrev pub label_node_role_control_plane : String
label_node_role_control_plane = "node-role.kubernetes.io/control-plane"

abbrev pub etcd_remove_annotation : String
etcd_remove_annotation = "etcd.k3s.cattle.io/remove"

abbrev pub etcd_removed_node_annotation : String
etcd_removed_node_annotation = "etcd.k3s.cattle.io/removed-node-name"

-- A nil map of labels has no labels.
unfoldable pub has_control_plane_role_label : Dict String → Bool
has_control_plane_role_label labels =
    is_some (lookup label_node_role_master labels)
    || is_some (lookup label_node_role_control_plane labels)

-- `NodeRef.IsDefined() && NodeRef.Name == name`
abbrev pub is_on_node : Option String → String → Bool
is_on_node none name = false
is_on_node (some node) name = node == name

-- Reading a nil map finds nothing.
abbrev pub annotation : String → Option (Dict String) → Option String
annotation k none = none
annotation k (some d) = lookup k d

abbrev pub find_last {ℓ} : {A : Type ℓ} → (A → Bool) → List A → Option A
find_last p [] = none
find_last p (n ∷ ns) = elim (find_last p ns) [
  | some m ↦ some m
  | none ↦ if p n then some n else none
]

module _ (client : Client) where
  -- The client's calls, each recorded with what it is about.
  unfoldable pub dial_first : List String → Exec Session Error EtcdClient
  unfolding query
  dial_first names =
      query (dial_first_available names) (λ t. client.for_first_available_node t names)

  unfoldable pub dial_for_leader : List String → Exec Session Error EtcdClient
  unfolding query
  dial_for_leader names = query (dial_leader names) (λ t. client.for_leader t names)

  unfoldable pub members : EtcdClient → Exec Session Error (List Member)
  unfolding query
  members etcd = query (list_members etcd.endpoint) (λ t. client.members t etcd)

  unfoldable pub get_control_plane_nodes : Exec Session Error (List Node)
  unfolding query has_control_plane_role_label
  get_control_plane_nodes = do
    nodes ← query list_nodes client.list_nodes
    pure (keep (λ n. has_control_plane_role_label n.labels) nodes)

  -- The member that is found by name is removed by its id.
  unfoldable pub remove_found : EtcdClient → Option Member → Exec Session Error Unit
  unfolding perform
  remove_found etcd none = pure tt
  remove_found etcd (some m) =
      perform (remove_member etcd.endpoint m.id) (λ t. client.remove_member t etcd m.id)

  unfoldable pub remove_member_for_non_existing_node : String → Exec Session Error Unit
  unfolding get_control_plane_nodes dial_first members remove_found
  remove_member_for_non_existing_node name = do
    nodes ← get_control_plane_nodes
    if ltb (length nodes) 2 then stop control_plane_min_nodes else do
      etcd ← dial_first (map (λ n. n.name) (keep (λ (n : Node). not (n.name == name)) nodes))
      ms ← members etcd
      remove_found etcd (member_for_name ms name)

  -- The loop over the members: the names of those that are removed, and the errors of the removals.
  unfoldable pub remove_unmatched :
      List String → List Member → Exec Session Error (List String × List Error)
  unfolding remove_member_for_non_existing_node
  remove_unmatched node_names [] = pure ([], [])
  remove_unmatched node_names (m ∷ ms) =
      let name = node_name_from_member m in
      let rest = remove_unmatched node_names ms in
      if name == "" || any (λ n. name == n) node_names then rest else do
        removal ← attempt (remove_member_for_non_existing_node name)
        (names, errs) ← rest
        pure (name ∷ names, elim removal [ ok _ ↦ errs | err e ↦ e ∷ errs ])

  unfoldable pub listed_members :
      List String → Outcome Error (List Member) → Exec Session Error (List String × List Error)
  unfolding remove_unmatched
  listed_members node_names (ok ms) = remove_unmatched node_names ms
  listed_members node_names (err e) = pure ([], [])

  unfoldable pub reconcile_etcd_member :
      List String → String → Exec Session Error (List String × List Error)
  unfolding dial_first members listed_members
  reconcile_etcd_member node_names node_name = do
    listed ← attempt (do etcd ← dial_first (node_name ∷ []); members etcd)
    listed_members node_names listed

  -- The loop of ReconcileEtcdMembers over the nodes that are left to ask.
  unfoldable pub reconcile_each :
      List String → List String → Exec Session Error (List String × List Error)
  unfolding reconcile_etcd_member
  reconcile_each node_names [] = pure ([], [])
  reconcile_each node_names (node_name ∷ left) = do
    (removed, errs) ← reconcile_etcd_member node_names node_name
    (all_removed, all_errs) ← reconcile_each node_names left
    pure (removed ++ all_removed, errs ++ all_errs)

  -- The names of the members removed, and the errors; the aggregated error is nil if there are none.
  unfoldable pub reconcile_etcd_members :
      List String → Exec Session Error (List String × List Error)
  unfolding reconcile_each
  reconcile_etcd_members node_names = reconcile_each node_names node_names
