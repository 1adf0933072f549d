-- ===== src/Workload/Quiet.antt =====
-- The reconciliation of etcd's members deletes no machine.
use cluster_api_k3s.Prelude.{String, Option, none, some, List, [], ◌∷◌, refl}
use cluster_api_k3s.Prelude.Exec.{Outcome, ok, err}
use cluster_api_k3s.Prelude.Exec.Keeps.{Keeps, keeps_rules}
use cluster_api_k3s.Api.{Error, Member, EtcdClient, Client}
use cluster_api_k3s.Controllers.Deletions.{deleted}
use cluster_api_k3s.Workload.{
  dial_first, members, remove_found, remove_member_for_non_existing_node, remove_unmatched,
  listed_members, reconcile_etcd_member, reconcile_each, reconcile_etcd_members,
}
use cluster_api_k3s.Workload.Leaving.Quiet.{get_control_plane_nodes-Keeps}

module _ (client : Client) where
  dial_first-Keeps : (names : List String) → Keeps deleted (dial_first client names)
  unfolding dial_first
  dial_first-Keeps names = record { at = λ s. refl }

  members-Keeps : (etcd : EtcdClient) → Keeps deleted (members client etcd)
  unfolding members
  members-Keeps etcd = record { at = λ s. refl }

  remove_found-Keeps :
      (etcd : EtcdClient) (m : Option Member) → Keeps deleted (remove_found client etcd m)
  unfolding remove_found
  remove_found-Keeps etcd none = search keeps_rules
  remove_found-Keeps etcd (some m) = record { at = λ s. refl }

  remove_member-Keeps :
      (name : String) → Keeps deleted (remove_member_for_non_existing_node client name)
  unfolding remove_member_for_non_existing_node
  remove_member-Keeps name =
      search
        (
          keeps_rules, get_control_plane_nodes-Keeps, dial_first-Keeps, members-Keeps,
          remove_found-Keeps,
        )
        depth 8

  remove_unmatched-Keeps :
      (names : List String) (ms : List Member) → Keeps deleted (remove_unmatched client names ms)
  unfolding remove_unmatched
  remove_unmatched-Keeps names [] = search keeps_rules
  remove_unmatched-Keeps names (m ∷ ms) =
      let rest = remove_unmatched-Keeps names ms in
      search (keeps_rules, remove_member-Keeps) depth 8

  listed_members-Keeps :
      (names : List String) (o : Outcome Error (List Member))
      → Keeps deleted (listed_members client names o)
  unfolding listed_members
  listed_members-Keeps names (ok ms) = remove_unmatched-Keeps names ms
  listed_members-Keeps names (err e) = search keeps_rules

  reconcile_etcd_member-Keeps :
      (names : List String) (name : String)
      → Keeps deleted (reconcile_etcd_member client names name)
  unfolding reconcile_etcd_member
  reconcile_etcd_member-Keeps names name =
      search (keeps_rules, dial_first-Keeps, members-Keeps, listed_members-Keeps) depth 8

  reconcile_each-Keeps :
      (names left : List String) → Keeps deleted (reconcile_each client names left)
  unfolding reconcile_each
  reconcile_each-Keeps names [] = search keeps_rules
  reconcile_each-Keeps names (name ∷ left) =
      let rest = reconcile_each-Keeps names left in
      search (keeps_rules, reconcile_etcd_member-Keeps) depth 8

  pub reconcile_etcd_members-Keeps :
      (names : List String) → Keeps deleted (reconcile_etcd_members client names)
  unfolding reconcile_etcd_members
  reconcile_etcd_members-Keeps names = reconcile_each-Keeps names names
