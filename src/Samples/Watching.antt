-- ===== src/Samples/Watching.antt =====
-- Runs of the theorems on conditions: three machines, the first of which was recorded unhealthy.
use cluster_api_k3s.Prelude.{some, List, [], ◌∷◌, false, lookup, ◌≡◌, refl}
use cluster_api_k3s.Api.{
  Client, Member, Node, Session, condition_true, machine_etcd_member_healthy_condition,
}
use cluster_api_k3s.Workload.{
  get_control_plane_nodes, reconcile_etcd_members, reconcile_etcd_member,
}
use cluster_api_k3s.Workload.Spared.{RemovesStale, reconcile_etcd_members-RemovesStale}
use cluster_api_k3s.Etcd.{member_names, member_for_name, node_name_from_member}
use cluster_api_k3s.Controllers.{set_condition}
use cluster_api_k3s.Workload.Conditions.{KcpError, aggregated, recorded}
use cluster_api_k3s.Workload.Conditions.Aggregate.{aggregated_iff}
use cluster_api_k3s.Workload.Conditions.EtcdHealth.{
  Baseline, nothing_known, inspect_etcd, inspect_on, inspect_member, get_current_etcd_members,
  answered_members, check_member, checked, has_alarm, lacks_member, conclude,
  update_managed_etcd_conditions,
}
use cluster_api_k3s.Workload.Conditions.Consistency.{IsConsistent}
use cluster_api_k3s.Workload.Conditions.Coverage.{AreMatched}
use cluster_api_k3s.Workload.Conditions.Outcomes.{
  inspected, update_managed_etcd_conditions-IsConsistent,
}
use cluster_api_k3s.Workload.Conditions.Agent.{node_has_unreachable_taint, inspect}
use cluster_api_k3s.Workload.Conditions.Agent.Stale.{inspect-stale}
use cluster_api_k3s.Prelude.Exec.{ok}
use cluster_api_k3s.Samples.{condition, one, two, three, with_machines, node, member, client}
use cluster_api_k3s.Samples.Library.{capi, laws}

abbrev etcd_members : List Member
etcd_members = member 1 "m1-1a2b" ∷ member 2 "m2-3c4d" ∷ member 3 "m3-5e6f" ∷ []

abbrev nodes : List Node
nodes = node "m1" ∷ node "m2" ∷ node "m3" ∷ []

abbrev no_errors : List KcpError
no_errors = []

abbrev seen : Baseline
seen = record { cluster_id = some 1; known_members = some etcd_members }

abbrev before : Session
before = with_machines (one ∷ two ∷ three ∷ [])

update_managed_etcd_conditions-IsConsistent_example :
    AreMatched capi (client one) nothing_known nodes (get_control_plane_nodes (client one) before).1
    × IsConsistent (inspected capi (client one) nodes before).1.plane.machines etcd_members
unfolding capi update_managed_etcd_conditions get_control_plane_nodes inspect_etcd inspect_on
    inspect_member get_current_etcd_members answered_members check_member checked conclude recorded
    aggregated lookup member_names member_for_name has_alarm set_condition lacks_member
update_managed_etcd_conditions-IsConsistent_example =
    update_managed_etcd_conditions-IsConsistent capi laws (client one) nodes seen no_errors
      etcd_members before refl refl refl refl refl

aggregated_iff_example :
    (aggregated capi machine_etcd_member_healthy_condition "Unhealthy" "Unknown" []
        (two ∷ three ∷ [])
      ≡ some (condition_true, ""))
unfolding capi
aggregated_iff_example =
    (aggregated_iff capi machine_etcd_member_healthy_condition "Unhealthy" "Unknown" []
        (two ∷ three ∷ [])).1
      (refl, refl, refl)

-- The node has lost its Ready condition, and the machine on it was healthy.
abbrev asleep : Node
asleep = record (node "m2") { conditions = condition "Ready" false ∷ [] }

abbrev reads_asleep : Client
reads_asleep = record (client one) { get_node = λ t x. ok asleep }

inspect-stale_example : (inspect capi reads_asleep two (node "m2") before).1.plane ≡ before.plane
unfolding node_has_unreachable_taint
inspect-stale_example =
    inspect-stale capi reads_asleep two (node "m2") asleep before refl refl refl refl

-- The machine of m1 is gone, and its member is removed.
reconcile_etcd_members-RemovesStale_example :
    RemovesStale
      (client one)
      ("m2" ∷ "m3" ∷ [])
      (reconcile_etcd_members (client one) ("m2" ∷ "m3" ∷ []) before).1.trace
reconcile_etcd_members-RemovesStale_example =
    reconcile_etcd_members-RemovesStale (client one) ("m2" ∷ "m3" ∷ []) before tt

removes_one :
    (reconcile_etcd_members (client one) ("m2" ∷ "m3" ∷ []) before).0 ≡ ok ("m1" ∷ "m1" ∷ [], [])
unfolding reconcile_etcd_members reconcile_etcd_member node_name_from_member member_for_name lookup
removes_one = refl
