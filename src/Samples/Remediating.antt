-- ===== src/Samples/Remediating.antt =====
-- The unhealthy one of three machines is remediated.
use cluster_api_k3s.Prelude.{
  ◌*◌, false, [], ◌∷◌, Mem, ltb, leb, ◌&&◌, ◌-◌, ◌/◌, ◌≡◌, ◌≢◌, refl, sym, ◌∙◌, arith,
}
use cluster_api_k3s.Prelude.Int.{pos}
use cluster_api_k3s.Prelude.Exec.{ok}
use cluster_api_k3s.Api.{Machine, Session, get_workload_cluster, perform}
use cluster_api_k3s.Controllers.Deletions.{deleted}
use cluster_api_k3s.ControlPlane.{healthy_machines}
use cluster_api_k3s.Workload.Leaving.{etcd_members}
use cluster_api_k3s.Etcd.{node_name_from_member, member_for_name}
use cluster_api_k3s.Samples.{one, two, three, with_machines, client}
use cluster_api_k3s.Samples.Library.{capi, laws}
use cluster_api_k3s.Remediation.Retry.{check_retry_limits}
use cluster_api_k3s.Remediation.Quorum.{
  can_safely_remove_etcd_member, get_machine_to_be_remediated, keeps_quorum,
}
use cluster_api_k3s.Remediation.Quorum.Majority.{
  remaining, remaining_healthy, can_safely_remove_etcd_member-majority, keeps_quorum_tolerance,
  get_machine_to_be_remediated-mem,
}
use cluster_api_k3s.Remediation.Reconcile.{
  clean_up, reconcile_unhealthy_machines, remediate, preflight, require_stable, require_quorum,
  prepare, leave_etcd, delete_and_track,
}
use cluster_api_k3s.Remediation.Reconcile.Safety.{
  IsRemediable, reconcile_unhealthy_machines-deletes,
}

abbrev unhealthy : Session
unhealthy = with_machines (one ∷ two ∷ three ∷ [])

deletes_one :
    deleted (reconcile_unhealthy_machines capi (client one) (pos 10) unhealthy).1 ≡ "m1" ∷ []
unfolding reconcile_unhealthy_machines remediate check_retry_limits preflight require_stable
    require_quorum can_safely_remove_etcd_member prepare leave_etcd delete_and_track capi
    node_name_from_member member_for_name
deletes_one = refl

reconcile_changes :
    deleted (reconcile_unhealthy_machines capi (client one) (pos 10) unhealthy).1 ≢ []
reconcile_changes h = let e = sym deletes_one ∙ h in cc

reconcile_unhealthy_machines-deletes_example :
    let cleaned =
      (clean_up capi (client one) (healthy_machines capi unhealthy.plane) unhealthy).1 in
    (m : Machine) × (deleted (reconcile_unhealthy_machines capi (client one) (pos 10) unhealthy).1
      ≡ m.name ∷ [])
    × IsRemediable capi (client one) (pos 10) m cleaned
reconcile_unhealthy_machines-deletes_example =
    reconcile_unhealthy_machines-deletes capi (client one) (pos 10) unhealthy reconcile_changes

abbrev asked : Session
asked = record unhealthy { trace = get_workload_cluster ∷ [] }

can_safely_remove_etcd_member-majority_example :
    can_safely_remove_etcd_member capi (client one) one unhealthy ≡ (
      ok (
          ltb (remaining one.node_ref ("m1" ∷ "m2" ∷ "m3" ∷ [])) (
            2
            * remaining_healthy capi
                (one ∷ two ∷ three ∷ [])
                one.node_ref
                ("m1" ∷ "m2" ∷ "m3" ∷ []))),
      (etcd_members (client one) asked).1,
    )
unfolding perform etcd_members capi node_name_from_member
can_safely_remove_etcd_member-majority_example =
    can_safely_remove_etcd_member-majority capi (client one) one unhealthy asked
      (etcd_members (client one) asked).1 ("m1" ∷ "m2" ∷ "m3" ∷ []) refl refl

keeps_quorum_tolerance_example : keeps_quorum (4, 2) ≡ (ltb 0 4 && leb 2 ((4 - 1) / 2))
keeps_quorum_tolerance_example = keeps_quorum_tolerance 4 2 (omega arith)

get_machine_to_be_remediated-mem_example :
    Mem one (one ∷ two ∷ [])
    × ((other : Machine)
        → Mem other (one ∷ two ∷ [])
        → capi.has_node other ≡ false
        → capi.has_node one ≡ false)
unfolding capi get_machine_to_be_remediated
get_machine_to_be_remediated-mem_example =
    get_machine_to_be_remediated-mem capi laws (one ∷ two ∷ []) one refl
