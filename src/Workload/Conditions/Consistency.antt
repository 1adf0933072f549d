-- ===== src/Workload/Conditions/Consistency.antt =====
-- What the conditions tell of etcd's members after updateManagedEtcdConditions: the members and the
-- machines match where the control plane's condition says that etcd is healthy.
use mathlib.Core.List.{Memᴰ}
use mathlib.Core.Logic.{∥∥₁_elim}
use mathlib.Core.Bool.{Bool-set}
use cluster_api_k3s.Prelude.{
  append-nil_left, String, Bool, true, false, none, some, List, [], ◌∷◌, ◌++◌, is_some, Mem, ◌≡◌,
  refl, sym, ap, ◌∙◌, arith, Bool-cases, inl, inr,
}
use cluster_api_k3s.Prelude.Exec.{Outcome, pure, continue}
use cluster_api_k3s.Prelude.Exec.Keeps.{continue-ok}
use cluster_api_k3s.Api.{
  condition_true, condition_false, condition_unknown, KThreesControlPlane, Machine, Member, Capi,
  CapiLaws, Session, machine_etcd_member_healthy_condition, etcd_cluster_healthy_condition,
}
use cluster_api_k3s.Etcd.{node_name_from_member}
use cluster_api_k3s.Workload.Conditions.{
  KcpError, machine_on_node, has_status, mark_kcp, recorded, Verdict, aggregated,
  aggregate_from_machines_to_kcp,
}
use cluster_api_k3s.Workload.Conditions.Aggregate.{aggregated-true}
use cluster_api_k3s.Workload.Conditions.Reports.{
  named_of_mem, after, report_lacking-lacks, report_lacking-ok, report_lacking-kcp,
}
use cluster_api_k3s.Workload.Conditions.EtcdHealth.{
  Baseline, lacks_member, members_without_machine, report_lacking, compare_machines_and_members,
  conclude,
}

-- The machines with a node and the members stand for each other.
pub record IsConsistent (machines : List Machine) (ms : List Member) : Type 0 where
  pub has_members : (m : Machine) → Mem m machines → lacks_member ms m ≡ false
  pub has_machines :
      (x : Member) → Mem x ms → is_some (machine_on_node (node_name_from_member x) machines) ≡ true

found-machine :
    (machines : List Machine) (ms : List Member) (x : Member)
    → members_without_machine machines ms ≡ []
    → Memᴰ x ms
    → is_some (machine_on_node (node_name_from_member x) machines) ≡ true
unfolding members_without_machine
found-machine machines [] x h d = elim d [ ]
found-machine machines (y ∷ ms) x h (Memᴰ.head e) =
    elim (Bool-cases (is_some (machine_on_node (node_name_from_member y) machines))) [
      | inl found ↦ ap (λ z. is_some (machine_on_node (node_name_from_member z) machines)) e ∙ found
      | inr lost ↦ let never = rw lost at h in cc
    ]
found-machine machines (y ∷ ms) x h (Memᴰ.tail d) =
    elim (Bool-cases (is_some (machine_on_node (node_name_from_member y) machines))) [
      | inl found ↦ found-machine machines ms x (rw found at h) d
      | inr lost ↦ let never = rw lost at h in cc
    ]

module _ (capi : Capi) where
  -- The control plane's condition says that etcd is healthy.
  abbrev pub is_etcd_healthy : Session → Bool
  is_etcd_healthy s =
      has_status condition_true
        (capi.get_condition_v1beta1 s.plane.kcp.conditions etcd_cluster_healthy_condition)

module _ (capi : Capi) (laws : CapiLaws capi) where
  -- The condition comes to be true by a verdict only.
  recorded-healthy :
      (v : Verdict) (s : Session)
      → is_etcd_healthy capi s ≡ false
      → is_etcd_healthy capi (recorded capi etcd_cluster_healthy_condition v s) ≡ true
      → (reason : String) × (v ≡ some (condition_true, reason))
  unfolding recorded mark_kcp
  recorded-healthy none s was is = ground arith
  recorded-healthy (some (condition_true, reason)) s was is = (reason, refl)
  recorded-healthy (some (condition_false, reason)) s was is =
      let read = laws.get_set_v1beta1 s.plane.kcp.conditions (record {
        type = etcd_cluster_healthy_condition;
        status = condition_false;
        reason = reason;
      }) in
      let never = rw read at is in cc
  recorded-healthy (some (condition_unknown, reason)) s was is =
      let read = laws.get_set_v1beta1 s.plane.kcp.conditions (record {
        type = etcd_cluster_healthy_condition;
        status = condition_unknown;
        reason = reason;
      }) in
      let never = rw read at is in cc

  -- What `conclude` does once the loop has run.
  conclude-after :
      (b : Baseline) (errs : List KcpError) (ms : List Member) (s : Session)
      → b.known_members ≡ some ms
      → (conclude capi (b, errs) s).1
        ≡ recorded capi etcd_cluster_healthy_condition
            (aggregated capi machine_etcd_member_healthy_condition "EtcdClusterUnhealthy"
              "EtcdClusterUnknown"
              (errs ++ members_without_machine s.plane.machines ms)
              (after capi laws ms s.plane.machines s))
            (report_lacking capi ms s.plane.machines s).1
  unfolding conclude compare_machines_and_members aggregate_from_machines_to_kcp
  conclude-after b errs ms s known =
      let all_errs = errs ++ members_without_machine s.plane.machines ms in
      rw known (
        ap
          (λ (r : Outcome Unit (List KcpError) × Session).
            (continue r (λ es.
              aggregate_from_machines_to_kcp capi machine_etcd_member_healthy_condition
                etcd_cluster_healthy_condition "EtcdClusterUnhealthy" "EtcdClusterUnknown" es)).1)
          (continue-ok (report_lacking capi ms s.plane.machines s) (λ _. pure all_errs)
            (report_lacking-ok capi laws ms s.plane.machines s)))

  -- If the comparison and the aggregation make the condition True that was not, there was no error
  -- before, and the members that were compared match the machines.
  pub conclude-IsConsistent :
      (b : Baseline) (errs : List KcpError) (ms : List Member) (s : Session)
      → b.known_members ≡ some ms
      → is_etcd_healthy capi s ≡ false
      → is_etcd_healthy capi (conclude capi (b, errs) s).1 ≡ true
      → (errs ≡ []) × IsConsistent s.plane.machines ms
  conclude-IsConsistent b errs ms s known was is =
      let same = conclude-after b errs ms s known in
      let (reason, verdict) =
        recorded-healthy _ (report_lacking capi ms s.plane.machines s).1
          (ap
              (λ (k : KThreesControlPlane).
                has_status condition_true
                  (capi.get_condition_v1beta1 k.conditions etcd_cluster_healthy_condition))
              (report_lacking-kcp capi laws ms s.plane.machines s)
            ∙ was)
          (sym (ap (is_etcd_healthy capi) same) ∙ is) in
      let (no_errors, none_false, _) = aggregated-true capi _ _ _ reason _ _ verdict in
      let (none_before, none_lost) = append-nil_left _ _ no_errors in
      (
        none_before,
        record {
          has_members = λ m mem. ∥∥₁_elim mem (Bool-set _ _) (λ d.
              elim (Bool-cases (lacks_member ms m)) [
                | inl e ↦
                    let reported_bad =
                      report_lacking-lacks capi laws ms s.plane.machines s m d
                        (named_of_mem m s.plane.machines d) e in
                    cc
                | inr e ↦ e
              ]);
          has_machines =
              λ x mem. ∥∥₁_elim mem (Bool-set _ _) (found-machine s.plane.machines ms x none_lost);
        },
      )
