-- ===== src/Samples/Scaling.antt =====
-- Control planes that grow and shrink by a machine.
use cluster_api_k3s.Prelude.{true, false, [], ◌∷◌, lookup, put, ◌≡◌, ◌≢◌, ◌↔◌, ◌⊎◌, refl, sym, ◌∙◌}
use cluster_api_k3s.Prelude.Exec.{ok}
use cluster_api_k3s.Api.{Machine, Session, remediation_in_progress_annotation}
use cluster_api_k3s.Controllers.{is_zero}
use cluster_api_k3s.Controllers.Deletions.{deleted}
use cluster_api_k3s.ControlPlane.{
  has_deleting_machine, machine_in_failure_domain_with_most_machines,
}
use cluster_api_k3s.Samples.{one, two, three, with_machines, client, kcp, config_spec}
use cluster_api_k3s.Samples.Library.{capi, laws}
use cluster_api_k3s.Etcd.{node_name_from_member, member_for_name}
use cluster_api_k3s.Workload.Leaving.{forward_etcd_leadership}
use cluster_api_k3s.Remediation.Reconcile.{add_hook, delete}
use cluster_api_k3s.Scale.Preflight.{
  preflight_checks, health_conditions, select_machine_for_scale_down,
}
use cluster_api_k3s.Scale.Preflight.Stable.{AllHealthy, preflight_checks_iff}
use cluster_api_k3s.Scale.Preflight.Selection.{
  IsPreferred, select_machine_for_scale_down-IsPreferred,
}
use cluster_api_k3s.Scale.Down.{scale_down_control_plane, delete_selected, hand_over_etcd}
use cluster_api_k3s.Scale.Down.Safety.{scale_down_control_plane-deletes}
use cluster_api_k3s.Scale.Machines.{clone_configs_and_generate_machine}
use cluster_api_k3s.Scale.Machines.Creation.{
  IsHandedOver, HasFailed, clone_configs_and_generate_machine-hand_over,
}

abbrev too_many : Session
too_many = with_machines (one ∷ two ∷ three ∷ [])

selects_one : select_machine_for_scale_down capi too_many.plane (one ∷ []) ≡ ok one
unfolding capi select_machine_for_scale_down machine_in_failure_domain_with_most_machines lookup
selects_one = refl

select_machine_for_scale_down-IsPreferred_example :
    IsPreferred capi too_many.plane.machines (one ∷ []) one
select_machine_for_scale_down-IsPreferred_example =
    select_machine_for_scale_down-IsPreferred capi laws too_many.plane (one ∷ []) one selects_one

deletes_one : deleted (scale_down_control_plane capi (client one) (one ∷ []) too_many).1 ≡ "m1" ∷ []
unfolding capi scale_down_control_plane select_machine_for_scale_down preflight_checks lookup put
    machine_in_failure_domain_with_most_machines delete_selected hand_over_etcd
    node_name_from_member member_for_name forward_etcd_leadership add_hook delete
deletes_one = refl

scale_down_changes : deleted (scale_down_control_plane capi (client one) (one ∷ []) too_many).1 ≢ []
scale_down_changes h = let e = sym deletes_one ∙ h in cc

scale_down_control_plane-deletes_example :
    (m : Machine) × (select_machine_for_scale_down capi too_many.plane (one ∷ []) ≡ ok m)
    × (is_zero (preflight_checks capi too_many.plane (m.name ∷ [])) ≡ true)
    × (deleted (scale_down_control_plane capi (client one) (one ∷ []) too_many).1 ≡ m.name ∷ [])
scale_down_control_plane-deletes_example =
    scale_down_control_plane-deletes capi (client one) (one ∷ []) too_many scale_down_changes

preflight_checks_iff_example :
    (is_zero (preflight_checks capi too_many.plane ("m1" ∷ [])) ≡ true) ↔ (
      (too_many.plane.machines ≡ [])
      ⊎ ((has_deleting_machine capi too_many.plane ≡ false)
          × AllHealthy capi
              ("m1" ∷ [])
              (health_conditions capi too_many.plane)
              too_many.plane.machines))
preflight_checks_iff_example = preflight_checks_iff capi too_many.plane ("m1" ∷ [])

abbrev remediating : Session
remediating =
    let s = with_machines (two ∷ three ∷ []) in
    record s {
      plane = record s.plane {
        kcp = record kcp { annotations = (remediation_in_progress_annotation, "m1") ∷ [] };
      };
    }

clone_configs_and_generate_machine-hand_over_example :
    let r = clone_configs_and_generate_machine capi (client one) config_spec "" remediating in
    ((r.0 ≡ ok tt) × IsHandedOver remediating r.1) ⊎ HasFailed r.0 remediating r.1
clone_configs_and_generate_machine-hand_over_example =
    clone_configs_and_generate_machine-hand_over capi (client one) config_spec "" remediating

abbrev placed : Machine
placed = record one { failure_domain = "zone-a" }
