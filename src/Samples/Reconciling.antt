-- ===== src/Samples/Reconciling.antt =====
-- A whole reconciliation of three machines of which two are wanted: one of them goes; and one of a
-- control plane that is being deleted: all of them go.
use cluster_api_k3s.Prelude.{
  Mem, true, false, some, [], ◌∷◌, lookup, put, length, not, ◌≡◌, ◌≢◌, ◌⊎◌, refl, sym, ◌∙◌,
}
use cluster_api_k3s.Prelude.Int.{pos}
use cluster_api_k3s.Api.{Machine, Session, list_all_machines}
use cluster_api_k3s.Controllers.Deletions.{deleted}
use cluster_api_k3s.ControlPlane.{
  healthy_machines, machines_needing_rollout, machine_in_failure_domain_with_most_machines,
}
use cluster_api_k3s.Remediation.Reconcile.{add_hook, delete, clean_up, reconcile_unhealthy_machines}
use cluster_api_k3s.Remediation.Reconcile.Safety.{IsRemediable}
use cluster_api_k3s.Reconciliation.{
  observe, operate, reconcile_control_plane_conditions, reconcile_control_plane_etcd,
  roll_out_or_scale, dereferenced, scale, upgrade_control_plane,
}
use cluster_api_k3s.Workload.Conditions.Agent.{
  update_agent_conditions, node_has_unreachable_taint, lacks_node,
}
use cluster_api_k3s.Workload.Conditions.EtcdHealth.{
  update_managed_etcd_conditions, has_alarm, lacks_member,
}
use cluster_api_k3s.Etcd.{member_names, member_for_name, node_name_from_member}
use cluster_api_k3s.Workload.Leaving.{forward_etcd_leadership}
use cluster_api_k3s.Controllers.{set_condition}
use cluster_api_k3s.Scale.Preflight.{preflight_checks, select_machine_for_scale_down}
use cluster_api_k3s.Scale.Down.{scale_down_control_plane, delete_selected, hand_over_etcd}
use cluster_api_k3s.Reconciliation.Surplus.{IsSurplus}
use cluster_api_k3s.ControlPlane.Assembly.{new_control_plane}
use cluster_api_k3s.Reconciliation.Deletion.{
  reconcile_delete, delete_owned, delete_machines, delete_each,
}
use cluster_api_k3s.Reconciliation.Deletion.Names.{names, machine_names}
use cluster_api_k3s.Reconciliation.Deletion.Order.{names_onto, assembled, reconcile_delete-deletes}
use cluster_api_k3s.Secrets.Token
use cluster_api_k3s.Secrets.Certificates.{
  lookup_all, lookup_one, generate_all, generate_missing, save_generated, save,
}
use cluster_api_k3s.Scale.Machines.{update_machine}
use cluster_api_k3s.Samples.Management.{management}
use cluster_api_k3s.Samples.Secrets.{library, ownership}
use cluster_api_k3s.Controllers.{current, or_fail}
use cluster_api_k3s.Reconciliation.Entry.{EntryLibrary, Whole, assemble, reconcile}
use cluster_api_k3s.Reconciliation.Entry.Deletes.{whole_deleted, reconcile-deletes}
use cluster_api_k3s.Samples.{one, two, three, kcp, with_machines, client}
use cluster_api_k3s.Samples.Library.{capi, laws}
use cluster_api_k3s.Reconciliation.Entry.Owned.{HasTakenUp}

abbrev full : Session
full = with_machines (one ∷ two ∷ three ∷ [])

abbrev too_many : Session
too_many = record full { plane = record full.plane { kcp = record kcp { replicas = some 2 } } }

abbrev entry : EntryLibrary
entry = record {
  is_template = λ ref. true;
  ensure_owner_ref = λ refs r. r ∷ refs;
  endpoint_is_valid = λ e. true;
  is_adoptable = λ c m. false;
  ownership = ownership;
  kubeconfig = library;
}

abbrev whole : Whole
whole = record { session = too_many; requests = [] }

reconciles_to_m1 :
    whole_deleted (reconcile capi entry (client one) management (pos 10) whole).1 ≡ "m1" ∷ []
unfolding operate capi observe reconcile_control_plane_conditions update_agent_conditions
    node_has_unreachable_taint set_condition lacks_node update_managed_etcd_conditions member_names
    member_for_name has_alarm lacks_member reconcile_control_plane_etcd reconcile_unhealthy_machines
    roll_out_or_scale machines_needing_rollout dereferenced scale upgrade_control_plane
    scale_down_control_plane select_machine_for_scale_down preflight_checks lookup put
    machine_in_failure_domain_with_most_machines delete_selected hand_over_etcd
    node_name_from_member forward_etcd_leadership add_hook delete reconcile assemble current
    lookup_all lookup_one generate_all generate_missing save_generated save Token.reconcile
    Token.get_token_secret update_machine
reconciles_to_m1 = refl

reconcile_changes :
    whole_deleted (reconcile capi entry (client one) management (pos 10) whole).1 ≢ []
reconcile_changes h = let e = sym reconciles_to_m1 ∙ h in cc

reconcile-deletes_example :
    let s = (assemble capi entry (client one) management whole).1.session in
    let observed = (observe capi (client one) s).1 in
    let cleaned = (clean_up capi (client one) (healthy_machines capi observed.plane) observed).1 in
    let remediated = (reconcile_unhealthy_machines capi (client one) (pos 10) observed).1 in
    HasTakenUp capi entry (client one) management whole
    × ((m : Machine) × (whole_deleted
            (reconcile capi entry (client one) management (pos 10) whole).1
          ≡ m.name ∷ [])
        × (IsRemediable capi (client one) (pos 10) m cleaned
            ⊎ IsSurplus capi (machines_needing_rollout capi remediated.plane) m remediated))
reconcile-deletes_example =
    reconcile-deletes capi laws entry (client one) management (pos 10) whole reconcile_changes

deletes_all : deleted (reconcile_delete capi (client one) full).1 ≡ "m3" ∷ "m2" ∷ "m1" ∷ []
unfolding reconcile_delete capi observe reconcile_control_plane_conditions delete_owned
    delete_machines delete_each new_control_plane update_agent_conditions node_has_unreachable_taint
    set_condition lacks_node update_managed_etcd_conditions member_names member_for_name has_alarm
    lacks_member
deletes_all = refl

delete_changes : deleted (reconcile_delete capi (client one) full).1 ≢ []
delete_changes h = let e = sym deletes_all ∙ h in cc

reconcile_delete-deletes_example :
    let all = one ∷ two ∷ three ∷ [] in
    let owned = capi.filter (capi.is_owned kcp) all in
    let asked = record full { trace = list_all_machines ∷ [] } in
    ((m : Machine) → Mem m all → capi.is_owned kcp m ≡ true)
    × (length owned ≡ length all)
    × ((or_fail (new_control_plane (client one) owned) asked).1.plane.machines ≡ owned)
    × (machine_names (assembled capi (client one) owned asked) ≡ names owned)
    × (deleted (reconcile_delete capi (client one) full).1
        ≡ names_onto
            (capi.filter
              (λ m. not (capi.has_deletion_timestamp m))
              (assembled capi (client one) owned asked).plane.machines)
            [])
reconcile_delete-deletes_example =
    reconcile_delete-deletes capi laws (client one) (one ∷ two ∷ three ∷ []) full refl
      delete_changes
