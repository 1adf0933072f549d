-- ===== src/ControlPlane.antt =====
-- pkg/k3s/control_plane.go: the questions that the controllers ask of a control plane in memory.
pub mod Assembly
pub mod Domains
use cluster_api_k3s.Prelude.{
  ◌+◌, String, Bool, true, false, Option, none, some, List, [], ◌∷◌, Dict, put, put_all, keep, map,
  length, not, eqb, ltb, if◌then◌else◌, ◌&&◌,
}
use cluster_api_k3s.Prelude.Exec.{Outcome, ok, err}
use cluster_api_k3s.Api.{
  Error, nil_dereference, failed_to_pick_for_deletion, Capi, Machine, FailureDomain, ControlPlane,
  KThreesControlPlaneMachineTemplate,
}
use cluster_api_k3s.MachineFilters.{matches_kcp_configuration}

unfoldable pub failure_domain_names : ControlPlane → List String
failure_domain_names c = map (λ d. d.name) c.cluster.failure_domains

-- `ptr.Deref(fd.ControlPlane, false)`
abbrev deref_or_false : Option Bool → Bool
deref_or_false none = false
deref_or_false (some b) = b

unfoldable pub control_plane_failure_domains : ControlPlane → List FailureDomain
control_plane_failure_domains c =
    keep (λ (d : FailureDomain). deref_or_false d.control_plane) c.cluster.failure_domains

unfoldable pub control_plane_labels_for_cluster :
    String → KThreesControlPlaneMachineTemplate → Dict String
control_plane_labels_for_cluster cluster_name template = put "cluster.x-k8s.io/control-plane" "" (
    put "cluster.x-k8s.io/control-plane-name" ""
      (put "cluster.x-k8s.io/cluster-name" cluster_name (put_all template.labels [])))

-- Whether one more machine is exactly what the spec asks for; false for a nil pointer.
unfoldable pub needs_replacement_node : ControlPlane → Bool
needs_replacement_node c = elim c.kcp.replicas [
  | none ↦ false
  | some r ↦ eqb (length c.machines + 1) r
]

-- `IsEtcdEmbedded` is true of every configuration.
unfoldable pub is_etcd_embedded : Bool
is_etcd_embedded = true

unfoldable pub is_etcd_managed : ControlPlane → Bool
unfolding is_etcd_embedded
is_etcd_managed c = is_etcd_embedded && c.has_etcd_ca

module _ (capi : Capi) where
  unfoldable pub unhealthy_machines : ControlPlane → List Machine
  unhealthy_machines c = capi.filter capi.is_unhealthy c.machines

  unfoldable pub healthy_machines : ControlPlane → List Machine
  healthy_machines c = capi.filter (λ m. not (capi.is_unhealthy m)) c.machines

  unfoldable pub has_healthy_machine_still_provisioning : ControlPlane → Bool
  unfolding healthy_machines
  has_healthy_machine_still_provisioning c =
      ltb 0 (length (capi.filter (λ m. not (capi.has_node m)) (healthy_machines c)))

  unfoldable pub has_deleting_machine : ControlPlane → Bool
  has_deleting_machine c = ltb 0 (length (capi.filter capi.has_deletion_timestamp c.machines))

  unfoldable pub machine_with_delete_annotation : List Machine → List Machine
  machine_with_delete_annotation machines =
      capi.filter (capi.has_annotation_key "cluster.x-k8s.io/delete-machine") machines

  -- `Oldest().Spec.FailureDomain`: a nil pointer is followed if there is no oldest machine.
  domain_of : Option Machine → Outcome Error String
  domain_of none = err nil_dereference
  domain_of (some m) = ok m.failure_domain

  unfoldable pub failure_domain_with_most_machines :
      ControlPlane → List Machine → Outcome Error String
  unfolding failure_domain_names control_plane_failure_domains domain_of
  failure_domain_with_most_machines c machines =
      let outside =
        capi.filter
          (λ m.
            not (capi.in_failure_domains (failure_domain_names c) m)
            && capi.is_control_plane_machine m)
          machines in
      if ltb 0 (length outside)
      then domain_of (capi.oldest outside)
      else ok (capi.pick_most (control_plane_failure_domains c) c.machines machines)

  picked : Option Machine → Outcome Error Machine
  picked none = err failed_to_pick_for_deletion
  picked (some m) = ok m

  oldest_in : Outcome Error String → List Machine → Outcome Error Machine
  unfolding picked
  oldest_in (ok fd) machines =
      picked (capi.oldest (capi.filter (capi.in_failure_domains (fd ∷ [])) machines))
  oldest_in (err e) machines = err e

  unfoldable pub machine_in_failure_domain_with_most_machines :
      ControlPlane → List Machine → Outcome Error Machine
  unfolding failure_domain_with_most_machines oldest_in
  machine_in_failure_domain_with_most_machines c machines =
      oldest_in (failure_domain_with_most_machines c machines) machines

  unfoldable pub machines_needing_rollout : ControlPlane → List Machine
  unfolding matches_kcp_configuration
  machines_needing_rollout c =
      capi.any_filter (capi.should_rollout_after c.reconciliation_time c.kcp.rollout_after)
        (λ m. not (matches_kcp_configuration capi c.infra_resources c.kthrees_configs c.kcp m))
        (capi.filter (λ m. not (capi.has_deletion_timestamp m)) c.machines)

  unfoldable pub up_to_date_machines : ControlPlane → List Machine
  unfolding machines_needing_rollout
  up_to_date_machines c = capi.difference c.machines (machines_needing_rollout c)

  unfoldable pub next_failure_domain_for_scale_up : ControlPlane → String
  unfolding control_plane_failure_domains up_to_date_machines
  next_failure_domain_for_scale_up c =
      if eqb (length (control_plane_failure_domains c)) 0
      then ""
      else capi.pick_fewest (control_plane_failure_domains c) c.machines (up_to_date_machines c)
