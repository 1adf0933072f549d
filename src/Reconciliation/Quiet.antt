-- ===== src/Reconciliation/Quiet.antt =====
-- The parts of a reconciliation that delete no machine.
use cluster_api_k3s.Prelude.{Bool, not, if◌then◌else◌, ℕ, String, Option, none, some, List, [], ◌∷◌}
use cluster_api_k3s.Prelude.Exec.Keeps.{
  Keeps, keeps_rules, Keeps-bind, Keeps-if, Keeps-gets, Keeps-pure,
}
use cluster_api_k3s.Prelude.Exec.{Exec, pure, gets, ◌>>◌}
use cluster_api_k3s.Api.{Error, Machine, Capi, Client, Session, get_workload_cluster, perform}
use cluster_api_k3s.Controllers.{current}
use cluster_api_k3s.Controllers.Deletions.{deleted}
use cluster_api_k3s.Workload.Conditions.Agent.{update_agent_conditions}
use cluster_api_k3s.Workload.Conditions.EtcdHealth.{update_managed_etcd_conditions}
use cluster_api_k3s.Workload.Quiet.{reconcile_etcd_members-Keeps}
use cluster_api_k3s.Workload.Conditions.Inspection.{IsQuiet, deleted-IsQuiet}
use cluster_api_k3s.Workload.Conditions.Quiet.{
  update_agent_conditions-Keeps, update_managed_etcd_conditions-Keeps,
}
use cluster_api_k3s.Reconciliation.{
  patch_one, patch_each, patch_machines, reconcile_control_plane_conditions, first_error,
  remove_stale_members, unless_provisioning, reconcile_control_plane_etcd, dereferenced,
  desired_replicas, observe,
}

first_error-Keeps :
    {X : Type 0} (view : Session → X) (errs : List Error) → Keeps view (first_error errs)
first_error-Keeps view [] = search keeps_rules
first_error-Keeps view (e ∷ errs) = search keeps_rules

module _ {X : Type 0} (capi : Capi) (view : Session → X) (quiet : IsQuiet capi view)
    (client : Client) where
  patch_one-Keeps : (m : Machine) → Keeps view (patch_one capi client m)
  unfolding patch_one perform
  patch_one-Keeps m = record { at = λ s. quiet.from_patch (current m s.plane.machines) s }

  patch_each-Keeps : (ms : List Machine) → Keeps view (patch_each capi client ms)
  unfolding patch_each
  patch_each-Keeps [] = search keeps_rules
  patch_each-Keeps (m ∷ ms) =
      let rest = patch_each-Keeps ms in search (keeps_rules, patch_one-Keeps) depth 8

  patch_machines-Keeps : Keeps view (patch_machines capi client)
  unfolding patch_machines
  patch_machines-Keeps = search (keeps_rules, patch_each-Keeps, first_error-Keeps view)

  asked-Keeps : Keeps view (perform get_workload_cluster client.get_workload_cluster)
  unfolding perform
  asked-Keeps = record { at = quiet.from_workload }

  abbrev updates : Exec Session Error Unit
  updates =
      update_agent_conditions capi client
      >> (update_managed_etcd_conditions capi client >> patch_machines capi client)

  updates-Keeps : Keeps view updates
  updates-Keeps =
      Keeps-bind (update_agent_conditions capi client) _
        (update_agent_conditions-Keeps capi view quiet client)
        λ t.
          Keeps-bind (update_managed_etcd_conditions capi client) _
            (update_managed_etcd_conditions-Keeps capi view quiet client) λ u. patch_machines-Keeps

  if_initialized : Bool → Exec Session Error Unit
  if_initialized i =
      if not i then pure tt else perform get_workload_cluster client.get_workload_cluster >> updates

  if_initialized-Keeps : (i : Bool) → Keeps view (if_initialized i)
  unfolding if_initialized
  if_initialized-Keeps i =
      Keeps-if (not i) (pure tt)
        (perform get_workload_cluster client.get_workload_cluster >> updates) (Keeps-pure tt)
        (Keeps-bind (perform get_workload_cluster client.get_workload_cluster) (λ t. updates)
          asked-Keeps (λ t. updates-Keeps))

  pub reconcile_conditions-Keeps : Keeps view (reconcile_control_plane_conditions capi client)
  unfolding reconcile_control_plane_conditions if_initialized
  reconcile_conditions-Keeps =
      Keeps-bind (gets (λ s. s.plane.kcp.initialized)) if_initialized (Keeps-gets _)
        if_initialized-Keeps

module _ (capi : Capi) (client : Client) where
  pub conditions-Keeps : Keeps deleted (reconcile_control_plane_conditions capi client)
  conditions-Keeps = reconcile_conditions-Keeps capi deleted (deleted-IsQuiet capi) client

  remove_stale_members-Keeps :
      (names : List String) → Keeps deleted (remove_stale_members capi client names)
  unfolding remove_stale_members
  remove_stale_members-Keeps names =
      search (keeps_rules, reconcile_etcd_members-Keeps, first_error-Keeps deleted) depth 8

  unless_provisioning-Keeps :
      (names : Option (List String)) → Keeps deleted (unless_provisioning capi client names)
  unfolding unless_provisioning
  unless_provisioning-Keeps none = search keeps_rules
  unless_provisioning-Keeps (some names) = search (keeps_rules, remove_stale_members-Keeps)

  etcd-Keeps : Keeps deleted (reconcile_control_plane_etcd capi client)
  unfolding reconcile_control_plane_etcd
  etcd-Keeps = search (keeps_rules, unless_provisioning-Keeps) depth 8

  pub observe-Keeps : Keeps deleted (observe capi client)
  unfolding observe
  observe-Keeps = search (keeps_rules, conditions-Keeps, etcd-Keeps) depth 8

  dereferenced-Keeps : (o : Option ℕ) → Keeps deleted (dereferenced capi client o)
  unfolding dereferenced
  dereferenced-Keeps none = search keeps_rules
  dereferenced-Keeps (some n) = search keeps_rules

  pub desired_replicas-Keeps : Keeps deleted (desired_replicas capi client)
  unfolding desired_replicas
  desired_replicas-Keeps = search (keeps_rules, dereferenced-Keeps)
