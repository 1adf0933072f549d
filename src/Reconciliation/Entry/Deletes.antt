-- ===== src/Reconciliation/Entry/Deletes.antt =====
-- Which machines a reconciliation deletes, from its very beginning.
use cluster_api_k3s.Prelude.{
  String, Option, none, some, List, [], ◌∷◌, ltb, length, Bool-cases, inl, inr, ◌⊎◌, ◌≡◌, ◌≢◌, refl,
  ap, ◌∙◌,
}
use cluster_api_k3s.Prelude.Int.{ℤ}
use cluster_api_k3s.Prelude.Exec.{Exec, Outcome}
use cluster_api_k3s.Prelude.Exec.Keeps.{Keeps, keeps_rules, changed_after, continue-ok}
use cluster_api_k3s.Api.{
  Ref, Machine, KThreesConfigSpec, Capi, CapiLaws, Client, Session, ManagementClient, Io,
}
use cluster_api_k3s.Controllers.{CtrlResult, Return}
use cluster_api_k3s.Controllers.Deletions.{deleted}
use cluster_api_k3s.Scale.Machines.{update_machine, update_external_object}
use cluster_api_k3s.ControlPlane.{healthy_machines, machines_needing_rollout}
use cluster_api_k3s.Remediation.Reconcile.{clean_up, reconcile_unhealthy_machines}
use cluster_api_k3s.Remediation.Reconcile.Safety.{IsRemediable}
use cluster_api_k3s.Reconciliation.Surplus.{IsSurplus}
use cluster_api_k3s.Reconciliation.{operate, observe}
use cluster_api_k3s.Reconciliation.Deletes.{operate-deletes}
use cluster_api_k3s.Reconciliation.Entry.Owned.{HasTakenUp, assemble-HasTakenUp}
use cluster_api_k3s.Reconciliation.Deletion.Order.{new_control_plane-Keeps}
use cluster_api_k3s.Reconciliation.Syncing.{
  sync_external, sync_infrastructure, sync_config, sync_machine, sync_each, sync_machines,
}
use cluster_api_k3s.Reconciliation.Entry.{
  EntryLibrary, Whole, on_session, on_requests, reconcile_external_reference, marked,
  reconcile_secrets, owned_machines, aggregate_if_any, take_up, assemble, reconcile,
}

abbrev pub whole_deleted : Whole → List String
whole_deleted w = deleted w.session

on_session-Keeps :
    {E A : Type 0} (m : Exec Session E A) → Keeps deleted m → Keeps whole_deleted (on_session m)
on_session-Keeps m k = record { at = λ w. k.at w.session }

on_requests-Keeps : {A : Type 0} (m : Io A) → Keeps whole_deleted (on_requests m)
on_requests-Keeps m = record { at = λ w. refl }

module _ (capi : Capi) (client : Client) where
  sync_external-Keeps : (ref : Ref) → Keeps deleted (sync_external capi client ref)
  unfolding sync_external update_external_object
  sync_external-Keeps ref = search keeps_rules depth 8

  sync_infrastructure-Keeps :
      (m : Machine) (o : Option (Option String × Option String))
      → Keeps deleted (sync_infrastructure capi client m o)
  unfolding sync_infrastructure
  sync_infrastructure-Keeps m none = search keeps_rules
  sync_infrastructure-Keeps m (some f) = search (keeps_rules, sync_external-Keeps)

  sync_config-Keeps :
      (m : Machine) (o : Option KThreesConfigSpec) → Keeps deleted (sync_config capi client m o)
  unfolding sync_config
  sync_config-Keeps m none = search keeps_rules
  sync_config-Keeps m (some f) = search (keeps_rules, sync_external-Keeps) depth 8

  sync_machine-Keeps : (m : Machine) → Keeps deleted (sync_machine capi client m)
  unfolding sync_machine update_machine
  sync_machine-Keeps m = search (keeps_rules, sync_infrastructure-Keeps, sync_config-Keeps) depth 14

  sync_each-Keeps : (ms : List Machine) → Keeps deleted (sync_each capi client ms)
  unfolding sync_each
  sync_each-Keeps [] = search keeps_rules
  sync_each-Keeps (m ∷ ms) =
      let rest = sync_each-Keeps ms in search (keeps_rules, sync_machine-Keeps) depth 6

  sync_machines-Keeps : Keeps deleted (sync_machines capi client)
  unfolding sync_machines
  sync_machines-Keeps = search (keeps_rules, sync_each-Keeps)

module _ (capi : Capi) (lib : EntryLibrary) (client : Client) (management : ManagementClient) where
  marked-Keeps :
      {A : Type 0} (type reason : String) (m : Io A)
      → Keeps whole_deleted (marked capi lib client management type reason m)
  unfolding marked
  marked-Keeps type reason m = search (keeps_rules, on_session-Keeps, on_requests-Keeps) depth 8

  reconcile_secrets-Keeps : Keeps whole_deleted (reconcile_secrets capi lib client management)
  unfolding reconcile_secrets
  reconcile_secrets-Keeps = search (keeps_rules, marked-Keeps, on_requests-Keeps) depth 14

  reference-Keeps :
      (ref : Ref) → Keeps deleted (reconcile_external_reference capi lib client management ref)
  unfolding reconcile_external_reference
  reference-Keeps ref = search keeps_rules depth 10

  owned_machines-Keeps :
      (ms : List Machine) → Keeps whole_deleted (owned_machines capi lib client management ms)
  unfolding owned_machines
  owned_machines-Keeps ms = search keeps_rules depth 8

  aggregated : (s : Session) → deleted (aggregate_if_any capi lib client management s) ≡ deleted s
  unfolding aggregate_if_any
  aggregated s = elim (Bool-cases (ltb 0 (length s.plane.machines))) [
    | inl h ↦ rw h refl
    | inr h ↦ rw h refl
  ]

  take_up-Keeps :
      (owned : List Machine) → Keeps whole_deleted (take_up capi lib client management owned)
  unfolding take_up
  take_up-Keeps owned =
      search
        (keeps_rules, on_session-Keeps, new_control_plane-Keeps, sync_machines-Keeps, aggregated)
        depth 10

  assemble-Keeps : Keeps whole_deleted (assemble capi lib client management)
  unfolding assemble
  assemble-Keeps =
      search
        (
          keeps_rules, on_session-Keeps, reference-Keeps, reconcile_secrets-Keeps,
          owned_machines-Keeps, take_up-Keeps,
        )
        depth 16

module _ (capi : Capi) (laws : CapiLaws capi) (lib : EntryLibrary) (client : Client)
    (management : ManagementClient) where
  -- A whole reconciliation that calls for a deletion at all has listed the machines of the control
  -- plane, none of which could be adopted and all of which it owns, and has gone on with these
  -- machines; and it calls for one deletion in all. That machine is either the one remediated, and was
  -- fit for it once the conditions and etcd's members were seen to and the healthy machines cleaned
  -- up; or, once the remediation has been seen to, the control plane has more machines than replicas
  -- are wanted, the machine is the one that the scale down selects where the machines that need a
  -- rollout are the outdated ones, and the preflight checks pass without it.
  pub reconcile-deletes :
      (now : ℤ) (w : Whole)
      → whole_deleted (reconcile capi lib client management now w).1 ≢ whole_deleted w
      → let s = (assemble capi lib client management w).1.session in
        let observed = (observe capi client s).1 in
        let cleaned = (clean_up capi client (healthy_machines capi observed.plane) observed).1 in
        let remediated = (reconcile_unhealthy_machines capi client now observed).1 in
        HasTakenUp capi lib client management w
        × ((m : Machine) × (whole_deleted (reconcile capi lib client management now w).1
              ≡ m.name ∷ whole_deleted w)
            × (IsRemediable capi client now m cleaned
                ⊎ IsSurplus capi (machines_needing_rollout capi remediated.plane) m remediated))
  unfolding reconcile
  reconcile-deletes now w changed =
      let (u, done, changed1) =
        changed_after {view = whole_deleted} (assemble capi lib client management)
          (λ _. on_session (operate capi client now)) w (assemble-Keeps capi lib client management)
          changed in
      let (m, grown, fit) =
        operate-deletes capi client now (assemble capi lib client management w).1.session
          changed1 in
      (
        assemble-HasTakenUp capi laws lib client management w done,
        (
          m,
          ap (λ (x : Outcome Return CtrlResult × Whole). whole_deleted x.1)
                (continue-ok (assemble capi lib client management w)
                  (λ _. on_session (operate capi client now)) done)
              ∙ grown
              ∙ ap (λ names. m.name ∷ names) ((assemble-Keeps capi lib client management).at w),
          fit,
        ),
      )
