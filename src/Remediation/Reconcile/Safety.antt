-- ===== src/Remediation/Reconcile/Safety.antt =====
-- When reconcileUnhealthyMachines deletes a machine.
use cluster_api_k3s.Prelude.{
  Bool, true, false, Option, none, some, List, [], ◌∷◌, lookup, length, is_some, eqb, if◌then◌else◌,
  Bool-cases, ◌≡◌, ◌≢◌, refl, subst, ◌∙◌, ap, arith, inl, inr,
}
use cluster_api_k3s.Prelude.Exec.{Outcome, ok, err, handled, ◌>>◌}
use cluster_api_k3s.Prelude.Exec.Keeps.{continue-ok, changed_after, keeps_rules}
use cluster_api_k3s.Prelude.Int.{ℤ}
use cluster_api_k3s.Api.{
  Error, Machine, RemediationData, Capi, Client, Session, patch_machine,
  remediation_in_progress_annotation,
}
use cluster_api_k3s.Controllers.{
  CtrlResult, Return, Handler, current, finish, zero_result, fail, or_fail,
}
use cluster_api_k3s.Controllers.Deletions.{deleted}
use cluster_api_k3s.ControlPlane.{unhealthy_machines, healthy_machines}
use cluster_api_k3s.Remediation.Retry.{check_retry_limits}
use cluster_api_k3s.Remediation.Quorum.{get_machine_to_be_remediated}
use cluster_api_k3s.Remediation.Reconcile.{
  new_helper, remediate, deferred, deferred_patch, patched_back, remediate_machine, clean_up,
  unless_errors, reconcile_unhealthy_machines,
}
use cluster_api_k3s.Remediation.Reconcile.Quiet.{
  clean_up-Keeps, unless_errors-Keeps, new_helper-Keeps,
}
use cluster_api_k3s.Remediation.Reconcile.Checked.{IsStable, preflight_ok, remediate_changed}

-- What has to hold of a machine, in the session that its remediation starts from. The retry limits
-- and the quorum are checked in the session after the call for the patch helper.
pub record IsRemediable (capi : Capi) (client : Client) (now : ℤ) (m : Machine) (s : Session)
    : Type 0 where
  pub chosen : get_machine_to_be_remediated capi (unhealthy_machines capi s.plane) ≡ some m
  pub not_deleting : m.deleting ≡ false
  pub none_in_progress :
      is_some (lookup remediation_in_progress_annotation s.plane.kcp.annotations) ≡ false
  pub same_plane : (or_fail {A = Unit} (new_helper capi client m) s).1.plane ≡ s.plane
  pub granted :
      (info : RemediationData) × ((check_retry_limits capi m now
          (or_fail {A = Unit} (new_helper capi client m) s).1).0
        ≡ ok (info, true))
  pub stable :
      s.plane.kcp.initialized ≡ true
      → IsStable capi client m (or_fail {A = Unit} (new_helper capi client m) s).1

module _ (capi : Capi) (client : Client) where
  -- The deferred patch adds no deletion.
  patched_back-deleted :
      (o : Option Error) (r : Outcome Return CtrlResult × Session)
      → deleted (patched_back o r).1 ≡ deleted r.1
  patched_back-deleted none r = refl
  patched_back-deleted (some e) (o, s) = refl

  deferred_patch-deleted :
      (m : Machine) (r : Outcome Return CtrlResult × Session)
      → deleted (deferred_patch capi client m r).1 ≡ deleted r.1
  unfolding deferred_patch
  deferred_patch-deleted m (o, s) =
      let now = current m s.machines in
      patched_back-deleted (client.patch_machine s.trace now)
        (o, record s { trace = patch_machine now ∷ s.trace })

  -- The deferred patch and the call for its helper add no deletion to the remediation.
  deferred_changed :
      (m : Machine) (now : ℤ) (s : Session)
      → let r =
          (or_fail (new_helper capi client m)
              >> deferred capi client m (remediate capi client m now))
            s in
        deleted r.1 ≢ deleted s
        → let s' = (or_fail (new_helper capi client m) s).1 in
          (deleted r.1 ≡ deleted (remediate capi client m now s').1)
          × (deleted (remediate capi client m now s').1 ≢ deleted s')
  unfolding deferred
  deferred_changed m now s changed =
      let body = deferred capi client m (remediate capi client m now) in
      let start = or_fail (new_helper capi client m) in
      let s' = (start s).1 in
      let (u, passed, grown) =
        changed_after {view = deleted} start (λ _. body) s (search (keeps_rules, new_helper-Keeps))
          changed in
      let same = deferred_patch-deleted m (remediate capi client m now s') in
      (
        ap (λ r. deleted r.1) (continue-ok (start s) (λ _. body) passed) ∙ same,
        λ e. grown (same ∙ e),
      )

  remediate_machine_guards :
      (m : Machine) (now : ℤ) (s : Session)
      → deleted (remediate_machine capi client now (some m) s).1 ≢ deleted s
      → (m.deleting ≡ false)
        × (is_some (lookup remediation_in_progress_annotation s.plane.kcp.annotations) ≡ false)
  unfolding remediate_machine
  remediate_machine_guards m now s changed = ground arith

  or_fail-state : {A : Type 0} (r : Outcome Error A × Session) → (handled r (fail {A = A})).1 ≡ r.1
  or_fail-state (ok a, s) = refl
  or_fail-state (err e, s) = refl

  -- The session in which a remediation begins has the control plane that its machine was chosen from.
  new_helper-plane :
      (m : Machine) (s : Session) → (or_fail (new_helper capi client m) s).1.plane ≡ s.plane
  unfolding new_helper
  new_helper-plane m s = ap (λ (t : Session). t.plane) (or_fail-state (new_helper capi client m s))

  deleted-new_helper :
      (m : Machine) (s : Session) → deleted (or_fail (new_helper capi client m) s).1 ≡ deleted s
  unfolding new_helper
  deleted-new_helper m s = ap (λ t. deleted t) (or_fail-state (new_helper capi client m s))

  last_branch :
      {A : Type 0} (a b : Bool) (x y z : A)
      → a ≡ false
      → b ≡ false
      → (if a then x else if b then y else z) ≡ z
  last_branch a b x y z p q = rw (p, q)

  remediate_machine_rest :
      (m : Machine) (now : ℤ) (s : Session)
      → m.deleting ≡ false
      → is_some (lookup remediation_in_progress_annotation s.plane.kcp.annotations) ≡ false
      → remediate_machine capi client now (some m) s
        ≡ (or_fail (new_helper capi client m)
              >> deferred capi client m (remediate capi client m now))
            s
  unfolding remediate_machine
  remediate_machine_rest m now s alive free =
      ap (λ (h : Handler CtrlResult). h s) (last_branch _ _ _ _ _ alive free)

  remediate_machine_changed :
      (m : Machine) (now : ℤ) (s : Session)
      → get_machine_to_be_remediated capi (unhealthy_machines capi s.plane) ≡ some m
      → deleted (remediate_machine capi client now (some m) s).1 ≢ deleted s
      → (deleted (remediate_machine capi client now (some m) s).1 ≡ m.name ∷ deleted s)
        × IsRemediable capi client now m s
  remediate_machine_changed m now s chosen changed =
      let (alive, free) = remediate_machine_guards m now s changed in
      let rest = remediate_machine_rest m now s alive free in
      let (same, grown) = deferred_changed m now s (λ e. changed (rw rest e)) in
      let s' = (or_fail (new_helper capi client m) s).1 in
      let (info, granted, passed, deletes) = remediate_changed capi client m now s' grown in
      (
        ap (λ r. deleted r.1) rest
            ∙ same
            ∙ deletes
            ∙ ap (λ names. m.name ∷ names) (deleted-new_helper m s),
        record {
          chosen = chosen;
          not_deleting = alive;
          none_in_progress = free;
          same_plane = new_helper-plane m s;
          granted = (info, granted);
          stable = λ init. preflight_ok capi client m s' passed (rw (new_helper-plane m s) init);
        },
      )

  reconcile_chosen :
      (now : ℤ) (s : Session) (o : Option Machine)
      → get_machine_to_be_remediated capi (unhealthy_machines capi s.plane) ≡ o
      → deleted (remediate_machine capi client now o s).1 ≢ deleted s
      → (m : Machine) × (deleted (remediate_machine capi client now o s).1 ≡ m.name ∷ deleted s)
        × IsRemediable capi client now m s
  reconcile_chosen now s none e changed = absurd (changed (unfold remediate_machine in refl))
  reconcile_chosen now s (some m) e changed =
      let (grown, fit) = remediate_machine_changed m now s e changed in (m, grown, fit)

  unless_errors-state : (errs : List Error) (s : Session) → (unless_errors capi client errs s).1 ≡ s
  unfolding unless_errors
  unless_errors-state [] s = refl
  unless_errors-state (e ∷ errs) s = refl

  selected : ℤ → Session → Outcome Return CtrlResult × Session
  selected now s =
      let unhealthy = unhealthy_machines capi s.plane in
      (if eqb (length unhealthy) 0
          then finish zero_result
          else remediate_machine capi client now (get_machine_to_be_remediated capi unhealthy))
        s

  selected_changed :
      (now : ℤ) (s : Session)
      → deleted (selected now s).1 ≢ deleted s
      → (m : Machine) × (deleted (selected now s).1 ≡ m.name ∷ deleted s)
        × IsRemediable capi client now m s
  unfolding selected
  selected_changed now s changed =
      elim (Bool-cases (eqb (length (unhealthy_machines capi s.plane)) 0)) [
        | inl z ↦ absurd (changed (rw z))
        | inr z ↦
            let (m, grown, fit) = reconcile_chosen now s _ refl (λ e. changed (rw z e)) in
            (m, rw z grown, fit)
      ]

  -- A reconciliation that calls for a deletion at all calls for one, of the machine that
  -- getMachineToBeRemediated chooses. In the session after the clean-up of the healthy machines that
  -- machine is not being deleted, no remediation is in progress and, after the call for the patch
  -- helper, the retry limits grant the remediation. If the control plane is initialized, it has then
  -- more than one machine, no healthy one without a node and none being deleted; and where etcd is
  -- managed, the removal of the machine's member is found safe.
  pub reconcile_unhealthy_machines-deletes :
      (now : ℤ) (s : Session)
      → deleted (reconcile_unhealthy_machines capi client now s).1 ≢ deleted s
      → let cleaned = (clean_up capi client (healthy_machines capi s.plane) s).1 in
        (m : Machine) × (deleted (reconcile_unhealthy_machines capi client now s).1
          ≡ m.name ∷ deleted s)
        × IsRemediable capi client now m cleaned
  unfolding reconcile_unhealthy_machines selected unless_errors
  reconcile_unhealthy_machines-deletes now s changed =
      let healthy = healthy_machines capi s.plane in
      let first = clean_up capi client healthy in
      let s1 = (first s).1 in
      let (errs, e1, changed1) =
        changed_after {view = deleted} first
          (λ errs. unless_errors capi client errs >> selected now) s
          (clean_up-Keeps capi client healthy) changed in
      let (u, e2, changed2) =
        changed_after {view = deleted} (unless_errors capi client errs) (λ _. selected now) s1
          (unless_errors-Keeps capi client errs) changed1 in
      let s2 = (unless_errors capi client errs s1).1 in
      let (m, grown, fit) = selected_changed now s2 changed2 in
      let deleted_s2 =
        (unless_errors-Keeps capi client errs).at s1 ∙ (clean_up-Keeps capi client healthy).at s in
      (
        m,
        ap (λ r. deleted r.1)
              (continue-ok (first s) (λ errs. unless_errors capi client errs >> selected now) e1
                ∙ continue-ok (unless_errors capi client errs s1) (λ _. selected now) e2)
            ∙ grown
            ∙ ap (λ names. m.name ∷ names) deleted_s2,
        subst (λ t. IsRemediable capi client now m t) (unless_errors-state errs s1) fit,
      )
