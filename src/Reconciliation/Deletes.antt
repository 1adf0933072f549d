-- ===== src/Reconciliation/Deletes.antt =====
-- Which machine a reconciliation deletes, and when.
use cluster_api_k3s.Prelude.{false, ◌∷◌, ◌≡◌, ◌≢◌, ◌⊎◌, inl, inr, refl, ap, ◌∙◌}
use cluster_api_k3s.Prelude.Int.{ℤ}
use cluster_api_k3s.Prelude.Exec.{Outcome, ok, err, continue, ◌>>◌}
use cluster_api_k3s.Prelude.Exec.Keeps.{changed_after, continue-ok}
use cluster_api_k3s.Api.{Machine, Capi, Client, Session}
use cluster_api_k3s.Controllers.{Handler, CtrlResult, Return, returned}
use cluster_api_k3s.Controllers.Deletions.{deleted}
use cluster_api_k3s.ControlPlane.{machines_needing_rollout, healthy_machines}
use cluster_api_k3s.Remediation.Reconcile.{clean_up, reconcile_unhealthy_machines}
use cluster_api_k3s.Remediation.Reconcile.Safety.{
  IsRemediable, reconcile_unhealthy_machines-deletes,
}
use cluster_api_k3s.Reconciliation.{roll_out_or_scale, observe, or_return, unless_done, operate}
use cluster_api_k3s.Reconciliation.Surplus.{IsSurplus}
use cluster_api_k3s.Reconciliation.Resizing.{roll_out_changed}
use cluster_api_k3s.Reconciliation.Quiet.{observe-Keeps}
use cluster_api_k3s.Reconciliation.Ends.{is_err, reconcile_unhealthy_machines-Ends}

module _ (capi : Capi) (client : Client) where
  -- The handler after another, whose result has let it go on or not.
  went_on :
      (o : Outcome Return Unit) (s : Session) (rest : Handler CtrlResult)
      → ((is_err o ≡ false) × (continue (o, s) (λ _. rest) ≡ rest s))
        ⊎ ((continue (o, s) (λ _. rest)).1 ≡ s)
  went_on (ok tt) s rest = inl (refl, refl)
  went_on (err e) s rest = inr refl

  abbrev roll_out : Handler CtrlResult
  roll_out t = roll_out_or_scale capi client (machines_needing_rollout capi t.plane) t

  -- A reconciliation of an assembled control plane, from the update of the conditions to the change
  -- of its size, that calls for a deletion at all calls for one in all. That machine is either the
  -- one remediated, and was fit for it once the conditions and etcd's members were seen to and the
  -- healthy machines cleaned up; or, once the remediation has been seen to, the control plane has more
  -- machines than replicas are wanted, the machine is the one that the scale down selects where the
  -- machines that need a rollout are the outdated ones, and the preflight checks pass without it.
  pub operate-deletes :
      (now : ℤ) (s : Session)
      → deleted (operate capi client now s).1 ≢ deleted s
      → let observed = (observe capi client s).1 in
        let cleaned = (clean_up capi client (healthy_machines capi observed.plane) observed).1 in
        let remediated = (reconcile_unhealthy_machines capi client now observed).1 in
        (m : Machine) × (deleted (operate capi client now s).1 ≡ m.name ∷ deleted s)
        × (IsRemediable capi client now m cleaned
            ⊎ IsSurplus capi (machines_needing_rollout capi remediated.plane) m remediated)
  unfolding operate
  operate-deletes now s changed =
      let (u, seen, changed1) =
        changed_after {view = deleted} (observe capi client)
          (λ _. or_return (reconcile_unhealthy_machines capi client now) >> roll_out) s
          (observe-Keeps capi client) changed in
      let t0 = (observe capi client s).1 in
      let r = reconcile_unhealthy_machines capi client now t0 in
      let whole =
        ap (λ (x : Outcome Return CtrlResult × Session). deleted x.1)
          (continue-ok (observe capi client s)
            (λ _. or_return (reconcile_unhealthy_machines capi client now) >> roll_out) seen) in
      let quiet = (observe-Keeps capi client).at s in
      elim (went_on (unless_done (returned r.0)) r.1 roll_out) [
        | inl (goes, eq) ↦
            let kept = (reconcile_unhealthy_machines-Ends capi client now).at t0 goes in
            let (m, grown, x) =
              roll_out_changed capi client (machines_needing_rollout capi (r.1).plane) r.1 (λ same.
                changed1 (
                  ap (λ (x : Outcome Return CtrlResult × Session). deleted x.1) eq
                  ∙ same
                  ∙ kept)) in
            (
              m,
              whole
                  ∙ ap (λ (x : Outcome Return CtrlResult × Session). deleted x.1) eq
                  ∙ grown
                  ∙ ap (λ names. m.name ∷ names) (kept ∙ quiet),
              inr x,
            )
        | inr eq ↦
            let (m, grown, fit) =
              reconcile_unhealthy_machines-deletes capi client now t0
                (λ same. changed1 (ap deleted eq ∙ same)) in
            (m, whole ∙ ap deleted eq ∙ grown ∙ ap (λ names. m.name ∷ names) quiet, inl fit)
      ]
