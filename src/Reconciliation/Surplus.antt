-- ===== src/Reconciliation/Surplus.antt =====
-- What an upgrade or a change of size deletes: a machine of a control plane that has more of them
-- than are wanted.
use cluster_api_k3s.Prelude.{
  ℕ, true, Option, none, some, List, [], ◌∷◌, leb, length, ◌<◌, if◌then◌else◌, ◌≡◌, ◌≢◌, inl, inr,
  refl, sym, ap, ◌∙◌, subst, arith, Bool-cases,
}
use cluster_api_k3s.Prelude.Exec.{Outcome, ok, continue}
use cluster_api_k3s.Api.{Condition, Machine, Capi, ControlPlane, Client, Session}
use cluster_api_k3s.Controllers.{is_zero, Handler, CtrlResult, Return}
use cluster_api_k3s.Controllers.Deletions.{deleted}
use cluster_api_k3s.Scale.Preflight.{preflight_checks, select_machine_for_scale_down}
use cluster_api_k3s.Scale.Up.{scale_up_control_plane}
use cluster_api_k3s.Scale.Down.{scale_down_control_plane}
use cluster_api_k3s.Scale.Down.Safety.{scale_down_control_plane-deletes}
use cluster_api_k3s.Scale.Quiet.{scale_up_control_plane-Keeps}
use cluster_api_k3s.Reconciliation.{dereferenced, desired_replicas, upgrade_control_plane}

-- The control plane with other marks on its object.
abbrev pub marked_with : List Condition → Session → ControlPlane
marked_with marks s = record s.plane { kcp = record s.plane.kcp { conditions = marks } }

-- The control plane has more machines than are wanted, and the machine is the one selected to go
-- where these are outdated; a mark on the control plane may have been set since.
pub record IsSurplus (capi : Capi) (outdated : List Machine) (m : Machine) (s : Session)
    : Type 0 where
  pub desired : ℕ
  pub wanted : s.plane.kcp.replicas ≡ some desired
  pub more : desired < length s.plane.machines
  pub marks : List Condition
  pub selected : select_machine_for_scale_down capi (marked_with marks s) outdated ≡ ok m
  pub stable : is_zero (preflight_checks capi (marked_with marks s) (m.name ∷ [])) ≡ true

-- One deletion was called for, of a machine that is surplus.
abbrev pub RemovesSurplus : Capi → List Machine → Session → Session → Type 0
RemovesSurplus capi outdated s t =
    (m : Machine) × (deleted t ≡ m.name ∷ deleted s) × IsSurplus capi outdated m s

module _ (capi : Capi) (client : Client) where
  pub scale_down-RemovesSurplus :
      (outdated : List Machine) (desired : ℕ) (s : Session)
      → s.plane.kcp.replicas ≡ some desired
      → desired < length s.plane.machines
      → deleted (scale_down_control_plane capi client outdated s).1 ≢ deleted s
      → RemovesSurplus capi outdated s (scale_down_control_plane capi client outdated s).1
  scale_down-RemovesSurplus outdated desired s wanted more changed =
      let (m, selected, stable, grown) =
        scale_down_control_plane-deletes capi client outdated s changed in
      (
        m,
        grown,
        record {
          desired = desired;
          wanted = wanted;
          more = more;
          marks = s.plane.kcp.conditions;
          selected = selected;
          stable = stable;
        },
      )

  -- The handler once the replicas are read.
  upgrade_to : ℕ → List Machine → Handler CtrlResult
  upgrade_to desired outdated s =
      (if leb (length s.plane.machines) desired
          then scale_up_control_plane capi client
          else scale_down_control_plane capi client outdated)
        s

  upgrade_to_changed :
      (desired : ℕ) (outdated : List Machine) (s : Session)
      → s.plane.kcp.replicas ≡ some desired
      → deleted (upgrade_to desired outdated s).1 ≢ deleted s
      → RemovesSurplus capi outdated s (upgrade_to desired outdated s).1
  unfolding upgrade_to
  upgrade_to_changed desired outdated s wanted changed =
      elim (Bool-cases (leb (length s.plane.machines) desired)) [
        | inl up ↦ absurd (changed (rw up ((scale_up_control_plane-Keeps capi client).at s)))
        | inr down ↦ rw down (
            scale_down-RemovesSurplus outdated desired s wanted (ground arith)
              (λ e. changed (rw down e)))
      ]

  -- What a handler comes to, for another that comes to the same.
  pub by_equation :
      {outdated : List Machine} {s : Session} (r q : Outcome Return CtrlResult × Session)
      → r ≡ q
      → (deleted q.1 ≢ deleted s → RemovesSurplus capi outdated s q.1)
      → deleted r.1 ≢ deleted s
      → RemovesSurplus capi outdated s r.1
  by_equation {outdated} {s} r q e h changed =
      subst (λ (x : Outcome Return CtrlResult × Session). RemovesSurplus capi outdated s x.1)
        (sym e)
        (h (λ same.
          changed (ap (λ (x : Outcome Return CtrlResult × Session). deleted x.1) e ∙ same)))

  pub desired_replicas-eq :
      (s : Session) (o : Option ℕ)
      → s.plane.kcp.replicas ≡ o
      → desired_replicas capi client s ≡ dereferenced capi client o s
  unfolding desired_replicas
  desired_replicas-eq s o e = ap (λ x. dereferenced capi client x s) e

  pub upgrade_changed :
      (outdated : List Machine) (s : Session) (o : Option ℕ)
      → s.plane.kcp.replicas ≡ o
      → deleted (upgrade_control_plane capi client outdated s).1 ≢ deleted s
      → RemovesSurplus capi outdated s (upgrade_control_plane capi client outdated s).1
  unfolding upgrade_control_plane dereferenced upgrade_to
  upgrade_changed outdated s none e =
      by_equation _ _
        (ap (λ r. continue r (λ n. upgrade_to n outdated)) (desired_replicas-eq s none e))
        (λ changed. absurd (changed refl))
  upgrade_changed outdated s (some n) e =
      by_equation _ _
        (ap (λ r. continue r (λ n. upgrade_to n outdated)) (desired_replicas-eq s (some n) e))
        (upgrade_to_changed n outdated s e)
