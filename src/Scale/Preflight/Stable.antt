-- ===== src/Scale/Preflight/Stable.antt =====
-- What the preflight checks wait for, and which machine a scale down selects.
use cluster_api_k3s.Prelude.{
  append-nil_left, String, Bool, true, false, Option, none, some, List, [], ◌∷◌, any, length, eqb,
  ltb, if◌then◌else◌, ◌==◌, ◌≡◌, ◌↔◌, ◌⊎◌, inl, inr, refl, arith, Bool-cases,
}
use cluster_api_k3s.Api.{Error, condition_true, Condition, Machine, Capi, ControlPlane}
use cluster_api_k3s.Controllers.{
  CtrlResult, zero_result, requeued_after, delete_requeue_after, preflight_failed_requeue_after,
  is_zero,
}
use cluster_api_k3s.ControlPlane.{has_deleting_machine}
use cluster_api_k3s.Scale.Preflight.{
  status_error, condition_error, preflight_check_condition, condition_errors, machine_errors,
  health_conditions, preflight_checks,
}

-- A condition that is there and true.
abbrev pub Reports : Option Condition → Type 0
Reports none = ⊥
Reports (some c) = c.status ≡ condition_true

abbrev pub AllReport : Capi → Machine → List String → Type 0
AllReport capi m [] = Unit {0}
AllReport capi m (c ∷ cs) = Reports (capi.get_condition m.conditions c) × AllReport capi m cs

-- Every machine that is not excluded reports all the conditions.
abbrev pub AllHealthy : Capi → List String → List String → List Machine → Type 0
AllHealthy capi excluded conditions [] = Unit {0}
AllHealthy capi excluded conditions (m ∷ ms) =
    ((any (λ name. m.name == name) excluded ≡ true) ⊎ AllReport capi m conditions)
    × AllHealthy capi excluded conditions ms

Reports→none : (o : Option Condition) → Reports o → condition_error o ≡ none
unfolding condition_error status_error
Reports→none none h = absurd h
Reports→none (some c) h = rw h

none→Reports : (o : Option Condition) → condition_error o ≡ none → Reports o
unfolding condition_error status_error
none→Reports none h = cc
none→Reports (some c) h = ground arith

abbrev verdict : List Machine → Bool → List Error → CtrlResult
verdict machines deleting errs =
    if eqb (length machines) 0
    then zero_result
    else if deleting
    then requeued_after delete_requeue_after
    else if ltb 0 (length errs)
    then requeued_after preflight_failed_requeue_after
    else zero_result

verdict_passes :
    (machines : List Machine) (deleting : Bool) (errs : List Error)
    → is_zero (verdict machines deleting errs) ≡ true
    → (machines ≡ []) ⊎ ((deleting ≡ false) × (errs ≡ []))
verdict_passes [] deleting errs h = inl refl
verdict_passes (m ∷ ms) true errs h = ground arith
verdict_passes (m ∷ ms) false [] h = inr (refl, refl)
verdict_passes (m ∷ ms) false (e ∷ errs) h = ground arith

passes_verdict :
    (machines : List Machine) (deleting : Bool) (errs : List Error)
    → (machines ≡ []) ⊎ ((deleting ≡ false) × (errs ≡ []))
    → is_zero (verdict machines deleting errs) ≡ true
passes_verdict machines deleting errs (inl h) = rw h
passes_verdict machines deleting errs (inr (h, k)) = rw (h, k) (ground arith)

module _ (capi : Capi) where
  AllReport→nil :
      (m : Machine) (cs : List String) → AllReport capi m cs → condition_errors capi m cs ≡ []
  unfolding condition_errors preflight_check_condition
  AllReport→nil m [] h = refl
  AllReport→nil m (c ∷ cs) h =
      rw (Reports→none (capi.get_condition m.conditions c) h.0) (AllReport→nil m cs h.1)

  nil→AllReport :
      (m : Machine) (cs : List String) → condition_errors capi m cs ≡ [] → AllReport capi m cs
  unfolding condition_errors preflight_check_condition
  nil→AllReport m [] h = tt
  nil→AllReport m (c ∷ cs) h =
      let o = capi.get_condition m.conditions c in
      let none_here : condition_error o ≡ none = ground arith in
      (none→Reports o none_here, nil→AllReport m cs (rw none_here at h))

  AllHealthy→nil :
      (excluded cs : List String) (ms : List Machine)
      → AllHealthy capi excluded cs ms
      → machine_errors capi excluded cs ms ≡ []
  unfolding machine_errors
  AllHealthy→nil excluded cs [] h = refl
  AllHealthy→nil excluded cs (m ∷ ms) h = elim h.0 [
    | inl out ↦ rw out (AllHealthy→nil excluded cs ms h.1)
    | inr fine ↦ rw (AllReport→nil m cs fine) (ground (arith, AllHealthy→nil excluded cs ms h.1))
  ]

  nil→AllHealthy :
      (excluded cs : List String) (ms : List Machine)
      → machine_errors capi excluded cs ms ≡ []
      → AllHealthy capi excluded cs ms
  unfolding machine_errors
  nil→AllHealthy excluded cs [] h = tt
  nil→AllHealthy excluded cs (m ∷ ms) h =
      elim (Bool-cases (any (λ name. m.name == name) excluded)) [
        | inl out ↦ (inl out, nil→AllHealthy excluded cs ms (rw out at h))
        | inr counted ↦
            let (here, later) = append-nil_left _ _ (rw counted at h) in
            (inr (nil→AllReport m cs here), nil→AllHealthy excluded cs ms later)
      ]

  -- The preflight checks pass exactly if there is no machine yet, or none is being deleted and every
  -- machine but the excluded ones reports its agent healthy, and its etcd member where etcd is managed;
  -- whatever the conditions on the control plane itself are, which the comment on the source's function
  -- wants to be true.
  pub preflight_checks_iff :
      (c : ControlPlane) (excluded : List String)
      → (is_zero (preflight_checks capi c excluded) ≡ true) ↔ (
          (c.machines ≡ [])
          ⊎ ((has_deleting_machine capi c ≡ false)
              × AllHealthy capi excluded (health_conditions capi c) c.machines))
  unfolding preflight_checks
  preflight_checks_iff c excluded =
      let conditions = health_conditions capi c in
      let errs = machine_errors capi excluded conditions c.machines in
      let deleting = ltb 0 (length (capi.filter capi.has_deletion_timestamp c.machines)) in
      (
        λ passed. elim (verdict_passes c.machines deleting errs passed) [
          | inl empty ↦ inl empty
          | inr (alive, sound) ↦ inr (alive, nil→AllHealthy excluded conditions c.machines sound)
        ],
        λ stable. passes_verdict c.machines deleting errs (elim stable [
          | inl empty ↦ inl empty
          | inr (alive, healthy) ↦
              inr (alive, AllHealthy→nil excluded conditions c.machines healthy)
        ]),
      )
