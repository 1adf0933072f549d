-- ===== src/Workload/Conditions/Aggregate.antt =====
-- What aggregateFromMachinesToKCP makes of the machines' conditions.
use cluster_api_k3s.Prelude.{
  String, Bool, true, false, List, some, none, [], ◌∷◌, any, ltb, length, ◌≡◌, ◌↔◌, refl, sym, ap,
  ◌∙◌, arith, if◌then◌else◌,
}
use cluster_api_k3s.Api.{Status, condition_true, condition_false, condition_unknown, Machine, Capi}
use cluster_api_k3s.Workload.Conditions.{
  KcpError, Verdict, has_status, reporting, with_false, aggregated,
}

-- The choice of `aggregated`, on its three tests.
abbrev chosen : Bool → Bool → Bool → String → String → Verdict
chosen e t u unhealthy_reason unknown_reason =
    if e
    then some (condition_false, unhealthy_reason)
    else if t
    then some (condition_true, "")
    else if u
    then some (condition_unknown, unknown_reason)
    else none

chosen_true :
    (e t u : Bool) (unhealthy_reason unknown_reason reason : String)
    → chosen e t u unhealthy_reason unknown_reason ≡ some (condition_true, reason)
    → (e ≡ false) × (t ≡ true)
chosen_true true t u a b r h = cc
chosen_true false true u a b r h = (refl, refl)
chosen_true false false true a b r h = cc
chosen_true false false false a b r h = cc

chosen_by :
    {e t : Bool} (u : Bool) (unhealthy_reason unknown_reason : String)
    → e ≡ false
    → t ≡ true
    → chosen e t u unhealthy_reason unknown_reason ≡ some (condition_true, "")
chosen_by {e} {t} u unhealthy_reason unknown_reason he ht =
    ap (λ x. chosen x t u unhealthy_reason unknown_reason) he
    ∙ ap (λ x. chosen false x u unhealthy_reason unknown_reason) ht

module _ (capi : Capi) where
  abbrev pub has : Status → String → Machine → Bool
  has status type m = has_status status (capi.get_condition m.conditions type)

  -- A set of the aggregation has a name in it if a machine reports the status.
  pub reporting-any :
      (status : Status) (type : String) (ms : List Machine)
      → ltb 0 (length (reporting capi status type ms)) ≡ any (has status type) ms
  unfolding reporting
  reporting-any status type [] = refl
  reporting-any status type (m ∷ ms) = ground (arith, reporting-any status type ms)

  -- No errors are left if there were none and no machine reports false.
  pub with_false-none :
      (type : String) (ms : List Machine) (errs : List KcpError)
      → ltb 0 (length (with_false capi type ms errs)) ≡ false
      → (errs ≡ []) × (any (has condition_false type) ms ≡ false)
  unfolding with_false
  with_false-none type ms [] h = (refl, ground (arith, reporting-any condition_false type ms))
  with_false-none type ms (e ∷ errs) h = ground (arith, reporting-any condition_false type ms)

  with_false-empty :
      (type : String) (ms : List Machine)
      → any (has condition_false type) ms ≡ false
      → with_false capi type ms [] ≡ []
  unfolding with_false
  with_false-empty type ms h = ground (arith, reporting-any condition_false type ms)

  pub aggregated-true :
      (type unhealthy_reason unknown_reason reason : String) (errs : List KcpError)
      (ms : List Machine)
      → aggregated capi type unhealthy_reason unknown_reason errs ms ≡ some (condition_true, reason)
      → (errs ≡ [])
        × (any (has condition_false type) ms ≡ false)
        × (any (has condition_true type) ms ≡ true)
  unfolding aggregated
  aggregated-true type unhealthy_reason unknown_reason reason errs ms h =
      let (no_error, some_true) = chosen_true _ _ _ unhealthy_reason unknown_reason reason h in
      let (none_before, none_false) = with_false-none type ms errs no_error in
      (none_before, none_false, sym (reporting-any condition_true type ms) ∙ some_true)

  -- The aggregation marks the control plane's condition True exactly if there is no error that no
  -- machine can report, no machine's condition is False, and some machine's condition is True; an
  -- unknown one does not hold it back.
  pub aggregated_iff :
      (type unhealthy_reason unknown_reason : String) (errs : List KcpError) (ms : List Machine)
      → (aggregated capi type unhealthy_reason unknown_reason errs ms ≡ some (condition_true, ""))
        ↔ ((errs ≡ [])
            × (any (has condition_false type) ms ≡ false)
            × (any (has condition_true type) ms ≡ true))
  unfolding aggregated
  aggregated_iff type unhealthy_reason unknown_reason errs ms = (
    aggregated-true type unhealthy_reason unknown_reason "" errs ms,
    λ (none_before, none_false, some_true).
        ap (λ es. aggregated capi type unhealthy_reason unknown_reason es ms) none_before
        ∙ chosen_by _ unhealthy_reason unknown_reason
            (ap (λ es. ltb 0 (length es)) (with_false-empty type ms none_false))
            (reporting-any condition_true type ms ∙ some_true),
  )
