-- ===== src/Scale/Preflight.antt =====
-- controlplane/controllers/scale.go: preflightChecks, preflightCheckCondition and
-- selectMachineForScaleDown. The events that they record are not modelled.
pub mod Stable
pub mod Selection
use cluster_api_k3s.Prelude.{
  ℕ, String, Bool, true, false, Option, none, some, List, [], ◌∷◌, ◌++◌, any, length, eqb, ltb,
  if◌then◌else◌, ◌==◌,
}
use cluster_api_k3s.Prelude.Exec.{Outcome}
use cluster_api_k3s.Api.{
  Error, pre_condition_failed, Status, condition_true, condition_false, condition_unknown,
  Condition, Machine, Capi, ControlPlane, machine_agent_healthy_condition,
  machine_etcd_member_healthy_condition,
}
use cluster_api_k3s.ControlPlane.{
  is_etcd_managed, has_deleting_machine, machine_with_delete_annotation,
  machine_in_failure_domain_with_most_machines,
}
use cluster_api_k3s.Controllers.{
  CtrlResult, zero_result, requeued_after, delete_requeue_after, preflight_failed_requeue_after,
}

status_error : Status → Option Error
status_error condition_true = none
status_error condition_false = some pre_condition_failed
status_error condition_unknown = some pre_condition_failed

condition_error : Option Condition → Option Error
unfolding status_error
condition_error none = some pre_condition_failed
condition_error (some c) = status_error c.status

module _ (capi : Capi) where
  unfoldable pub preflight_check_condition : Machine → String → Option Error
  unfolding condition_error
  preflight_check_condition m condition =
      condition_error (capi.get_condition m.conditions condition)

  abbrev with_error : Option Error → List Error → List Error
  with_error none errs = errs
  with_error (some e) errs = e ∷ errs

  -- the inner loop, over the conditions of one machine
  condition_errors : Machine → List String → List Error
  unfolding preflight_check_condition
  condition_errors m [] = []
  condition_errors m (c ∷ cs) = with_error (preflight_check_condition m c) (condition_errors m cs)

  -- the outer loop, which leaves the excluded machines out
  machine_errors : List String → List String → List Machine → List Error
  unfolding condition_errors
  machine_errors excluded conditions [] = []
  machine_errors excluded conditions (m ∷ ms) =
      let rest = machine_errors excluded conditions ms in
      if any (λ name. m.name == name) excluded then rest else condition_errors m conditions ++ rest

  unfoldable pub health_conditions : ControlPlane → List String
  unfolding is_etcd_managed
  health_conditions c =
      if is_etcd_managed c
      then machine_agent_healthy_condition ∷ machine_etcd_member_healthy_condition ∷ []
      else machine_agent_healthy_condition ∷ []

  -- The error that is returned beside the result is always nil.
  unfoldable pub preflight_checks : ControlPlane → List String → CtrlResult
  unfolding has_deleting_machine machine_errors health_conditions
  preflight_checks c excluded =
      if eqb (length c.machines) 0
      then zero_result
      else if has_deleting_machine capi c
      then requeued_after delete_requeue_after
      else if ltb 0 (length (machine_errors excluded (health_conditions c) c.machines))
      then requeued_after preflight_failed_requeue_after
      else zero_result

  unfoldable pub candidates_for_scale_down : ControlPlane → List Machine → List Machine
  unfolding machine_with_delete_annotation
  candidates_for_scale_down c outdated =
      if ltb 0 (length (machine_with_delete_annotation capi outdated))
      then machine_with_delete_annotation capi outdated
      else if ltb 0 (length (machine_with_delete_annotation capi c.machines))
      then machine_with_delete_annotation capi c.machines
      else if ltb 0 (length outdated)
      then outdated
      else c.machines

  unfoldable pub select_machine_for_scale_down : ControlPlane → List Machine → Outcome Error Machine
  unfolding candidates_for_scale_down machine_in_failure_domain_with_most_machines
  select_machine_for_scale_down c outdated =
      machine_in_failure_domain_with_most_machines capi c (candidates_for_scale_down c outdated)
