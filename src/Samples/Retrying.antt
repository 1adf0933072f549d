-- ===== src/Samples/Retrying.antt =====
-- A machine that replaced another one is remediated again.
use cluster_api_k3s.Prelude.{true, none, some, [], ◌∷◌, ◌≡◌, ◌⊎◌, refl, arith}
use cluster_api_k3s.Prelude.Int.{pos, ◌+ℤ◌, ◌≤ℤ◌, ltb_ℤ}
use cluster_api_k3s.Prelude.Exec.{ok}
use cluster_api_k3s.Prelude.{lookup}
use cluster_api_k3s.Api.{
  Machine, RemediationStrategy, RemediationData, Session, Capi, remediation_for_annotation,
}
use cluster_api_k3s.Samples.{one, two, three, with_machines, kcp}
use cluster_api_k3s.Samples.Library.{capi}
use cluster_api_k3s.Remediation.Retry.{
  check_retry_limits, last_remediation, min_healthy_period, next_count,
}
use cluster_api_k3s.Remediation.Retry.Limits.{
  check_retry_limits_waits, check_retry_limits_no_timestamp, check_retry_limits_bounded,
}

abbrev replaced : Machine
replaced = record one { annotations = some ((remediation_for_annotation, "m0") ∷ []) }

abbrev last : RemediationData
last = record { machine = "m0"; timestamp = some (pos 0); retry_count = pos 1 }

abbrev again : RemediationData
again = record { machine = "m1"; timestamp = some (pos 10); retry_count = pos 2 }

abbrev strategy : RemediationStrategy
strategy = record { max_retry = some (pos 3); retry_period = pos 5; min_healthy_period = none }

abbrev limited : Session
limited =
    let s = with_machines (replaced ∷ two ∷ three ∷ []) in
    record s {
      plane = record s.plane { kcp = record kcp { remediation_strategy = some strategy } };
    }

check_retry_limits_waits_example :
    (pos 0 +ℤ min_healthy_period (some strategy) ≤ℤ pos 10) ⊎ (pos 0 +ℤ pos 5 ≤ℤ pos 10)
unfolding capi check_retry_limits last_remediation lookup ltb_ℤ ◌+ℤ◌ next_count
check_retry_limits_waits_example =
    check_retry_limits_waits capi replaced (pos 10) limited again last (pos 0) refl refl refl

check_retry_limits_bounded_example : (again.retry_count ≡ pos 0) ⊎ (again.retry_count ≤ℤ pos 3)
unfolding capi check_retry_limits last_remediation lookup ltb_ℤ ◌+ℤ◌ next_count
check_retry_limits_bounded_example =
    check_retry_limits_bounded capi replaced (pos 10) limited again (pos 3) refl (omega arith) refl

abbrev forgetful : Capi
forgetful = record capi { unmarshal = λ t. some (record last { timestamp = none }) }

check_retry_limits_no_timestamp_example : check_retry_limits forgetful replaced (pos 10) limited ≡ (
  ok (record { machine = "m1"; timestamp = some (pos 10); retry_count = pos 0 }, true),
  limited,
)
unfolding capi last_remediation lookup
check_retry_limits_no_timestamp_example =
    check_retry_limits_no_timestamp forgetful replaced (pos 10) limited
      (record last { timestamp = none }) refl refl (omega arith) (omega arith) (omega arith)
