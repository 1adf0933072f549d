-- ===== src/Remediation/Retry.antt =====
-- checkRetryLimits of controlplane/controllers/remediation.go. Times and durations are nanoseconds
-- as integers without a bound (Go's reach some 290 years), but the doubling of a period wraps around
-- as Go's does; the retry count is Go's `int`, of 64 bits.
pub mod Quiet
pub mod Limits
use cluster_api_k3s.Prelude.{String, Bool, true, false, Option, none, some, not, if◌then◌else◌}
use cluster_api_k3s.Prelude.Exec.{Exec, Outcome, ok, err, pure, gets, lift, modify, ◌>>=◌, ◌>>◌}
use cluster_api_k3s.Prelude.Int.{ℤ, pos, negsuc, int64, ◌+ℤ◌, ◌-ℤ◌, ltb_ℤ}
use cluster_api_k3s.Api.{
  Error, other, condition_false, Machine, RemediationStrategy, RemediationData, Capi, Session,
  remediation_for_annotation,
}
use cluster_api_k3s.Controllers.{set_condition}
use cluster_api_k3s.Workload.{annotation}

abbrev pub machine_owner_remediated_condition : String
machine_owner_remediated_condition = "OwnerRemediated"

abbrev pub default_min_healthy_period : ℤ
default_min_healthy_period = pos 3_600_000_000_000

unfoldable pub max_duration : ℤ → ℤ → ℤ
max_duration x y = if ltb_ℤ x y then y else x

-- `RetryCount++` on an int64
unfoldable pub next_count : ℤ → ℤ
next_count n =
    if ltb_ℤ n (pos 9_223_372_036_854_775_807) then n +ℤ pos 1 else negsuc 9_223_372_036_854_775_807

abbrev pub min_healthy_period : Option RemediationStrategy → ℤ
min_healthy_period none = default_min_healthy_period
min_healthy_period (some s) = elim s.min_healthy_period [
  | none ↦ default_min_healthy_period
  | some d ↦ d
]

abbrev pub retry_period : Option RemediationStrategy → ℤ
retry_period none = pos 0
retry_period (some s) = s.retry_period

abbrev pub max_retry : Option RemediationStrategy → Option ℤ
max_retry none = none
max_retry (some s) = s.max_retry

-- `-2 * d` on an int64, which wraps around for a period of more than 2^62 nanoseconds (146 years).
unfoldable pub minus_twice : ℤ → ℤ
minus_twice d = int64 (pos 0 -ℤ d -ℤ d)

-- A missing timestamp is taken to be so long ago that both periods are over.
unfoldable pub last_remediation_time : Option RemediationStrategy → ℤ → Option ℤ → ℤ
unfolding max_duration minus_twice
last_remediation_time strategy now none =
    now +ℤ minus_twice (max_duration (min_healthy_period strategy) (retry_period strategy))
last_remediation_time strategy now (some t) = t

module _ (capi : Capi) where
  abbrev unmarshalled : Option RemediationData → Outcome Error (Option RemediationData)
  unmarshalled none = err (other "failed to unmarshal value")
  unmarshalled (some d) = ok (some d)

  -- RemediationDataFromAnnotation, on the annotation if it is there
  unfoldable pub last_remediation : Option String → Outcome Error (Option RemediationData)
  last_remediation none = ok none
  last_remediation (some value) = unmarshalled (capi.unmarshal value)

  waiting : Machine → Session → Session
  unfolding set_condition
  waiting m =
      set_condition capi m machine_owner_remediated_condition condition_false
        "WaitingForRemediation"

  abbrev first_try : Machine → ℤ → RemediationData
  first_try m now = record { machine = m.name; timestamp = some now; retry_count = pos 0 }

  abbrev retry : Machine → ℤ → ℤ → RemediationData
  retry m now count = record { machine = m.name; timestamp = some now; retry_count = count }

  within_max : Machine → ℤ → ℤ → Option ℤ → Exec Session Error (RemediationData × Bool)
  unfolding waiting next_count
  within_max m now count none = pure (retry m now (next_count count), true)
  within_max m now count (some max) =
      if not (ltb_ℤ count max)
      then (do modify (waiting m); pure (retry m now count, false))
      else pure (retry m now (next_count count), true)

  limited :
      Machine
      → ℤ
      → Option RemediationStrategy
      → Option RemediationData
      → Exec Session Error (RemediationData × Bool)
  unfolding last_remediation_time within_max
  limited m now strategy none = pure (first_try m now, true)
  limited m now strategy (some last) =
      let time = last_remediation_time strategy now last.timestamp in
      if not (ltb_ℤ now (time +ℤ min_healthy_period strategy))
      then pure (first_try m now, true)
      else if ltb_ℤ now (time +ℤ retry_period strategy)
      then (do modify (waiting m); pure (retry m now last.retry_count, false))
      else within_max m now last.retry_count (max_retry strategy)

  -- The data of the remediation that starts now, and whether it may start.
  unfoldable pub check_retry_limits : Machine → ℤ → Exec Session Error (RemediationData × Bool)
  unfolding last_remediation limited
  check_retry_limits m now = do
    strategy ← gets (λ s. s.plane.kcp.remediation_strategy)
    last ← lift (last_remediation (annotation remediation_for_annotation m.annotations))
    limited m now strategy last
