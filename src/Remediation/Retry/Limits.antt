-- ===== src/Remediation/Retry/Limits.antt =====
-- What checkRetryLimits grants, and when.
use cluster_api_k3s.Prelude.{Bool, true, false, Option, none, some, ◌≡◌, refl, ◌⊎◌, arith}
use cluster_api_k3s.Prelude.Int.{
  ℤ, pos, ◌+ℤ◌, ◌-ℤ◌, int64-fits, ◌≤ℤ◌, ◌<ℤ◌, ltb_ℤ, int_laws, ltb_ℤ→≤ℤ, ≤ℤ→ltb_ℤ,
}
use cluster_api_k3s.Prelude.Exec.{ok, err}
use cluster_api_k3s.Api.{
  Machine, RemediationStrategy, RemediationData, Capi, Session, remediation_for_annotation,
}
use cluster_api_k3s.Workload.{annotation}
use cluster_api_k3s.Remediation.Retry.{
  min_healthy_period, retry_period, max_retry, max_duration, minus_twice, next_count,
  last_remediation_time, within_max, limited, check_retry_limits, last_remediation,
}

next_count-le :
    (count max : ℤ) → max <ℤ pos 2147483648 → ltb_ℤ count max ≡ true → next_count count ≤ℤ max
unfolding next_count ltb_ℤ ◌+ℤ◌
next_count-le count max small h = ground arith

max_duration-ge_left : (x y : ℤ) → x ≤ℤ max_duration x y
unfolding max_duration ltb_ℤ
max_duration-ge_left x y = ground arith

max_duration-le : (x y z : ℤ) → x ≤ℤ z → y ≤ℤ z → max_duration x y ≤ℤ z
unfolding max_duration
max_duration-le x y z h k = ground arith

-- 2^62 nanoseconds, 146 years
abbrev pub half_range : ℤ
half_range = pos 4_611_686_018_427_387_904

minus_twice-fits : (d : ℤ) → pos 0 ≤ℤ d → d ≤ℤ half_range → minus_twice d ≡ pos 0 -ℤ d -ℤ d
unfolding minus_twice ◌-ℤ◌
minus_twice-fits d low high = int64-fits (pos 0 -ℤ d -ℤ d) (ground arith) (ground arith)

-- The time taken for a missing timestamp is more than the minimal healthy period ago.
long_ago :
    (strategy : Option RemediationStrategy) (now : ℤ)
    → pos 0 ≤ℤ min_healthy_period strategy
    → min_healthy_period strategy ≤ℤ half_range
    → retry_period strategy ≤ℤ half_range
    → ltb_ℤ now (last_remediation_time strategy now none +ℤ min_healthy_period strategy) ≡ false
unfolding last_remediation_time
long_ago strategy now low high short =
    let healthy = min_healthy_period strategy in
    let longest = max_duration healthy (retry_period strategy) in
    let ge = max_duration-ge_left healthy (retry_period strategy) in
    let le = max_duration-le healthy (retry_period strategy) half_range high short in
    rw (minus_twice-fits longest (omega (arith, ge)) le) (≤ℤ→ltb_ℤ _ _ (omega (int_laws, ge)))

module _ (capi : Capi) (m : Machine) (now : ℤ) where
  -- Whether it grants the remediation or not, the data is about this machine and this moment.
  pub check_retry_limits_info :
      (s : Session) (info : RemediationData) (can : Bool)
      → (check_retry_limits capi m now s).0 ≡ ok (info, can)
      → (info.machine ≡ m.name) × (info.timestamp ≡ some now)
  unfolding check_retry_limits limited within_max
  check_retry_limits_info s info can h = ground arith

  -- What is granted leaves the session as it was.
  pub check_retry_limits_granted :
      (s : Session) (info : RemediationData)
      → (check_retry_limits capi m now s).0 ≡ ok (info, true)
      → (check_retry_limits capi m now s).1 ≡ s
  unfolding check_retry_limits limited within_max
  check_retry_limits_granted s info h = ground arith

  -- Where a maximal number of retries below 2^31 is set, a remediation that is granted has a retry
  -- count of 0 or of at most that number.
  pub check_retry_limits_bounded :
      (s : Session) (info : RemediationData) (max : ℤ)
      → max_retry s.plane.kcp.remediation_strategy ≡ some max
      → max <ℤ pos 2147483648
      → (check_retry_limits capi m now s).0 ≡ ok (info, true)
      → (info.retry_count ≡ pos 0) ⊎ (info.retry_count ≤ℤ max)
  unfolding check_retry_limits limited within_max
  check_retry_limits_bounded s info max e small h =
      elim (last_remediation capi (annotation remediation_for_annotation m.annotations))
          as (λ r.
            last_remediation capi (annotation remediation_for_annotation m.annotations) ≡ r
            → (info.retry_count ≡ pos 0) ⊎ (info.retry_count ≤ℤ max)) [
              | err x ↦ λ p. ground arith
              | ok none ↦ λ p. ground arith
              | ok (some last) ↦ λ p. ground (arith, next_count-le last.retry_count max)
            ]
        refl

  -- A remediation that follows an earlier one is granted only when one of the two periods since then
  -- is over: the minimal healthy period, so that it counts as new, or the retry period.
  pub check_retry_limits_waits :
      (s : Session) (info last : RemediationData) (t : ℤ)
      → last_remediation capi (annotation remediation_for_annotation m.annotations) ≡ ok (some last)
      → last.timestamp ≡ some t
      → (check_retry_limits capi m now s).0 ≡ ok (info, true)
      → (t +ℤ min_healthy_period s.plane.kcp.remediation_strategy ≤ℤ now)
        ⊎ (t +ℤ retry_period s.plane.kcp.remediation_strategy ≤ℤ now)
  unfolding check_retry_limits limited last_remediation_time
  check_retry_limits_waits s info last t found stamp h = ground (
    arith,
    ltb_ℤ→≤ℤ now (t +ℤ min_healthy_period s.plane.kcp.remediation_strategy),
    ltb_ℤ→≤ℤ now (t +ℤ retry_period s.plane.kcp.remediation_strategy),
  )

  -- Where the earlier remediation has lost its timestamp, the minimal healthy period is not negative
  -- and neither period is above 2^62 nanoseconds (146 years), the remediation is granted, as the first
  -- one of a new sequence.
  pub check_retry_limits_no_timestamp :
      (s : Session) (last : RemediationData)
      → last_remediation capi (annotation remediation_for_annotation m.annotations) ≡ ok (some last)
      → last.timestamp ≡ none
      → pos 0 ≤ℤ min_healthy_period s.plane.kcp.remediation_strategy
      → min_healthy_period s.plane.kcp.remediation_strategy ≤ℤ half_range
      → retry_period s.plane.kcp.remediation_strategy ≤ℤ half_range
      → check_retry_limits capi m now s
        ≡ (ok (record { machine = m.name; timestamp = some now; retry_count = pos 0 }, true), s)
  unfolding check_retry_limits limited
  check_retry_limits_no_timestamp s last found stamp healthy high short =
      rw found (
        rw (stamp, limited) (rw (long_ago s.plane.kcp.remediation_strategy now healthy high short)))
