-- ===== src/Remediation/Retry/Quiet.antt =====
-- checkRetryLimits deletes no machine.
use cluster_api_k3s.Prelude.{arith, Option, none, some, ◌≡◌, refl}
use cluster_api_k3s.Prelude.Int.{ℤ}
use cluster_api_k3s.Prelude.Exec.Keeps.{Keeps, keeps_rules}
use cluster_api_k3s.Api.{Machine, Capi, Session, RemediationStrategy, RemediationData}
use cluster_api_k3s.Controllers.Deletions.{deleted}
use cluster_api_k3s.Remediation.Retry.{waiting, within_max, limited, check_retry_limits}

module _ (capi : Capi) where
  deleted-waiting : (m : Machine) (s : Session) → deleted (waiting capi m s) ≡ deleted s
  unfolding waiting
  deleted-waiting m s = refl

  within_max-Keeps :
      (m : Machine) (now count : ℤ) (max : Option ℤ)
      → Keeps deleted (within_max capi m now count max)
  unfolding within_max
  within_max-Keeps m now count none = search keeps_rules
  within_max-Keeps m now count (some max) = record { at = λ s. ground arith }

  limited-Keeps :
      (m : Machine) (now : ℤ) (strategy : Option RemediationStrategy)
      (last : Option RemediationData)
      → Keeps deleted (limited capi m now strategy last)
  unfolding limited
  limited-Keeps m now strategy none = search keeps_rules
  limited-Keeps m now strategy (some last) = search (keeps_rules, deleted-waiting, within_max-Keeps)

  pub check_retry_limits-Keeps :
      (m : Machine) (now : ℤ) → Keeps deleted (check_retry_limits capi m now)
  unfolding check_retry_limits
  check_retry_limits-Keeps m now = search (keeps_rules, limited-Keeps)
