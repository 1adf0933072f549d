-- ===== src/Controllers.antt =====
-- What the handlers of controlplane/controllers share: their return values, the updates of the
-- objects in memory, and controlplane/controllers/const.go.
pub mod Deletions
use cluster_api_k3s.Prelude.{
  ℕ, String, Bool, true, false, Option, none, some, List, [], ◌∷◌, not, eqb, if◌then◌else◌, ◌==◌,
  ◌&&◌,
}
use cluster_api_k3s.Prelude.Exec.{Exec, Outcome, ok, err, stop, catch}
use cluster_api_k3s.Api.{Error, Status, Machine, Capi, Session}

-- ctrl.Result, with the delay in seconds
pub record CtrlResult : Type 0 where
  pub requeue : Bool
  pub requeue_after : ℕ

abbrev pub zero_result : CtrlResult
zero_result = record { requeue = false; requeue_after = 0 }

abbrev pub requeued : CtrlResult
requeued = record { requeue = true; requeue_after = 0 }

abbrev pub requeued_after : ℕ → CtrlResult
requeued_after n = record { requeue = false; requeue_after = n }

abbrev pub is_zero : CtrlResult → Bool
is_zero r = not r.requeue && eqb r.requeue_after 0

-- What a handler returns early: a result and an error, none for nil.
abbrev pub Return : Type 0
Return = CtrlResult × Option Error

abbrev pub Handler : Type 0 → Type 0
Handler A = Exec Session Return A

-- `return result, nil` and `return ctrl.Result{}, err`
abbrev pub finish : {A : Type 0} → CtrlResult → Handler A
finish r = stop (r, none)

abbrev pub fail : {A : Type 0} → Error → Handler A
fail e = stop (zero_result, some e)

-- `if err := m(); err != nil { return ctrl.Result{}, err }`
abbrev pub or_fail : {A : Type 0} → Exec Session Error A → Handler A
or_fail m = catch m fail

-- What the caller of a handler gets.
abbrev pub returned : Outcome Return CtrlResult → Return
returned (ok r) = (r, none)
returned (err r) = r

abbrev pub delete_requeue_after : ℕ
delete_requeue_after = 30

abbrev pub preflight_failed_requeue_after : ℕ
preflight_failed_requeue_after = 15

abbrev pub etcd_removal_requeue_after : ℕ
etcd_removal_requeue_after = 30

abbrev pub k3s_hook_name : String
k3s_hook_name = "k3s"

abbrev pub pre_terminate_hook : String
pre_terminate_hook = "pre-terminate.delete.hook.machine.cluster.x-k8s.io"

-- The machines are shared by pointer: an update of one is seen wherever it is read by its name.
unfoldable pub replace : Machine → List Machine → List Machine
replace m [] = []
replace m (x ∷ xs) = (if x.name == m.name then m else x) ∷ replace m xs

-- The machine as it is now, or as it was handed over where the control plane does not hold it.
unfoldable pub current : Machine → List Machine → Machine
current m [] = m
current m (x ∷ xs) = if x.name == m.name then x else current m xs

abbrev pub with_machines : List Machine → Session → Session
with_machines ms s = record s { plane = record s.plane { machines = ms } }

unfoldable pub store : Machine → Session → Session
unfolding replace
store m s = with_machines (replace m s.machines) s

-- `conditions.Set(m, ...)`
unfoldable pub set_condition : Capi → Machine → String → Status → String → Session → Session
unfolding store current
set_condition capi m type status reason s =
    let now = current m s.machines in
    store
      (record now {
        conditions =
            capi.set_condition now.conditions
              (record { type = type; status = status; reason = reason });
      })
      s
