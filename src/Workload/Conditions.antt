-- ===== src/Workload/Conditions.antt =====
-- pkg/k3s/workload_cluster.go: how the health of the machines is recorded in their conditions, and
-- what is made of these in the conditions of the control plane. The Go functions return nothing, so
-- that the only stop of their bodies is a `return`.
pub mod Agent
pub mod EtcdHealth
pub mod Cluster
pub mod Aggregate
pub mod Reports
pub mod Coverage
pub mod Consistency
pub mod Inspection
pub mod Outcomes
pub mod Quiet
use cluster_api_k3s.Prelude.{
  ℕ, String, Bool, true, false, Option, none, some, List, [], ◌∷◌, ◌++◌, keep, map, any, is_some,
  not, ltb, length, find, if◌then◌else◌, ◌==◌,
}
use cluster_api_k3s.Prelude.Exec.{Exec, pure, gets, modify, catch, ◌>>=◌, ◌>>◌}
use cluster_api_k3s.Api.{
  Error, Status, condition_true, condition_false, condition_unknown, Condition, Machine, Node, Capi,
  Session, KThreesControlPlane,
}
use cluster_api_k3s.Controllers.{set_condition}
use cluster_api_k3s.Workload.{is_on_node}

-- An error that no machine can report: what the texts in `kcpErrors` say.
pub data KcpError : Type 0 where
  node_without_machine : String → KcpError
  -- the member's id stands in where it has no name yet
  member_without_machine : String → ℕ → KcpError
  machines_reporting_false : List String → KcpError

-- A body with `return` statements.
abbrev pub Body : Type 0 → Type 0
Body A = Exec Session Unit A

abbrev pub run_body : Body Unit → Exec Session Error Unit
run_body m = catch m (λ _. pure tt)

unfoldable pub has_provisioning_machine : List Machine → Bool
has_provisioning_machine machines = any (λ (m : Machine). not (is_some m.node_ref)) machines

abbrev pub machine_on_node : String → List Machine → Option Machine
machine_on_node name machines = find (λ m. is_on_node m.node_ref name) machines

-- The error is left out while a machine is provisioning, which may be the node's.
unfoldable pub unmatched : String → List Machine → List KcpError
unfolding has_provisioning_machine
unmatched name machines =
    if has_provisioning_machine machines then [] else node_without_machine name ∷ []

abbrev same_status : Status → Status → Bool
same_status condition_true s = elim s [ condition_true ↦ true | _ ↦ false ]
same_status condition_false s = elim s [ condition_false ↦ true | _ ↦ false ]
same_status condition_unknown s = elim s [ condition_unknown ↦ true | _ ↦ false ]

abbrev pub has_status : Status → Option Condition → Bool
has_status wanted none = false
has_status wanted (some c) = same_status wanted c.status

-- What is recorded at the control plane, where it is.
abbrev pub Verdict : Type 0
Verdict = Option (Status × String)

module _ (capi : Capi) where
  -- `conditions.Set` on a machine
  unfoldable pub set : {E : Type 0} → Machine → String → Status → String → Exec Session E Unit
  set m type status reason = modify (set_condition capi m type status reason)

  -- MarkTrue, MarkFalse and MarkUnknown of the deprecated conditions, on the control plane
  unfoldable pub mark_kcp : String → Status → String → Session → Session
  mark_kcp type status reason s = record s {
    plane = record s.plane {
      kcp = record s.plane.kcp {
        conditions =
            capi.set_condition_v1beta1 s.plane.kcp.conditions
              (record { type = type; status = status; reason = reason });
      };
    };
  }

  -- One set of the aggregation: the names of the machines of which the condition has the status.
  unfoldable pub reporting : Status → String → List Machine → List String
  reporting status type machines =
      map (λ (m : Machine). m.name)
        (keep (λ m. has_status status (capi.get_condition m.conditions type)) machines)

  unfoldable pub with_false : String → List Machine → List KcpError → List KcpError
  unfolding reporting
  with_false type machines errs =
      if ltb 0 (length (reporting condition_false type machines))
      then errs ++ machines_reporting_false (reporting condition_false type machines) ∷ []
      else errs

  -- The errors first, then true, then unknown. No machine is ever put among those with info, so that
  -- the branch for them is never taken. The callers pass one type of condition.
  unfoldable pub aggregated : String → String → String → List KcpError → List Machine → Verdict
  unfolding with_false
  aggregated type unhealthy_reason unknown_reason errs machines =
      if ltb 0 (length (with_false type machines errs))
      then some (condition_false, unhealthy_reason)
      else if ltb 0 (length (reporting condition_true type machines))
      then some (condition_true, "")
      else if ltb 0 (length (reporting condition_unknown type machines))
      then some (condition_unknown, unknown_reason)
      else none

  unfoldable pub recorded : String → Verdict → Session → Session
  unfolding mark_kcp
  recorded condition none s = s
  recorded condition (some (status, reason)) s = mark_kcp condition status reason s

  unfoldable pub aggregate_from_machines_to_kcp :
      {E : Type 0} → String → String → String → String → List KcpError → Exec Session E Unit
  unfolding recorded aggregated
  aggregate_from_machines_to_kcp type condition unhealthy_reason unknown_reason errs = do
    machines ← gets (λ s. s.plane.machines)
    modify (recorded condition (aggregated type unhealthy_reason unknown_reason errs machines))
