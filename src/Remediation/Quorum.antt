-- ===== src/Remediation/Quorum.antt =====
-- getMachineToBeRemediated and canSafelyRemoveEtcdMember of controlplane/controllers/remediation.go.
pub mod Majority
use cluster_api_k3s.Prelude.{
  ℕ, suc, ◌+◌, ◌-◌, ◌/◌, String, Bool, false, Option, none, some, List, [], ◌∷◌, find, leb, not,
  if◌then◌else◌, ◌==◌,
}
use cluster_api_k3s.Prelude.Exec.{Exec, pure, gets, ◌>>=◌, ◌>>◌}
use cluster_api_k3s.Api.{
  Error, Machine, Capi, Client, Session, get_workload_cluster, perform,
  machine_etcd_member_healthy_condition,
}
use cluster_api_k3s.Workload.{is_on_node}
use cluster_api_k3s.Workload.Leaving.{etcd_members}

abbrev is_member_healthy : Capi → Option Machine → Bool
is_member_healthy capi none = false
is_member_healthy capi (some m) = capi.is_true m.conditions machine_etcd_member_healthy_condition

-- `total-unhealthy >= total/2.0 + 1`; the constant 2.0 is an int here.
unfoldable pub keeps_quorum : ℕ × ℕ → Bool
keeps_quorum (total, unhealthy) = leb (total / 2 + 1) (total - unhealthy)

module _ (capi : Capi) where
  or_oldest : Option Machine → List Machine → Option Machine
  or_oldest (some m) machines = some m
  or_oldest none machines = capi.oldest machines

  unfoldable pub get_machine_to_be_remediated : List Machine → Option Machine
  unfolding or_oldest
  get_machine_to_be_remediated machines =
      or_oldest (capi.oldest (capi.filter (λ m. not (capi.has_node m)) machines)) machines

  -- A member with no machine counts as unhealthy.
  unfoldable pub member_is_healthy : List Machine → String → Bool
  member_is_healthy machines member =
      is_member_healthy capi (find (λ m. is_on_node m.node_ref member) machines)

  -- The loop over the members: all of the target cluster, and the unhealthy ones among them.
  unfoldable pub project : List Machine → Option String → List String → ℕ → ℕ → ℕ × ℕ
  unfolding member_is_healthy
  project machines leaving [] total unhealthy = (total, unhealthy)
  project machines leaving (member ∷ members) total unhealthy =
      let skipped = project machines leaving members total unhealthy in
      let counted =
        project machines leaving members (suc total)
          (if member_is_healthy machines member then unhealthy else suc unhealthy) in
      if is_on_node leaving member then skipped else counted

  unfoldable pub can_safely_remove_etcd_member : Client → Machine → Exec Session Error Bool
  unfolding perform etcd_members project keeps_quorum
  can_safely_remove_etcd_member client leaving = do
    perform get_workload_cluster client.get_workload_cluster
    members ← etcd_members client
    machines ← gets (λ s. s.plane.machines)
    pure (keeps_quorum (project machines leaving.node_ref members 0 0))
