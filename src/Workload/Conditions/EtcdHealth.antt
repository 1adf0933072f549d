-- ===== src/Workload/Conditions/EtcdHealth.antt =====
-- pkg/k3s/workload_cluster.go: updateManagedEtcdConditions.
use cluster_api_k3s.Prelude.{
  ℕ, String, Bool, true, false, Option, none, some, List, [], ◌∷◌, ◌++◌, any, is_some, not, ltb,
  eqb, length, if◌then◌else◌, ◌==◌,
}
use cluster_api_k3s.Prelude.Exec.{
  Exec, Outcome, ok, err, pure, stop, gets, modify, catch, attempt, ◌>>=◌, ◌>>◌,
}
use cluster_api_k3s.Api.{
  Error, Status, condition_true, condition_false, condition_unknown, Machine, Node, Member, Capi,
  Client, Session, machine_etcd_member_healthy_condition, etcd_cluster_healthy_condition,
}
use cluster_api_k3s.Etcd.{node_name_from_member, member_for_name, member_equal}
use cluster_api_k3s.Workload.{find_last, is_on_node, get_control_plane_nodes, dial_first, members}
use cluster_api_k3s.Workload.Conditions.{
  KcpError, member_without_machine, Body, run_body, machine_on_node, unmatched, set, mark_kcp,
  aggregate_from_machines_to_kcp,
}

-- `clusterID` and `members`: what the first member that answered has told.
pub record Baseline : Type 0 where
  pub cluster_id : Option ℕ
  pub known_members : Option (List Member)

abbrev pub nothing_known : Baseline
nothing_known = record { cluster_id = none; known_members = none }

abbrev pub or_first {ℓ} : {A : Type ℓ} → Option A → A → A
or_first none first = first
or_first (some a) first = a

-- An alarm of another type than AlarmOK, whose number is 0.
unfoldable pub has_alarm : Member → Bool
has_alarm m = any (λ a. not (eqb a 0)) m.alarms

unfoldable pub has_member : List Member → String → Bool
unfolding node_name_from_member
has_member ms name = any (λ m. name == node_name_from_member m) ms

unfoldable pub lacks_member : List Member → Machine → Bool
unfolding has_member
lacks_member ms m = elim m.node_ref [ none ↦ false | some name ↦ not (has_member ms name) ]

-- The second loop of compareMachinesAndMembers.
unfoldable pub members_without_machine : List Machine → List Member → List KcpError
unfolding node_name_from_member
members_without_machine machines [] = []
members_without_machine machines (x ∷ xs) =
    let rest = members_without_machine machines xs in
    if is_some (machine_on_node (node_name_from_member x) machines)
    then rest
    else member_without_machine (node_name_from_member x) x.id ∷ rest

same_cluster : Baseline → ℕ → Baseline × Bool
same_cluster b id =
    let first = or_first b.cluster_id id in (record b { cluster_id = some first }, eqb first id)

check_found : Baseline → Option Member → Baseline × Bool
unfolding same_cluster
check_found b none = (b, false)
check_found b (some m) = if has_alarm m then (b, false) else same_cluster b m.cluster_id

module _ (capi : Capi) where
  -- Whether the member of the node is healthy, and the baseline after it.
  unfoldable pub check_member : Baseline → String → List Member → Baseline × Bool
  unfolding check_found member_equal
  check_member b name current =
      let first = or_first b.known_members current in
      let seen = record b { known_members = some first } in
      if not (member_equal capi first current)
      then (seen, false)
      else check_found seen (member_for_name current name)

  unfoldable pub set_etcd : {E : Type 0} → Machine → Status → String → Exec Session E Unit
  unfolding set
  set_etcd m status reason = set capi m machine_etcd_member_healthy_condition status reason

  unfoldable pub checked : Machine → Baseline × Bool → Body Baseline
  unfolding set_etcd
  checked m (b, true) = do set_etcd m condition_true "EtcdMemberHealthy"; pure b
  checked m (b, false) = do set_etcd m condition_false "EtcdMemberUnhealthy"; pure b

  unfoldable pub report_lacking : List Member → List Machine → Body Unit
  unfolding set_etcd
  report_lacking ms [] = pure tt
  report_lacking ms (m ∷ machines) = do
    if lacks_member ms m then set_etcd m condition_false "EtcdMemberUnhealthy" else pure tt
    report_lacking ms machines

  -- Nothing is compared where no member has answered.
  unfoldable pub compare_machines_and_members :
      Option (List Member) → List KcpError → Body (List KcpError)
  unfolding report_lacking members_without_machine
  compare_machines_and_members none errs = pure errs
  compare_machines_and_members (some ms) errs = do
    machines ← gets (λ s. s.plane.machines)
    report_lacking ms machines
    pure (errs ++ members_without_machine machines ms)

  -- From the baseline on: the comparison and the aggregation.
  unfoldable pub conclude : Baseline × List KcpError → Body Unit
  unfolding compare_machines_and_members aggregate_from_machines_to_kcp
  conclude (b, errs) = do
    all_errs ← compare_machines_and_members b.known_members errs
    aggregate_from_machines_to_kcp capi machine_etcd_member_healthy_condition
        etcd_cluster_healthy_condition "EtcdClusterUnhealthy" "EtcdClusterUnknown" all_errs

  module _ (client : Client) where
    unfoldable pub etcd_fails : {A : Type 0} → Machine → String → Body A
    unfolding set_etcd
    etcd_fails m reason = do set_etcd m condition_false reason; stop tt

    unfoldable pub get_current_etcd_members : Machine → String → Body (List Member)
    unfolding dial_first members etcd_fails
    get_current_etcd_members m name = do
      etcd ← catch (dial_first client (name ∷ [])) (λ _. etcd_fails m "MemberInspectionFailed")
      if ltb 0 (length etcd.errors)
          then etcd_fails m "EtcdMemberUnhealthy"
          else catch (members client etcd) (λ _. etcd_fails m "EtcdMemberUnhealthy")

    unfoldable pub answered_members :
        Baseline → Machine → String → Outcome Unit (List Member) → Body Baseline
    unfolding checked check_member
    answered_members b m name (ok current) = checked m (check_member b name current)
    answered_members b m name (err _) = pure b

    unfoldable pub inspect_member : Baseline → String → Machine → Body Baseline
    unfolding set_etcd get_current_etcd_members answered_members
    inspect_member b name m =
        if m.deleting then (do set_etcd m condition_false "Deleting"; pure b) else do
          current ← attempt (get_current_etcd_members m name)
          answered_members b m name current

    unfoldable pub inspect_on : Baseline → String → Option Machine → Body (Baseline × List KcpError)
    unfolding inspect_member
    inspect_on b name none = gets (λ s. (b, unmatched name s.plane.machines))
    inspect_on b name (some m) = do next ← inspect_member b name m; pure (next, [])

    unfoldable pub inspect_etcd : Baseline → List Node → Body (Baseline × List KcpError)
    unfolding inspect_on
    inspect_etcd b [] = pure (b, [])
    inspect_etcd b (n ∷ ns) = do
      machine ← gets (λ s. find_last (λ m. is_on_node m.node_ref n.name) s.plane.machines)
      (next, errs) ← inspect_on b n.name machine
      (last, rest) ← inspect_etcd next ns
      pure (last, errs ++ rest)

    unfoldable pub set_each_unknown : List Machine → Body Unit
    unfolding set_etcd
    set_each_unknown [] = pure tt
    set_each_unknown (m ∷ ms) = do
      set_etcd m condition_unknown "MemberInspectionFailed"
      set_each_unknown ms

    unfoldable pub etcd_nodes_unknown : Error → Body (List Node)
    unfolding set_each_unknown mark_kcp
    etcd_nodes_unknown e = do
      modify (
          mark_kcp capi etcd_cluster_healthy_condition condition_unknown
            "EtcdClusterInspectionFailed")
      machines ← gets (λ s. s.plane.machines)
      set_each_unknown machines
      stop tt

    unfoldable pub update_managed_etcd_conditions : Exec Session Error Unit
    unfolding get_control_plane_nodes etcd_nodes_unknown inspect_etcd conclude
    update_managed_etcd_conditions = run_body (do
      nodes ← catch (get_control_plane_nodes client) etcd_nodes_unknown
      seen ← inspect_etcd nothing_known nodes
      conclude seen)
