-- ===== src/MachineController/Hook.antt =====
-- When the machine controller takes the pre-terminate hook off a machine.
use cluster_api_k3s.Prelude.{
  String, Bool, true, Option, none, some, ◌∷◌, not, if◌then◌else◌, inl, inr, arith, ◌∙◌, ◌⊎◌, ◌≡◌,
  ◌≢◌, refl, ap,
}
use cluster_api_k3s.Prelude.Exec.{Outcome, ok, err, pure, attempt, ◌>>=◌, ◌>>◌}
use cluster_api_k3s.Prelude.Exec.Keeps.{Keeps, continue-ok, changed_after, keeps_rules}
use cluster_api_k3s.Api.{
  Error, not_found, cluster_is_being_deleted, nil_node_ref, control_plane_is_being_deleted,
  no_control_plane_nodes, Ref, Machine, Cluster, Capi, Client, Session, get_machine, get_cluster,
  get_workload_cluster, perform, query,
}
use cluster_api_k3s.Controllers.{CtrlResult, Handler, or_fail, zero_result}
use cluster_api_k3s.Controllers.Deletions.{patched}
use cluster_api_k3s.Workload.Leaving.Patches.{remove_etcd_member_for_machine-Keeps}
use cluster_api_k3s.Workload.Leaving.{remove_etcd_member_for_machine}
use cluster_api_k3s.MachineController.{
  without_hook, object_error, check_node, check_control_plane, is_remove_etcd_member_needed,
  await_removal, unless_skipped, remove_hook, resolve_hook, has_k3s_hook, reconcile_machine,
  not_fetched, reconcile, pre_terminate_hook_succeeded_condition,
}

-- The removal of the member is not needed, for one of the reasons that the code skips it for.
pub data IsSkipped : Outcome Error Unit → Type 0 where
  no_nodes : IsSkipped (err no_control_plane_nodes)
  no_node_ref : IsSkipped (err nil_node_ref)
  cluster_deleted : IsSkipped (err cluster_is_being_deleted)
  control_plane_deleted : IsSkipped (err control_plane_is_being_deleted)

-- The session in which the workload cluster is asked to let the member go.
abbrev pub with_workload : Client → Session → Session
with_workload client s = (perform get_workload_cluster client.get_workload_cluster s).1

-- The reason for which the etcd member is gone or stays: a removal that is skipped, or one that the
-- workload cluster reports as done.
abbrev pub IsSettled : Client → Machine → Session → Outcome Error Unit → Type 0
IsSettled client m s needed =
    IsSkipped needed
    ⊎ ((remove_etcd_member_for_machine client m (with_workload client s)).0 ≡ ok true)

module _ (capi : Capi) (client : Client) where
  await_removal-Keeps : (m : Machine) → Keeps patched (await_removal capi client m)
  unfolding await_removal
  await_removal-Keeps m = search (keeps_rules, remove_etcd_member_for_machine-Keeps) depth 8

  unless_skipped-Keeps :
      (m : Machine) (needed : Outcome Error Unit)
      → Keeps patched (unless_skipped capi client m needed)
  unfolding unless_skipped
  unless_skipped-Keeps m (ok _) = await_removal-Keeps m
  unless_skipped-Keeps m (err no_control_plane_nodes) = search keeps_rules
  unless_skipped-Keeps m (err nil_node_ref) = search keeps_rules
  unless_skipped-Keeps m (err cluster_is_being_deleted) = search keeps_rules
  unless_skipped-Keeps m (err control_plane_is_being_deleted) = search keeps_rules
  unless_skipped-Keeps m (err _) = search keeps_rules

  await_removal_ok :
      (m : Machine) (s : Session)
      → (await_removal capi client m s).0 ≡ ok tt
      → (remove_etcd_member_for_machine client m (with_workload client s)).0 ≡ ok true
  unfolding await_removal perform
  await_removal_ok m s h = ground arith

  unless_skipped_ok :
      (m : Machine) (needed : Outcome Error Unit) (s : Session)
      → (unless_skipped capi client m needed s).0 ≡ ok tt
      → IsSettled client m s needed
  unfolding unless_skipped
  unless_skipped_ok m (ok _) s h = inr (await_removal_ok m s h)
  unless_skipped_ok m (err no_control_plane_nodes) s h = inl no_nodes
  unless_skipped_ok m (err nil_node_ref) s h = inl no_node_ref
  unless_skipped_ok m (err cluster_is_being_deleted) s h = inl cluster_deleted
  unless_skipped_ok m (err control_plane_is_being_deleted) s h = inl control_plane_deleted
  unless_skipped_ok m (err _) s h = ground arith

  object_error-Keeps : (o : Outcome Error Bool) → Keeps patched (object_error capi client o)
  unfolding object_error
  object_error-Keeps (ok deleting) = search keeps_rules
  object_error-Keeps (err not_found) = search keeps_rules
  object_error-Keeps (err _) = search keeps_rules

  check_control_plane-Keeps : (r : Option Ref) → Keeps patched (check_control_plane capi client r)
  unfolding check_control_plane
  check_control_plane-Keeps none = search keeps_rules
  check_control_plane-Keeps (some r) = search (keeps_rules, object_error-Keeps)

  check_node-Keeps : (r : Option String) → Keeps patched (check_node capi client r)
  unfolding check_node
  check_node-Keeps none = search keeps_rules
  check_node-Keeps (some r) = search keeps_rules

  is_needed-Keeps :
      (cluster : Cluster) (m : Machine)
      → Keeps patched (is_remove_etcd_member_needed capi client cluster m)
  unfolding is_remove_etcd_member_needed
  is_needed-Keeps cluster m =
      search (keeps_rules, check_node-Keeps, check_control_plane-Keeps) depth 10

  remove_hook_changed :
      (m : Machine) (s : Session)
      → patched ((or_fail (remove_hook capi client m) >> pure zero_result) s).1 ≢ patched s
      → patched ((or_fail (remove_hook capi client m) >> pure zero_result) s).1
        ≡ without_hook capi client m ∷ patched s
  unfolding remove_hook perform
  remove_hook_changed m s changed = ground arith

  after_settled : Machine → Outcome Error Unit → Handler CtrlResult
  after_settled m needed = do
    unless_skipped capi client m needed
    or_fail (remove_hook capi client m)
    pure zero_result

  after_settled_changed :
      (m : Machine) (needed : Outcome Error Unit) (s : Session)
      → patched (after_settled m needed s).1 ≢ patched s
      → IsSettled client m s needed
        × (patched (after_settled m needed s).1 ≡ without_hook capi client m ∷ patched s)
  unfolding after_settled
  after_settled_changed m needed s changed =
      let first = unless_skipped capi client m needed in
      let last : Handler CtrlResult = or_fail (remove_hook capi client m) >> pure zero_result in
      let keeps = unless_skipped-Keeps m needed in
      let (u, passed, grown) = changed_after {view = patched} first (λ _. last) s keeps changed in
      (
        unless_skipped_ok m needed s passed,
        ap (λ r. patched r.1) (continue-ok (first s) (λ _. last) passed)
            ∙ remove_hook_changed m (first s).1 grown
            ∙ ap (λ ms. without_hook capi client m ∷ ms) (keeps.at s),
      )

  with_cluster : Machine → Cluster → Handler CtrlResult
  with_cluster m cluster = do
    needed ← attempt (is_remove_etcd_member_needed capi client cluster m)
    after_settled m needed

  with_cluster_changed :
      (m : Machine) (cluster : Cluster) (s : Session)
      → patched (with_cluster m cluster s).1 ≢ patched s
      → let r = is_remove_etcd_member_needed capi client cluster m s in
        IsSettled client m r.1 r.0
        × (patched (with_cluster m cluster s).1 ≡ without_hook capi client m ∷ patched s)
  unfolding with_cluster
  with_cluster_changed m cluster s changed =
      let r = is_remove_etcd_member_needed capi client cluster m s in
      let same = (is_needed-Keeps cluster m).at s in
      let (settled, grown) = after_settled_changed m r.0 r.1 (λ e. changed (e ∙ same)) in
      (settled, grown ∙ ap (λ ms. without_hook capi client m ∷ ms) same)

-- What has to hold when the hook of a machine is removed, of the session in which it was fetched.
pub record IsReleased (capi : Capi) (client : Client) (m : Machine) (s : Session) : Type 0 where
  pub deleting : m.deleting ≡ true
  pub hooked : has_k3s_hook capi client m ≡ true
  pub pending : capi.is_false_v1beta1 m.conditions pre_terminate_hook_succeeded_condition ≡ true
  pub settled :
      (cluster : Cluster) × (client.get_cluster s.trace m ≡ ok cluster)
      × (let r =
            is_remove_etcd_member_needed capi client cluster m
              (record s { trace = get_cluster ∷ s.trace }) in
          IsSettled client m r.1 r.0)

module _ (capi : Capi) (client : Client) where
  resolve_hook_by :
      (m : Machine) (s : Session) (o : Outcome Error Cluster)
      → client.get_cluster s.trace m ≡ o
      → patched (resolve_hook capi client m s).1 ≢ patched s
      → (cluster : Cluster) × (client.get_cluster s.trace m ≡ ok cluster)
        × (let r =
              is_remove_etcd_member_needed capi client cluster m
                (record s { trace = get_cluster ∷ s.trace }) in
            IsSettled client m r.1 r.0)
        × (patched (resolve_hook capi client m s).1 ≡ without_hook capi client m ∷ patched s)
  unfolding resolve_hook with_cluster after_settled query
  resolve_hook_by m s (err x) e changed = absurd (changed (rw e))
  resolve_hook_by m s (ok cluster) e changed =
      let s1 = record s { trace = get_cluster ∷ s.trace } in
      let (settled, grown) =
        with_cluster_changed capi client m cluster s1 (λ same. changed (rw e same)) in
      (cluster, e, settled, rw e grown)

  reconcile_machine_guards :
      (m : Machine) (s : Session)
      → patched (reconcile_machine capi client m s).1 ≢ patched s
      → (m.deleting ≡ true)
        × (has_k3s_hook capi client m ≡ true)
        × (capi.is_false_v1beta1 m.conditions pre_terminate_hook_succeeded_condition ≡ true)
  unfolding reconcile_machine
  reconcile_machine_guards m s changed = ground arith

  third_branch :
      {A : Type 0} (a b c : Bool) (x y z w : A)
      → a ≡ true
      → b ≡ true
      → c ≡ true
      → (if not a then x else if not b then y else if not c then z else w) ≡ w
  third_branch a b c x y z w p q r = rw (p, q, r)

  reconcile_machine_changed :
      (m : Machine) (s : Session)
      → patched (reconcile_machine capi client m s).1 ≢ patched s
      → (patched (reconcile_machine capi client m s).1 ≡ without_hook capi client m ∷ patched s)
        × IsReleased capi client m s
  unfolding reconcile_machine
  reconcile_machine_changed m s changed =
      let (deleting, hooked, pending) = reconcile_machine_guards m s changed in
      let rest : reconcile_machine capi client m s ≡ resolve_hook capi client m s =
        ap (λ (h : Handler CtrlResult). h s) (third_branch _ _ _ _ _ _ _ deleting hooked pending) in
      let (cluster, fetched, settled, grown) =
        resolve_hook_by m s _ refl (λ same. changed (rw rest same)) in
      (
        rw rest grown,
        record {
          deleting = deleting;
          hooked = hooked;
          pending = pending;
          settled = (cluster, fetched, settled);
        },
      )

  not_fetched-Keeps : (e : Error) → Keeps patched (not_fetched capi client e)
  unfolding not_fetched
  not_fetched-Keeps not_found = search keeps_rules
  not_fetched-Keeps _ = search keeps_rules

  reconcile_by :
      (name : String) (s : Session) (o : Outcome Error Machine)
      → client.get_machine s.trace name ≡ o
      → patched (reconcile capi client name s).1 ≢ patched s
      → (m : Machine) × (client.get_machine s.trace name ≡ ok m)
        × (patched (reconcile capi client name s).1 ≡ without_hook capi client m ∷ patched s)
        × IsReleased capi client m (record s { trace = get_machine name ∷ s.trace })
  unfolding reconcile query not_fetched
  reconcile_by name s (err not_found) e changed = absurd (changed (rw e))
  reconcile_by name s (err _) e changed = absurd (changed (rw e))
  reconcile_by name s (ok m) e changed =
      let s1 = record s { trace = get_machine name ∷ s.trace } in
      let (grown, released) = reconcile_machine_changed m s1 (λ same. changed (rw e same)) in
      (m, e, rw e grown, released)

  -- A reconciliation that calls for a patch of a machine at all calls for one, of the machine that the
  -- API server answered with, without its pre-terminate hook. The machine is then being deleted, has
  -- the hook with the k3s value and waits for it, and its etcd member need not be removed or is
  -- reported as removed by the workload cluster.
  pub reconcile-patches :
      (name : String) (s : Session)
      → patched (reconcile capi client name s).1 ≢ patched s
      → (m : Machine) × (client.get_machine s.trace name ≡ ok m)
        × (patched (reconcile capi client name s).1 ≡ without_hook capi client m ∷ patched s)
        × IsReleased capi client m (record s { trace = get_machine name ∷ s.trace })
  reconcile-patches name s changed = reconcile_by name s _ refl changed
