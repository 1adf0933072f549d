-- ===== src/Remediation/Reconcile.antt =====
-- reconcileUnhealthyMachines of controlplane/controllers/remediation.go. An aggregate of errors is
-- returned as its first one.
pub mod Quiet
pub mod Checked
pub mod Safety
use cluster_api_k3s.Prelude.{
  String, Bool, Option, none, some, List, [], ◌∷◌, Dict, lookup, put, is_some, not, leb, eqb,
  length, if◌then◌else◌, ◌&&◌,
}
use cluster_api_k3s.Prelude.Exec.{
  Exec, Outcome, ok, err, pure, stop, gets, modify, catch, attempt, ◌>>=◌, ◌>>◌,
}
use cluster_api_k3s.Prelude.Int.{ℤ}
use cluster_api_k3s.Api.{
  Error, other, nil_map_write, nil_dereference, condition_false, Machine, RemediationData, Capi,
  Client, Session, new_patch_helper, patch_machine, delete_machine, get_workload_cluster, perform,
  remediation_in_progress_annotation,
}
use cluster_api_k3s.Controllers.{
  CtrlResult, zero_result, requeued, Return, Handler, finish, fail, or_fail, current, store,
  set_condition, k3s_hook_name, pre_terminate_hook,
}
use cluster_api_k3s.ControlPlane.{
  is_etcd_managed, unhealthy_machines, healthy_machines, has_healthy_machine_still_provisioning,
  has_deleting_machine,
}
use cluster_api_k3s.Workload.Leaving.{forward_etcd_leadership}
use cluster_api_k3s.Remediation.Retry.{machine_owner_remediated_condition, check_retry_limits}
use cluster_api_k3s.Remediation.Quorum.{get_machine_to_be_remediated, can_safely_remove_etcd_member}

abbrev pub machine_health_check_succeeded_condition : String
machine_health_check_succeeded_condition = "HealthCheckSucceeded"

abbrev pub with_error : Error → Outcome Return CtrlResult → Outcome Return CtrlResult
with_error e (ok r) = err (r, some e)
with_error e (err (r, none)) = err (r, some e)
with_error e (err (r, some first)) = err (r, some first)

abbrev pub patched_back :
    Option Error → Outcome Return CtrlResult × Session → Outcome Return CtrlResult × Session
patched_back none r = r
patched_back (some e) (o, s) = (with_error e o, s)

module _ (capi : Capi) (client : Client) where
  unfoldable pub new_helper : Machine → Exec Session Error Unit
  unfolding perform
  new_helper m = perform (new_patch_helper m.name) (λ t. client.new_patch_helper t m)

  -- The patch sends the machine as it is in memory then.
  unfoldable pub patch : Machine → Exec Session Error Unit
  unfolding perform current
  patch m s =
      let now = current m s.machines in
      perform (patch_machine now) (λ t. client.patch_machine t now) s

  unfoldable pub delete : Machine → Exec Session Error Unit
  unfolding perform
  delete m = perform (delete_machine m.name) (λ t. client.delete_machine t m.name)

  delete_condition : Machine → Session → Session
  unfolding store current
  delete_condition m s =
      let now = current m s.machines in
      store
        (record now {
          conditions = capi.delete_condition now.conditions machine_owner_remediated_condition;
        })
        s

  is_back : Machine → Bool
  is_back m =
      capi.is_true m.conditions machine_health_check_succeeded_condition
      && capi.is_false m.conditions machine_owner_remediated_condition
      && not m.deleting

  forget : Machine → Exec Session Error Unit
  unfolding new_helper delete_condition patch
  forget m = do new_helper m; modify (delete_condition m); patch m

  abbrev pub noted : Outcome Error Unit → List Error → List Error
  noted (ok _) errs = errs
  noted (err e) errs = e ∷ errs

  -- The loop over the healthy machines: the errors of those that could not be patched.
  unfoldable pub clean_up : List Machine → Handler (List Error)
  unfolding is_back forget
  clean_up [] = pure []
  clean_up (m ∷ ms) =
      let rest = clean_up ms in
      if is_back m
      then (do done ← attempt (forget m); errs ← rest; pure (noted done errs))
      else rest

  unfoldable pub unless_errors : List Error → Handler Unit
  unless_errors [] = pure tt
  unless_errors (e ∷ errs) = fail e

  -- Sets MachineOwnerRemediated to False with the reason.
  unfoldable pub mark : Machine → String → Handler Unit
  unfolding set_condition
  mark m reason =
      modify (set_condition capi m machine_owner_remediated_condition condition_false reason)

  unfoldable pub wait : Machine → Handler Unit
  unfolding mark
  wait m = do mark m "WaitingForRemediation"; finish zero_result

  unfoldable pub fail_marked : {A : Type 0} → Machine → Error → Handler A
  unfolding mark
  fail_marked m e = do mark m "RemediationFailed"; fail e

  unfoldable pub require_quorum : Machine → Handler Unit
  unfolding can_safely_remove_etcd_member fail_marked wait
  require_quorum m = do
    safe ← catch (can_safely_remove_etcd_member capi client m) (fail_marked m)
    if safe then pure tt else wait m

  -- The three checks on the other machines, then etcd's quorum.
  unfoldable pub require_stable : Machine → Handler Unit
  unfolding has_healthy_machine_still_provisioning has_deleting_machine is_etcd_managed wait
      require_quorum
  require_stable m = do
    plane ← gets (λ s. s.plane)
    if leb (length plane.machines) 1
        then wait m
        else if has_healthy_machine_still_provisioning capi plane
        then wait m
        else if has_deleting_machine capi plane
        then wait m
        else if is_etcd_managed plane
        then require_quorum m
        else pure tt

  hooked : Machine → Option (Dict String) → Exec Session Error Unit
  unfolding store patch
  hooked m none = stop nil_map_write
  hooked m (some d) = do
    modify (store (record m { annotations = some (put pre_terminate_hook k3s_hook_name d) }))
    patch m

  -- The annotation that makes the deletion wait for the etcd member to be removed.
  unfoldable pub add_hook : Machine → Exec Session Error Unit
  unfolding new_helper current hooked
  add_hook m = do new_helper m; now ← gets (λ s. current m s.machines); hooked now now.annotations

  unfoldable pub leave_etcd : Machine → Option Machine → Handler Unit
  unfolding mark forward_etcd_leadership fail_marked add_hook
  leave_etcd m none = do mark m "RemediationFailed"; finish zero_result
  leave_etcd m (some candidate) = do
    catch (forward_etcd_leadership client m (some candidate)) (fail_marked m)
    or_fail (add_hook m)

  unfoldable pub prepare : Machine → Handler Unit
  unfolding perform is_etcd_managed healthy_machines leave_etcd
  prepare m = do
    or_fail (perform get_workload_cluster client.get_workload_cluster)
    plane ← gets (λ s. s.plane)
    if is_etcd_managed plane
        then leave_etcd m (capi.newest (healthy_machines capi plane))
        else pure tt

  unfoldable pub preflight : Machine → Handler Unit
  preflight m = do
    initialized ← gets (λ s. s.plane.kcp.initialized)
    if initialized then (do require_stable m; prepare m) else pure tt

  annotated : String → Session → Session
  annotated value s = record s {
    plane = record s.plane {
      kcp = record s.plane.kcp {
        annotations =
            capi.add_annotation remediation_in_progress_annotation value s.plane.kcp.annotations;
      };
    };
  }

  unfoldable pub track : Option String → Handler CtrlResult
  unfolding annotated
  track none = fail (other "failed to marshal value")
  track (some value) = do modify (annotated value); pure requeued

  -- Surfaces that the remediation goes on, in the machine's conditions and in an annotation.
  unfoldable pub surface : Machine → RemediationData → Handler CtrlResult
  unfolding mark track
  surface m info = do mark m "RemediationInProgress"; track (capi.marshal info)

  unfoldable pub delete_and_track : Machine → RemediationData → Handler CtrlResult
  unfolding delete fail_marked surface
  delete_and_track m info = do catch (delete m) (fail_marked m); surface m info

  -- What runs between the creation of the patch helper and the deferred patch.
  unfoldable pub remediate : Machine → ℤ → Handler CtrlResult
  remediate m now = do
    (info, can) ← or_fail (check_retry_limits capi m now)
    if not can then finish zero_result else do preflight m; delete_and_track m info

  unfoldable pub deferred_patch :
      Machine → Outcome Return CtrlResult × Session → Outcome Return CtrlResult × Session
  unfolding current
  deferred_patch m (r, s) =
      let now = current m s.machines in
      patched_back (client.patch_machine s.trace now)
        (r, record s { trace = patch_machine now ∷ s.trace })

  unfoldable pub deferred : Machine → Handler CtrlResult → Handler CtrlResult
  unfolding deferred_patch
  deferred m body s = deferred_patch m (body s)

  unfoldable pub remediate_machine : ℤ → Option Machine → Handler CtrlResult
  unfolding new_helper deferred
  remediate_machine now none = fail nil_dereference
  remediate_machine now (some m) = do
    kcp ← gets (λ s. s.plane.kcp)
    if m.deleting
        then finish zero_result
        else if is_some (lookup remediation_in_progress_annotation kcp.annotations)
        then finish zero_result
        else (do or_fail (new_helper m); deferred m (remediate m now))

  unfoldable pub reconcile_unhealthy_machines : ℤ → Handler CtrlResult
  unfolding healthy_machines clean_up unless_errors unhealthy_machines remediate_machine
      get_machine_to_be_remediated
  reconcile_unhealthy_machines now = do
    healthy ← gets (λ s. healthy_machines capi s.plane)
    errs ← clean_up healthy
    unless_errors errs
    unhealthy ← gets (λ s. unhealthy_machines capi s.plane)
    if eqb (length unhealthy) 0
        then finish zero_result
        else remediate_machine now (get_machine_to_be_remediated capi unhealthy)
