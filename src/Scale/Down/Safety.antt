-- ===== src/Scale/Down/Safety.antt =====
-- When scaleDownControlPlane deletes a machine.
use cluster_api_k3s.Prelude.{
  Bool, true, Option, List, [], ◌∷◌, if◌then◌else◌, Bool-cases, inl, inr, ◌≡◌, ◌≢◌, refl, ◌∙◌, ap,
}
use cluster_api_k3s.Prelude.Exec.{Outcome, ok, err, pure, catch, ◌>>◌}
use cluster_api_k3s.Prelude.Exec.Keeps.{
  Keeps, Keeps-pure, continue-ok, continue-Keeps, handled-Keeps, changed_after, keeps_rules,
}
use cluster_api_k3s.Api.{Error, not_found, Machine, Capi, Client, Session}
use cluster_api_k3s.Controllers.{CtrlResult, requeued, is_zero, Handler, finish, or_fail}
use cluster_api_k3s.Controllers.Deletions.{deleted}
use cluster_api_k3s.ControlPlane.{is_etcd_managed}
use cluster_api_k3s.Workload.Leaving.Quiet.{forward_etcd_leadership-Keeps}
use cluster_api_k3s.Remediation.Reconcile.{delete}
use cluster_api_k3s.Remediation.Reconcile.Quiet.{add_hook-Keeps}
use cluster_api_k3s.Scale.Preflight.{preflight_checks, select_machine_for_scale_down}
use cluster_api_k3s.Scale.Down.{
  hand_over_etcd, ignore_not_found, delete_selected, scale_down_control_plane,
}

module _ (capi : Capi) (client : Client) where
  hand_over_etcd-Keeps : (m : Machine) → Keeps deleted (hand_over_etcd capi client m)
  unfolding hand_over_etcd
  hand_over_etcd-Keeps m =
      search (keeps_rules, forward_etcd_leadership-Keeps, add_hook-Keeps) depth 7

  ignore_not_found-Keeps : (e : Error) → Keeps deleted (ignore_not_found capi client e)
  unfolding ignore_not_found
  ignore_not_found-Keeps not_found = search keeps_rules
  ignore_not_found-Keeps _ = search keeps_rules

  delete_rest : Machine → Handler CtrlResult
  delete_rest m = do catch (delete capi client m) (ignore_not_found capi client); pure requeued

  deleted-delete_rest :
      (m : Machine) (s : Session) → deleted (delete_rest m s).1 ≡ m.name ∷ deleted s
  unfolding delete_rest delete
  deleted-delete_rest m s =
      continue-Keeps {view = deleted}
        (catch (delete capi client m) (ignore_not_found capi client) s)
        (λ _. pure {E = CtrlResult × Option Error} requeued) (λ _. Keeps-pure requeued)
      ∙ handled-Keeps {view = deleted} (delete capi client m s) (ignore_not_found capi client)
          ignore_not_found-Keeps

  hand_over_if : Bool → Machine → Handler Unit
  hand_over_if managed m = if managed then or_fail (hand_over_etcd capi client m) else pure tt

  hand_over_if-Keeps : (managed : Bool) (m : Machine) → Keeps deleted (hand_over_if managed m)
  unfolding hand_over_if
  hand_over_if-Keeps managed m = search (keeps_rules, hand_over_etcd-Keeps)

  delete_selected_changed :
      (m : Machine) (s : Session)
      → deleted (delete_selected capi client m s).1 ≢ deleted s
      → deleted (delete_selected capi client m s).1 ≡ m.name ∷ deleted s
  unfolding delete_selected delete_rest hand_over_if
  delete_selected_changed m s changed =
      let first = hand_over_if (is_etcd_managed s.plane) m in
      let keeps = hand_over_if-Keeps (is_etcd_managed s.plane) m in
      let (u, passed, _) =
        changed_after {view = deleted} first (λ _. delete_rest m) s keeps changed in
      ap (λ r. deleted r.1) (continue-ok (first s) (λ _. delete_rest m) passed)
      ∙ deleted-delete_rest m (first s).1
      ∙ ap (λ names. m.name ∷ names) (keeps.at s)

  when_selected : Machine → Handler CtrlResult
  when_selected m s =
      (if is_zero (preflight_checks capi s.plane (m.name ∷ []))
          then delete_selected capi client m
          else finish (preflight_checks capi s.plane (m.name ∷ [])))
        s

  when_selected_changed :
      (m : Machine) (s : Session)
      → deleted (when_selected m s).1 ≢ deleted s
      → (is_zero (preflight_checks capi s.plane (m.name ∷ [])) ≡ true)
        × (deleted (when_selected m s).1 ≡ m.name ∷ deleted s)
  unfolding when_selected
  when_selected_changed m s changed =
      elim (Bool-cases (is_zero (preflight_checks capi s.plane (m.name ∷ [])))) [
        | inl z ↦ (z, rw z (delete_selected_changed m s (λ e. changed (rw z e))))
        | inr z ↦ absurd (changed (rw z))
      ]

  by_selection :
      (outdated : List Machine) (s : Session) (o : Outcome Error Machine)
      → select_machine_for_scale_down capi s.plane outdated ≡ o
      → deleted (scale_down_control_plane capi client outdated s).1 ≢ deleted s
      → (m : Machine) × (select_machine_for_scale_down capi s.plane outdated ≡ ok m)
        × (is_zero (preflight_checks capi s.plane (m.name ∷ [])) ≡ true)
        × (deleted (scale_down_control_plane capi client outdated s).1 ≡ m.name ∷ deleted s)
  unfolding scale_down_control_plane when_selected
  by_selection outdated s (err x) e changed = absurd (changed (rw e))
  by_selection outdated s (ok m) e changed =
      let (passed, grown) = when_selected_changed m s (λ same. changed (rw e same)) in
      (m, e, passed, rw e grown)

  -- A scale down that calls for a deletion at all calls for one, of the machine selected, and only
  -- when the preflight checks pass, from which that machine is excluded.
  pub scale_down_control_plane-deletes :
      (outdated : List Machine) (s : Session)
      → deleted (scale_down_control_plane capi client outdated s).1 ≢ deleted s
      → (m : Machine) × (select_machine_for_scale_down capi s.plane outdated ≡ ok m)
        × (is_zero (preflight_checks capi s.plane (m.name ∷ [])) ≡ true)
        × (deleted (scale_down_control_plane capi client outdated s).1 ≡ m.name ∷ deleted s)
  scale_down_control_plane-deletes outdated s changed = by_selection outdated s _ refl changed
