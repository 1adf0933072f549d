-- ===== src/Remediation/Reconcile/Checked.antt =====
-- What a remediation that deletes a machine has checked, from the retry limits on.
use cluster_api_k3s.Prelude.{
  ◌<◌, String, Bool, true, false, Option, none, some, ◌∷◌, length, ◌≡◌, ◌≢◌, refl, sym, ◌∙◌, ap,
  arith,
}
use cluster_api_k3s.Prelude.Exec.{Outcome, ok, err, catch, ◌>>=◌}
use cluster_api_k3s.Prelude.Exec.Keeps.{
  Keeps, continue-ok, continue-Keeps, handled-Keeps, changed_after, keeps_rules,
}
use cluster_api_k3s.Prelude.Int.{ℤ}
use cluster_api_k3s.Api.{Error, Machine, RemediationData, Capi, Client, Session}
use cluster_api_k3s.Controllers.Deletions.{deleted}
use cluster_api_k3s.ControlPlane.{
  is_etcd_managed, has_healthy_machine_still_provisioning, has_deleting_machine,
}
use cluster_api_k3s.Remediation.Retry.{check_retry_limits}
use cluster_api_k3s.Remediation.Retry.Quiet.{check_retry_limits-Keeps}
use cluster_api_k3s.Remediation.Retry.Limits.{check_retry_limits_granted}
use cluster_api_k3s.Remediation.Quorum.{can_safely_remove_etcd_member}
use cluster_api_k3s.Remediation.Reconcile.{
  delete, wait, fail_marked, track, surface, delete_and_track, require_quorum, require_stable,
  preflight, remediate,
}
use cluster_api_k3s.Remediation.Reconcile.Quiet.{fail_marked-Keeps, preflight-Keeps}

-- The control plane is stable enough to lose the machine.
pub record IsStable (capi : Capi) (client : Client) (m : Machine) (s : Session) : Type 0 where
  pub more_than_one : 1 < length s.plane.machines
  pub none_provisioning : has_healthy_machine_still_provisioning capi s.plane ≡ false
  pub none_deleting : has_deleting_machine capi s.plane ≡ false
  pub quorum :
      is_etcd_managed s.plane ≡ true → (can_safely_remove_etcd_member capi client m s).0 ≡ ok true

module _ (capi : Capi) (client : Client) where
  track-Keeps : (value : Option String) → Keeps deleted (track capi client value)
  unfolding track
  track-Keeps none = search keeps_rules
  track-Keeps (some value) = record { at = λ s. refl }

  surface-Keeps :
      (m : Machine) (info : RemediationData) → Keeps deleted (surface capi client m info)
  unfolding surface
  surface-Keeps m info = search (keeps_rules, track-Keeps)

  -- Whatever the answers are, one call deletes the machine.
  pub deleted-delete_and_track :
      (m : Machine) (info : RemediationData) (s : Session)
      → deleted (delete_and_track capi client m info s).1 ≡ m.name ∷ deleted s
  unfolding delete_and_track delete
  deleted-delete_and_track m info s =
      continue-Keeps (catch (delete capi client m) (fail_marked capi client m) s)
        (λ _. surface capi client m info) (λ _. surface-Keeps m info)
      ∙ handled-Keeps (delete capi client m s) (fail_marked capi client m)
          (fail_marked-Keeps capi client m)

  require_quorum_ok :
      (m : Machine) (s : Session)
      → (require_quorum capi client m s).0 ≡ ok tt
      → (can_safely_remove_etcd_member capi client m s).0 ≡ ok true
  unfolding require_quorum wait fail_marked
  require_quorum_ok m s h = ground arith

  require_stable_ok :
      (m : Machine) (s : Session)
      → (require_stable capi client m s).0 ≡ ok tt
      → IsStable capi client m s
  unfolding require_stable wait
  require_stable_ok m s h = ground (arith, require_quorum_ok m s)

  pub preflight_ok :
      (m : Machine) (s : Session)
      → (preflight capi client m s).0 ≡ ok tt
      → s.plane.kcp.initialized ≡ true
      → IsStable capi client m s
  unfolding preflight
  preflight_ok m s h e = ground (arith, require_stable_ok m s)

module _ (capi : Capi) (client : Client) where
  -- The whole of it, once the retry limits have answered.
  remediate_granted :
      (m : Machine) (now : ℤ) (s s1 : Session) (info : RemediationData)
      → check_retry_limits capi m now s ≡ (ok (info, true), s1)
      → s1 ≡ s
      → remediate capi client m now s
        ≡ (preflight capi client m >>= λ _. delete_and_track capi client m info) s
  unfolding remediate
  remediate_granted m now s s1 info e same = rw e (rw same)

  granted_changed :
      (m : Machine) (s : Session) (info : RemediationData)
      → let r = (preflight capi client m >>= λ _. delete_and_track capi client m info) s in
        deleted r.1 ≢ deleted s
        → ((preflight capi client m s).0 ≡ ok tt) × (deleted r.1 ≡ m.name ∷ deleted s)
  granted_changed m s info changed =
      let (u, passed, _) =
        changed_after (preflight capi client m) (λ _. delete_and_track capi client m info) s
          (preflight-Keeps capi client m) changed in
      (
        passed,
        ap (λ r. deleted r.1)
              (continue-ok (preflight capi client m s) (λ _. delete_and_track capi client m info)
                passed)
            ∙ deleted-delete_and_track capi client m info (preflight capi client m s).1
            ∙ ap (λ names. m.name ∷ names) ((preflight-Keeps capi client m).at s),
      )

  remediate_by :
      (m : Machine) (now : ℤ) (s s1 : Session) (o : Outcome Error (RemediationData × Bool))
      → check_retry_limits capi m now s ≡ (o, s1)
      → deleted s1 ≡ deleted s
      → deleted (remediate capi client m now s).1 ≢ deleted s
      → (info : RemediationData) × ((check_retry_limits capi m now s).0 ≡ ok (info, true))
        × ((preflight capi client m s).0 ≡ ok tt)
        × (deleted (remediate capi client m now s).1 ≡ m.name ∷ deleted s)
  unfolding remediate
  remediate_by m now s s1 (err x) e same changed = absurd (changed (rw e same))
  remediate_by m now s s1 (ok (info, false)) e same changed = absurd (changed (rw e same))
  remediate_by m now s s1 (ok (info, true)) e same changed =
      let granted = ap (λ r. r.0) e in
      let back : s1 ≡ s =
        sym (ap (λ r. r.1) e) ∙ check_retry_limits_granted capi m now s info granted in
      let rest = remediate_granted m now s s1 info e back in
      let (passed, grown) = granted_changed m s info (λ same'. changed (rw rest same')) in
      (info, granted, passed, rw rest grown)

  pub remediate_changed :
      (m : Machine) (now : ℤ) (s : Session)
      → deleted (remediate capi client m now s).1 ≢ deleted s
      → (info : RemediationData) × ((check_retry_limits capi m now s).0 ≡ ok (info, true))
        × ((preflight capi client m s).0 ≡ ok tt)
        × (deleted (remediate capi client m now s).1 ≡ m.name ∷ deleted s)
  remediate_changed m now s changed =
      let r = check_retry_limits capi m now s in
      remediate_by m now s r.1 r.0 refl ((check_retry_limits-Keeps capi m now).at s) changed
