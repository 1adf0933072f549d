-- ===== src/Reconciliation/Ends.antt =====
-- A remediation that calls for a deletion makes the caller return.
use cluster_api_k3s.Prelude.{
  String, Bool, true, false, Option, none, some, List, ◌∷◌, Option-cases, inl, inr, if◌then◌else◌,
  ◌≡◌, refl, ◌∙◌,
}
use cluster_api_k3s.Prelude.Int.{ℤ}
use cluster_api_k3s.Prelude.Exec.{Outcome, ok, err, continue, ◌>>=◌}
use cluster_api_k3s.Prelude.Exec.Keeps.{Keeps, keeps_rules}
use cluster_api_k3s.Api.{Error, Machine, RemediationData, patch_machine, Capi, Client, Session}
use cluster_api_k3s.Controllers.{CtrlResult, Return, Handler, returned, current}
use cluster_api_k3s.Controllers.Deletions.{deleted}
use cluster_api_k3s.Remediation.Reconcile.{
  with_error, patched_back, mark, fail_marked, delete, track, surface, delete_and_track, remediate,
  deferred_patch, deferred, remediate_machine, reconcile_unhealthy_machines,
}
use cluster_api_k3s.Remediation.Reconcile.Quiet.{
  new_helper-Keeps, clean_up-Keeps, unless_errors-Keeps, preflight-Keeps,
}
use cluster_api_k3s.Remediation.Retry.Quiet.{check_retry_limits-Keeps}
use cluster_api_k3s.Reconciliation.{unless_done}

abbrev pub is_err : Outcome Return Unit → Bool
is_err (ok _) = false
is_err (err e) = true

-- The caller does not go on.
abbrev pub done : Outcome Return CtrlResult → Bool
done o = is_err (unless_done (returned o))

-- Where the caller goes on, no machine was deleted.
pub record EndsOnDeletion (h : Handler CtrlResult) : Type 0 where
  pub at : (s : Session) → done (h s).0 ≡ false → deleted (h s).1 ≡ deleted s

Ends-quiet : (h : Handler CtrlResult) → Keeps deleted h → EndsOnDeletion h
Ends-quiet h k = record { at = λ s _. k.at s }

Ends-if :
    (b : Bool) (h g : Handler CtrlResult)
    → EndsOnDeletion h
    → EndsOnDeletion g
    → EndsOnDeletion (if b then h else g)
Ends-if true h g eh eg = eh
Ends-if false h g eh eg = eg

continue-Ends :
    {A : Type 0} (r : Outcome Return A × Session) (f : A → Handler CtrlResult)
    → ((a : A) → EndsOnDeletion (f a))
    → done (continue r f).0 ≡ false
    → deleted (continue r f).1 ≡ deleted r.1
continue-Ends (ok a, s) f ef h = (ef a).at s h
continue-Ends (err e, s) f ef h = refl

Ends-bind :
    {A : Type 0} (m : Handler A) (f : A → Handler CtrlResult)
    → Keeps deleted m
    → ((a : A) → EndsOnDeletion (f a))
    → EndsOnDeletion (m >>= f)
Ends-bind m f km ef = record { at = λ s h. continue-Ends (m s) f ef h ∙ km.at s }

ruleset ends_rules = (Ends-quiet, Ends-if, Ends-bind)

done-with_error : (e : Error) (o : Outcome Return CtrlResult) → done (with_error e o) ≡ true
done-with_error e (ok r) = refl
done-with_error e (err (r, none)) = refl
done-with_error e (err (r, some first)) = refl

module _ (capi : Capi) (client : Client) where
  done-track : (o : Option String) (s : Session) → done (track capi client o s).0 ≡ true
  unfolding track
  done-track none s = refl
  done-track (some value) s = refl

  done-surface :
      (m : Machine) (info : RemediationData) (s : Session)
      → done (surface capi client m info s).0 ≡ true
  unfolding surface mark
  done-surface m info s = done-track (capi.marshal info) _

  done-delete_and_track :
      (m : Machine) (info : RemediationData) (s : Session)
      → done (delete_and_track capi client m info s).0 ≡ true
  unfolding delete_and_track delete fail_marked mark
  done-delete_and_track m info s = elim (Option-cases (client.delete_machine s.trace m.name)) [
    | inl none_e ↦ rw none_e (done-surface m info _)
    | inr (e, some_e) ↦ rw some_e refl
  ]

  delete_and_track-Ends :
      (m : Machine) (info : RemediationData) → EndsOnDeletion (delete_and_track capi client m info)
  delete_and_track-Ends m info = record {
    at = λ s h. let never = done-delete_and_track m info s in cc;
  }

  remediate-Ends : (m : Machine) (now : ℤ) → EndsOnDeletion (remediate capi client m now)
  unfolding remediate
  remediate-Ends m now =
      search
        (keeps_rules, ends_rules, check_retry_limits-Keeps, preflight-Keeps, delete_and_track-Ends)
        depth 10

  patched_back-Ends :
      (e : Option Error) (o : Outcome Return CtrlResult) (t : Session) (x : List String)
      → (done o ≡ false → deleted t ≡ x)
      → done (patched_back e (o, t)).0 ≡ false
      → deleted (patched_back e (o, t)).1 ≡ x
  patched_back-Ends none o t x h d = h d
  patched_back-Ends (some e) o t x h d = let never = done-with_error e o in cc

  deferred-Ends :
      (m : Machine) (body : Handler CtrlResult)
      → EndsOnDeletion body
      → EndsOnDeletion (deferred capi client m body)
  unfolding deferred deferred_patch
  deferred-Ends m body eb = record {
    at = λ s h.
        let (o, t) = body s in
        let now = current m t.plane.machines in
        patched_back-Ends (client.patch_machine t.trace now) o
          (record t { trace = patch_machine now ∷ t.trace }) (deleted s) (eb.at s) h;
  }

  remediate_machine-Ends :
      (now : ℤ) (o : Option Machine) → EndsOnDeletion (remediate_machine capi client now o)
  unfolding remediate_machine
  remediate_machine-Ends now none = search (keeps_rules, ends_rules)
  remediate_machine-Ends now (some m) =
      let body = deferred-Ends m (remediate capi client m now) (remediate-Ends m now) in
      search (keeps_rules, ends_rules, new_helper-Keeps) depth 10

  pub reconcile_unhealthy_machines-Ends :
      (now : ℤ) → EndsOnDeletion (reconcile_unhealthy_machines capi client now)
  unfolding reconcile_unhealthy_machines
  reconcile_unhealthy_machines-Ends now =
      search (keeps_rules, ends_rules, clean_up-Keeps, unless_errors-Keeps, remediate_machine-Ends)
        depth 10
