-- ===== src/Reconciliation/Deletion/Names.antt =====
-- The machines of an assembled control plane are, by name, those that it was assembled from.
use cluster_api_k3s.Prelude.{
  String, List, [], ◌∷◌, map, Bool-cases, inl, inr, eq_iff, ◌≡◌, refl, sym, ap, ◌∙◌, ◌==◌,
}
use cluster_api_k3s.Prelude.Exec.{Exec, Outcome, ok, err, continue, handled, attempt, modify, ◌>>=◌}
use cluster_api_k3s.Prelude.Exec.Keeps.{Keeps-attempt}
use cluster_api_k3s.Api.{Error, Machine, Capi, Client, Session}
use cluster_api_k3s.Controllers.{
  Handler, Return, fail, or_fail, replace, current, set_condition, store,
}
use cluster_api_k3s.ControlPlane.Assembly.{new_control_plane}
use cluster_api_k3s.Workload.Conditions.{mark_kcp}
use cluster_api_k3s.Workload.Conditions.Inspection.{IsQuiet}
use cluster_api_k3s.Reconciliation.{reconcile_control_plane_conditions}
use cluster_api_k3s.Reconciliation.Quiet.{reconcile_conditions-Keeps}

abbrev pub names : List Machine → List String
names ms = map (λ (m : Machine). m.name) ms

abbrev pub machine_names : Session → List String
machine_names s = names s.plane.machines

name-current : (m : Machine) (ms : List Machine) → (current m ms).name ≡ m.name
unfolding current
name-current m [] = refl
name-current m (x ∷ xs) = elim (Bool-cases (x.name == m.name)) [
  | inl same ↦ rw same ((eq_iff x.name m.name).0 same)
  | inr other ↦ rw other (name-current m xs)
]

cons_same : (a b : String) (ps qs : List String) → a ≡ b → ps ≡ qs → (a ∷ ps) ≡ (b ∷ qs)
cons_same a b ps qs h k = cc

names-replace : (m : Machine) (ms : List Machine) → names (replace m ms) ≡ names ms
unfolding replace
names-replace m [] = refl
names-replace m (x ∷ xs) = elim (Bool-cases (x.name == m.name)) [
  | inl same ↦
      rw same
        (cons_same m.name x.name _ _ (sym ((eq_iff x.name m.name).0 same)) (names-replace m xs))
  | inr other ↦ rw other (cons_same x.name x.name _ _ refl (names-replace m xs))
]

machine_names-IsQuiet : (capi : Capi) → IsQuiet capi machine_names
unfolding set_condition store mark_kcp
machine_names-IsQuiet capi = record {
  apart = record {
    from_set = λ m type status reason s. names-replace _ s.plane.machines;
    from_listing = λ s. refl;
    from_dialling = λ ns s. refl;
    from_asking = λ e s. refl;
  };
  from_mark = λ type status reason s. refl;
  from_node = λ name s. refl;
  from_workload = λ s. refl;
  from_patch = λ m s. refl;
}

-- What holds wherever an action returns.
record EndsWith {E A : Type 0} (Q : Session → Type 0) (m : Exec Session E A) : Type 0 where
  at : (s : Session) (a : A) → (m s).0 ≡ ok a → Q (m s).1

continue-ends :
    {E A B : Type 0} (Q : Session → Type 0) (r : Outcome E A × Session) (f : A → Exec Session E B)
    (b : B)
    → ((a : A) → EndsWith Q (f a))
    → (continue r f).0 ≡ ok b
    → Q (continue r f).1
continue-ends Q (ok a, s) f b h e = (h a).at s b e
continue-ends Q (err x, s) f b h e = absurd cc

EndsWith-bind :
    {E A B : Type 0} (Q : Session → Type 0) (m : Exec Session E A) (f : A → Exec Session E B)
    → ((a : A) → EndsWith Q (f a))
    → EndsWith Q (m >>= f)
EndsWith-bind Q m f h = record { at = λ s b e. continue-ends Q (m s) f b h e }

EndsWith-modify :
    (Q : Session → Type 0) (f : Session → Session)
    → ((s : Session) → Q (f s))
    → EndsWith {E = Error} Q (modify f)
EndsWith-modify Q f h = record { at = λ s a e. h s }

new_control_plane-ends :
    (client : Client) (owned : List Machine)
    → EndsWith (λ s. s.plane.machines ≡ owned) (new_control_plane client owned)
unfolding new_control_plane
new_control_plane-ends client owned = search (EndsWith-bind, EndsWith-modify) depth 8

failed-ends :
    {A : Type 0} (Q : Session → Type 0) (r : Outcome Error A × Session) (a : A)
    → (r.0 ≡ ok a → Q r.1)
    → (handled r fail).0 ≡ ok a
    → Q (handled r fail).1
failed-ends Q (ok b, s) a h e = let same : b ≡ a = cc in h (ap ok same)
failed-ends Q (err x, s) a h e = absurd cc

module _ (capi : Capi) (client : Client) where
  pub machines-assembled :
      (owned : List Machine) (s : Session)
      → let start : Handler Unit = or_fail (new_control_plane client owned) in
        (start s).0 ≡ ok tt → (start s).1.plane.machines ≡ owned
  machines-assembled owned s done =
      failed-ends (λ t. t.plane.machines ≡ owned) (new_control_plane client owned s) tt
        ((new_control_plane-ends client owned).at s tt) done

  -- After the assembly and the update of the conditions.
  pub names-assembled :
      (owned : List Machine) (s : Session)
      → let start : Handler Unit = or_fail (new_control_plane client owned) in
        (start s).0 ≡ ok tt
        → machine_names
            (attempt {F = Return} (reconcile_control_plane_conditions capi client) (start s).1).1
          ≡ names owned
  names-assembled owned s done =
      (Keeps-attempt {F = Return} (reconcile_control_plane_conditions capi client)
          (reconcile_conditions-Keeps capi machine_names (machine_names-IsQuiet capi) client)).at
        _
      ∙ ap names (machines-assembled owned s done)
