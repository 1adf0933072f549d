-- ===== src/Workload/Conditions/Reports.antt =====
-- The loop of updateManagedEtcdConditions that reports the machines whose etcd member is missing:
-- a machine that is reported stays reported.
use mathlib.Core.List.{Memᴰ}
use cluster_api_k3s.Prelude.{
  String, Bool, true, List, [], ◌∷◌, any, if◌then◌else◌, ◌==◌, ◌≡◌, refl, sym, ap, ◌∙◌, arith,
  eq_iff, Bool-cases, inl, inr,
}
use cluster_api_k3s.Prelude.Exec.{Outcome, ok}
use cluster_api_k3s.Api.{
  condition_false, Machine, Member, Capi, CapiLaws, Session, machine_etcd_member_healthy_condition,
}
use cluster_api_k3s.Controllers.{replace, current, store, set_condition}
use cluster_api_k3s.Workload.Conditions.{has_status, set}
use cluster_api_k3s.Workload.Conditions.Aggregate.{has}
use cluster_api_k3s.Workload.Conditions.EtcdHealth.{lacks_member, set_etcd, report_lacking}

abbrev pub named : String → List Machine → Bool
named name ms = any (λ (m : Machine). m.name == name) ms

named-replace :
    (m : Machine) (name : String) (ms : List Machine) → named name (replace m ms) ≡ named name ms
unfolding replace
named-replace m name [] = refl
named-replace m name (x ∷ xs) = ground (arith, named-replace m name xs, eq_iff x.name m.name)

current-name : (m : Machine) (ms : List Machine) → (current m ms).name ≡ m.name
unfolding current
current-name m [] = refl
current-name m (x ∷ xs) = ground (arith, current-name m xs, eq_iff x.name m.name)

module _ (p : Machine → Bool) where
  any-replace :
      (m : Machine) (ms : List Machine) → p m ≡ true → any p ms ≡ true → any p (replace m ms) ≡ true
  unfolding replace
  any-replace m [] h a = a
  any-replace m (x ∷ xs) h a = ground (arith, any-replace m xs)

  any-replace-named :
      (m : Machine) (ms : List Machine)
      → p m ≡ true
      → named m.name ms ≡ true
      → any p (replace m ms) ≡ true
  unfolding replace
  any-replace-named m [] h a = ground arith
  any-replace-named m (x ∷ xs) h a = ground (arith, any-replace-named m xs)

pub named_of_mem : (m : Machine) (ms : List Machine) → Memᴰ m ms → named m.name ms ≡ true
named_of_mem m [] d = elim d [ ]
named_of_mem m (x ∷ xs) (Memᴰ.head e) =
    let same = ap (λ (y : Machine). y.name) e in ground (arith, eq_iff x.name m.name)
named_of_mem m (x ∷ xs) (Memᴰ.tail d) = ground (arith, named_of_mem m xs d)

module _ (capi : Capi) (laws : CapiLaws capi) where
  -- A machine that reports its member unhealthy.
  abbrev pub bad : Machine → Bool
  bad m = has capi condition_false machine_etcd_member_healthy_condition m

  abbrev marked : Machine → Machine
  marked m = record m {
    conditions = capi.set_condition m.conditions (record {
      type = machine_etcd_member_healthy_condition;
      status = condition_false;
      reason = "EtcdMemberUnhealthy";
    });
  }

  pub marked-bad : (m : Machine) → bad (marked m) ≡ true
  marked-bad m = ap (has_status condition_false) (laws.get_set m.conditions _)

  -- One turn of the loop.
  abbrev reported : List Member → Machine → Session → Session
  unfolding set_condition
  reported ms m s =
      if lacks_member ms m
      then set_condition capi m machine_etcd_member_healthy_condition condition_false
          "EtcdMemberUnhealthy" s
      else s

  report_lacking-cons :
      (ms : List Member) (m : Machine) (left : List Machine) (s : Session)
      → report_lacking capi ms (m ∷ left) s ≡ report_lacking capi ms left (reported ms m s)
  unfolding report_lacking set_etcd set reported set_condition
  report_lacking-cons ms m left s = elim (Bool-cases (lacks_member ms m)) [
    | inl e ↦ rw e refl
    | inr e ↦ rw e refl
  ]

  reported-named :
      (ms : List Member) (m : Machine) (s : Session) (name : String)
      → named name (reported ms m s).plane.machines ≡ named name s.plane.machines
  unfolding set_condition store reported
  reported-named ms m s name = elim (Bool-cases (lacks_member ms m)) [
    | inl e ↦ rw e (named-replace (marked (current m s.plane.machines)) name s.plane.machines)
    | inr e ↦ rw e refl
  ]

  reported-any :
      (ms : List Member) (m : Machine) (s : Session)
      → any bad s.plane.machines ≡ true
      → any bad (reported ms m s).plane.machines ≡ true
  unfolding set_condition store reported
  reported-any ms m s h = elim (Bool-cases (lacks_member ms m)) [
    | inl e ↦ rw e (
        any-replace bad (marked (current m s.plane.machines)) s.plane.machines
          (marked-bad (current m s.plane.machines)) h)
    | inr e ↦ rw e h
  ]

  reported-lacks :
      (ms : List Member) (m : Machine) (s : Session)
      → lacks_member ms m ≡ true
      → named m.name s.plane.machines ≡ true
      → any bad (reported ms m s).plane.machines ≡ true
  unfolding set_condition store reported
  reported-lacks ms m s e h = rw e (
      any-replace-named bad (marked (current m s.plane.machines)) s.plane.machines
        (marked-bad (current m s.plane.machines))
        (ap (λ n. named n s.plane.machines) (current-name m s.plane.machines) ∙ h))

  -- The machines after the loop.
  abbrev pub after : List Member → List Machine → Session → List Machine
  after ms left s = ((report_lacking capi ms left s).1).plane.machines

  after-cons :
      (ms : List Member) (m : Machine) (left : List Machine) (s : Session)
      → after ms left (reported ms m s) ≡ after ms (m ∷ left) s
  after-cons ms m left s =
      ap (λ (r : Outcome Unit Unit × Session). (r.1).plane.machines)
        (sym (report_lacking-cons ms m left s))

  report_lacking-any :
      (ms : List Member) (left : List Machine) (s : Session)
      → any bad s.plane.machines ≡ true
      → any bad (after ms left s) ≡ true
  unfolding report_lacking
  report_lacking-any ms [] s h = h
  report_lacking-any ms (m ∷ left) s h =
      ap (any bad) (sym (after-cons ms m left s))
      ∙ report_lacking-any ms left (reported ms m s) (reported-any ms m s h)

  pub report_lacking-lacks :
      (ms : List Member) (left : List Machine) (s : Session) (m : Machine)
      → Memᴰ m left
      → named m.name s.plane.machines ≡ true
      → lacks_member ms m ≡ true
      → any bad (after ms left s) ≡ true
  report_lacking-lacks ms [] s m d h l = elim d [ ]
  report_lacking-lacks ms (x ∷ left) s m (Memᴰ.head e) h l =
      ap (any bad) (sym (after-cons ms x left s))
      ∙ report_lacking-any ms left (reported ms x s) (
          reported-lacks ms x s (ap (lacks_member ms) (sym e) ∙ l)
            (ap (λ (y : Machine). named y.name s.plane.machines) (sym e) ∙ h))
  report_lacking-lacks ms (x ∷ left) s m (Memᴰ.tail d) h l =
      ap (any bad) (sym (after-cons ms x left s))
      ∙ report_lacking-lacks ms left (reported ms x s) m d (reported-named ms x s m.name ∙ h) l

  pub report_lacking-ok :
      (ms : List Member) (left : List Machine) (s : Session)
      → (report_lacking capi ms left s).0 ≡ ok tt
  unfolding report_lacking
  report_lacking-ok ms [] s = refl
  report_lacking-ok ms (m ∷ left) s =
      ap (λ (r : Outcome Unit Unit × Session). r.0) (report_lacking-cons ms m left s)
      ∙ report_lacking-ok ms left (reported ms m s)

  reported-kcp :
      (ms : List Member) (m : Machine) (s : Session) → (reported ms m s).plane.kcp ≡ s.plane.kcp
  unfolding set_condition store reported
  reported-kcp ms m s = elim (Bool-cases (lacks_member ms m)) [
    | inl e ↦ rw e refl
    | inr e ↦ rw e refl
  ]

  pub report_lacking-kcp :
      (ms : List Member) (left : List Machine) (s : Session)
      → ((report_lacking capi ms left s).1).plane.kcp ≡ s.plane.kcp
  unfolding report_lacking
  report_lacking-kcp ms [] s = refl
  report_lacking-kcp ms (m ∷ left) s =
      ap (λ (r : Outcome Unit Unit × Session). (r.1).plane.kcp) (report_lacking-cons ms m left s)
      ∙ report_lacking-kcp ms left (reported ms m s)
      ∙ reported-kcp ms m s
