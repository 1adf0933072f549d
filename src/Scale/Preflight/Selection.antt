-- ===== src/Scale/Preflight/Selection.antt =====
-- Which machine a scale down selects.
use mathlib.Core.List.{not-mem-nil}
use cluster_api_k3s.Prelude.{
  ℕ, suc, String, true, List, [], ◌∷◌, Mem, length, ltb, if◌then◌else◌, ◌≡◌, refl, arith, subst,
  inl, inr, ◌⊎◌, ◌↔◌,
}
use cluster_api_k3s.Prelude.Exec.{ok}
use cluster_api_k3s.Api.{Machine, Capi, CapiLaws, ControlPlane}
use cluster_api_k3s.ControlPlane.{machine_with_delete_annotation}
use cluster_api_k3s.ControlPlane.Domains.{machine_in_failure_domain_with_most_machines-mem}
use cluster_api_k3s.Scale.Preflight.{candidates_for_scale_down, select_machine_for_scale_down}

abbrev delete_annotation : String
delete_annotation = "cluster.x-k8s.io/delete-machine"

-- The first three arms that hold a machine, and the last one otherwise.
abbrev first_of_four : {A : Type 0} → List A → List A → List A → List A → List A
first_of_four a b c d =
    if ltb 0 (length a)
    then a
    else if ltb 0 (length b)
    then b
    else if ltb 0 (length c)
    then c
    else d

positive : (n : ℕ) → ltb 0 (suc n) ≡ true
positive n = ground arith

some_arm :
    {A : Type 0} {m x : A} (b d : List A)
    → Mem m (if ltb 0 (length (x ∷ b)) then x ∷ b else d)
    → Mem m (x ∷ b)
some_arm {m = m} {x = x} b d h = subst (λ t. Mem m (if t then x ∷ b else d)) (positive (length b)) h

by_arm :
    {A : Type 0} {m : A} (a b c d : List A)
    → Mem m (first_of_four a b c d)
    → Mem m a
      ⊎ ((a ≡ []) × Mem m b)
      ⊎ ((a ≡ []) × (b ≡ []) × Mem m c)
      ⊎ ((a ≡ []) × (b ≡ []) × (c ≡ []) × Mem m d)
by_arm (x ∷ a) b c d h = inl (some_arm a _ h)
by_arm [] (x ∷ b) c d h = inr (inl (refl, some_arm b _ h))
by_arm [] [] (x ∷ c) d h = inr (inr (inl (refl, refl, some_arm c _ h)))
by_arm [] [] [] d h = inr (inr (inr (refl, refl, refl, h)))

empty-mem : {A : Type 0} {m : A} (ms : List A) → ms ≡ [] → Mem m ms → ⊥
empty-mem {m = m} ms e h = not-mem-nil (subst (λ l. Mem m l) e h)

-- A machine of the list that the user wants deleted.
abbrev pub IsAnnotatedIn : Capi → List Machine → Machine → Type 0
IsAnnotatedIn capi ms m = Mem m ms × (capi.has_annotation_key delete_annotation m ≡ true)

-- What the choice of a machine to delete respects.
pub record IsPreferred (capi : Capi) (machines outdated : List Machine) (m : Machine) : Type 0 where
  pub known : Mem m outdated ⊎ Mem m machines
  pub annotated_outdated_first :
      (a : Machine) → IsAnnotatedIn capi outdated a → IsAnnotatedIn capi outdated m
  pub annotated_first :
      (a : Machine)
      → IsAnnotatedIn capi machines a
      → capi.has_annotation_key delete_annotation m ≡ true
  pub outdated_first :
      (o : Machine)
      → Mem o outdated
      → ((a : Machine) → IsAnnotatedIn capi machines a → ⊥)
      → Mem m outdated

module _ (capi : Capi) (laws : CapiLaws capi) where
  annotated :
      (ms : List Machine) (m : Machine)
      → Mem m (machine_with_delete_annotation capi ms) ↔ IsAnnotatedIn capi ms m
  unfolding machine_with_delete_annotation
  annotated ms m = laws.mem_filter (capi.has_annotation_key delete_annotation) ms m

  candidates_lem :
      (c : ControlPlane) (outdated : List Machine) (m : Machine)
      → Mem m (candidates_for_scale_down capi c outdated)
      → IsPreferred capi c.machines outdated m
  unfolding candidates_for_scale_down
  candidates_lem c outdated m there =
      let A = machine_with_delete_annotation capi outdated in
      let B = machine_with_delete_annotation capi c.machines in
      elim (by_arm A B outdated c.machines there) [
        | inl h ↦
            let both = (annotated outdated m).0 h in
            record {
              known = inl both.0;
              annotated_outdated_first = λ a ha. both;
              annotated_first = λ a ha. both.1;
              outdated_first = λ o ho clean. both.0;
            }
        | inr (inl (e, h)) ↦
            let both = (annotated c.machines m).0 h in
            record {
              known = inr both.0;
              annotated_outdated_first =
                  λ a ha. absurd (empty-mem A e ((annotated outdated a).1 ha));
              annotated_first = λ a ha. both.1;
              outdated_first = λ o ho clean. absurd (clean m both);
            }
        | inr (inr (inl (e, f, h))) ↦ record {
          known = inl h;
          annotated_outdated_first = λ a ha. absurd (empty-mem A e ((annotated outdated a).1 ha));
          annotated_first = λ a ha. absurd (empty-mem B f ((annotated c.machines a).1 ha));
          outdated_first = λ o ho clean. h;
        }
        | inr (inr (inr (e, f, g, h))) ↦ record {
          known = inr h;
          annotated_outdated_first = λ a ha. absurd (empty-mem A e ((annotated outdated a).1 ha));
          annotated_first = λ a ha. absurd (empty-mem B f ((annotated c.machines a).1 ha));
          outdated_first = λ o ho clean. absurd (empty-mem outdated g ho);
        }
      ]

  -- A machine that is selected for a scale down is one of the outdated machines or of the control
  -- plane's. If an outdated machine is annotated for deletion, the selected one is outdated and
  -- annotated; if a machine of the control plane is annotated, so is the selected one; and if none of
  -- them is annotated but a machine is outdated, the selected one is outdated.
  pub select_machine_for_scale_down-IsPreferred :
      (c : ControlPlane) (outdated : List Machine) (m : Machine)
      → select_machine_for_scale_down capi c outdated ≡ ok m
      → IsPreferred capi c.machines outdated m
  unfolding select_machine_for_scale_down
  select_machine_for_scale_down-IsPreferred c outdated m h = candidates_lem c outdated m (
      machine_in_failure_domain_with_most_machines-mem capi laws c
        (candidates_for_scale_down capi c outdated) m h)
