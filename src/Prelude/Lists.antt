-- ===== src/Prelude/Lists.antt =====
-- Lists measured by native numbers, and the searches that the code writes as loops.
use Prim.Native.Nat.{ℕ, suc, ◌+◌, ◌≤◌}
use mathlib.Core.Path.{◌≡◌, refl, ap, ◌∙◌}
use mathlib.Core.Logic.{inl, inr, ∥∥₁_elim}
use mathlib.Core.Bool.{Bool, true, false, ◌||◌, Bool-set}
use mathlib.Core.Option.{Option, none, some}
use mathlib.Core.List.{List, [], ◌∷◌, ◌++◌, Mem, Memᴰ}
use native.Mathlib.Omega.{arith}
use cluster_api_k3s.Prelude.Tests.{if◌then◌else◌, Bool-cases}

module _ {ℓ} {A : Type ℓ} where
  abbrev pub length : List A → ℕ
  length [] = 0
  length (x ∷ xs) = suc (length xs)

  -- `for _, x := range xs { if p(x) { ...; break } }`: the first element that passes.
  abbrev pub find : (A → Bool) → List A → Option A
  find p [] = none
  find p (x ∷ xs) = if p x then some x else find p xs

  abbrev pub any : (A → Bool) → List A → Bool
  any p [] = false
  any p (x ∷ xs) = p x || any p xs

  -- How many elements pass.
  abbrev pub count_if : (A → Bool) → List A → ℕ
  count_if p [] = 0
  count_if p (x ∷ xs) = if p x then suc (count_if p xs) else count_if p xs

  -- `for _, x := range xs { if p(x) { out = append(out, x) } }`
  abbrev pub keep : (A → Bool) → List A → List A
  keep p [] = []
  keep p (x ∷ xs) = if p x then x ∷ keep p xs else keep p xs

  pub length-append : (xs ys : List A) → length (xs ++ ys) ≡ length xs + length ys
  length-append [] ys = omega arith
  length-append (x ∷ xs) ys = omega (arith, length-append xs ys)

  pub length-keep_le : (p : A → Bool) (xs : List A) → length (keep p xs) ≤ length xs
  length-keep_le p [] = omega arith
  length-keep_le p (x ∷ xs) = ground (arith, length-keep_le p xs)

  all_kept_at :
      (p : A → Bool) (xs : List A) (x : A) → length (keep p xs) ≡ length xs → Memᴰ x xs → p x ≡ true
  all_kept_at p [] x h d = elim d [ ]
  all_kept_at p (y ∷ ys) x h (Memᴰ.head e) = elim (Bool-cases (p y)) [
    | inl pass ↦ ap p e ∙ pass
    | inr fail ↦ absurd (omega (arith, rw fail at h, length-keep_le p ys))
  ]
  all_kept_at p (y ∷ ys) x h (Memᴰ.tail d) = elim (Bool-cases (p y)) [
    | inl pass ↦ all_kept_at p ys x (omega (arith, rw pass at h)) d
    | inr fail ↦ absurd (omega (arith, rw fail at h, length-keep_le p ys))
  ]

  -- Where as many are kept as there are, each of them is kept.
  pub all_kept :
      (p : A → Bool) (xs : List A)
      → length (keep p xs) ≡ length xs
      → (x : A) → Mem x xs
      → p x ≡ true
  all_kept p xs h x mem = ∥∥₁_elim mem (Bool-set _ _) (all_kept_at p xs x h)

  none_kept_at :
      (p : A → Bool) (xs : List A) (x : A) → length (keep p xs) ≡ 0 → Memᴰ x xs → p x ≡ false
  none_kept_at p [] x h d = elim d [ ]
  none_kept_at p (y ∷ ys) x h (Memᴰ.head e) = elim (Bool-cases (p y)) [
    | inl pass ↦ absurd (ground arith)
    | inr fail ↦ ap p e ∙ fail
  ]
  none_kept_at p (y ∷ ys) x h (Memᴰ.tail d) = elim (Bool-cases (p y)) [
    | inl pass ↦ absurd (ground arith)
    | inr fail ↦ none_kept_at p ys x (ground arith) d
  ]

  -- Where none is kept, none of them passes.
  pub none_kept :
      (p : A → Bool) (xs : List A) → length (keep p xs) ≡ 0 → (x : A) → Mem x xs → p x ≡ false
  none_kept p xs h x mem = ∥∥₁_elim mem (Bool-set _ _) (none_kept_at p xs x h)

  pub find-some : (p : A → Bool) (xs : List A) (x : A) → find p xs ≡ some x → p x ≡ true
  find-some p [] x h = ground arith
  find-some p (y ∷ ys) x h = ground (arith, find-some p ys x)

  pub append-nil_left : (xs ys : List A) → xs ++ ys ≡ [] → (xs ≡ []) × (ys ≡ [])
  append-nil_left [] ys h = (refl, h)
  append-nil_left (x ∷ xs) ys h = cc
