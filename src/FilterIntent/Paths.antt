-- ===== src/FilterIntent/Paths.antt =====
-- Which paths overlap: one is a first part of the other. What overlaps an allowed path does so with
-- all of its first parts, so nothing above an allowed path is dropped.
use mathlib.Core.List.{append_assoc}
use cluster_api_k3s.Prelude.{
  String, true, false, List, [], ◌∷◌, ◌++◌, length, ltb, ◌&&◌, ◌||◌, ◌≡◌, refl, subst, eq_iff,
  arith,
}
use cluster_api_k3s.FilterIntent.{
  FieldPath, agrees, equal, is_parent_of, overlaps, is_path_allowed, is_path_not_allowed,
  is_path_ignored, Value, filter_allowed, filter_ignored, filter_object,
}
use cluster_api_k3s.FilterIntent.Leaves.{holds, passes, holds-filter_intent}

agrees-length : (p q : FieldPath) → agrees p q ≡ true → ltb (length q) (length p) ≡ false
unfolding agrees
agrees-length [] q h = ground arith
agrees-length (k ∷ p) [] h = ground arith
agrees-length (k ∷ p) (j ∷ q) h = ground (arith, agrees-length p q)

agrees_sym : (p q : FieldPath) → agrees p q ≡ true → length p ≡ length q → agrees q p ≡ true
unfolding agrees
agrees_sym [] [] h e = refl
agrees_sym [] (j ∷ q) h e = ground arith
agrees_sym (k ∷ p) [] h e = ground arith
agrees_sym (k ∷ p) (j ∷ q) h e = ground (arith, agrees_sym p q, eq_iff k j, eq_iff j k)

-- Two paths overlap exactly if one is a first part of the other, or both are the same.
pub overlaps-agrees : (p q : FieldPath) → overlaps p q ≡ (agrees p q || agrees q p)
unfolding overlaps equal is_parent_of
overlaps-agrees p q =
    ground (arith, agrees-length p q, agrees-length q p, agrees_sym p q, agrees_sym q p)

agrees_first : (p q other : FieldPath) → agrees (p ++ q) other ≡ true → agrees p other ≡ true
unfolding agrees
agrees_first [] q other h = refl
agrees_first (k ∷ p) q [] h = ground arith
agrees_first (k ∷ p) q (j ∷ other) h = ground (arith, agrees_first p q other)

agrees_cut :
    (other p q : FieldPath)
    → agrees other (p ++ q) ≡ true
    → (agrees p other || agrees other p) ≡ true
unfolding agrees
agrees_cut [] p q h = ground arith
agrees_cut (j ∷ other) [] q h = ground arith
agrees_cut (j ∷ other) (k ∷ p) q h = ground (arith, agrees_cut other p q, eq_iff j k, eq_iff k j)

overlaps_first : (p q other : FieldPath) → overlaps (p ++ q) other ≡ true → overlaps p other ≡ true
overlaps_first p q other h = ground (
  arith,
  overlaps-agrees (p ++ q) other,
  overlaps-agrees p other,
  agrees_first p q other,
  agrees_cut other p q,
)

-- What is allowed is allowed with all that lies above it.
is_path_allowed_first :
    (allowed : List FieldPath) (p q : FieldPath)
    → is_path_allowed allowed (p ++ q) ≡ true
    → is_path_allowed allowed p ≡ true
unfolding is_path_allowed
is_path_allowed_first [] p q h = h
is_path_allowed_first (a ∷ allowed) p q h =
    ground (arith, overlaps_first p q a, is_path_allowed_first allowed p q)

passes-not_allowed :
    (allowed : List FieldPath) (base : FieldPath) (k : String) (p : FieldPath)
    → passes (is_path_not_allowed allowed) base (k ∷ p) ≡ is_path_allowed allowed (base ++ k ∷ p)
unfolding passes is_path_not_allowed
passes-not_allowed allowed base k [] = ground arith
passes-not_allowed allowed base k (j ∷ p) =
    let whole : (base ++ k ∷ []) ++ j ∷ p ≡ base ++ k ∷ j ∷ p =
      append_assoc base (k ∷ []) (j ∷ p) in
    let rest = passes-not_allowed allowed (base ++ k ∷ []) j p in
    let first = is_path_allowed_first allowed (base ++ k ∷ []) (j ∷ p) in
    subst (λ w. passes (is_path_not_allowed allowed) base (k ∷ j ∷ p) ≡ is_path_allowed allowed w)
      whole (ground (arith, rest, first))

passes-nothing : (base p : FieldPath) → passes (is_path_ignored []) base p ≡ true
unfolding passes is_path_ignored
passes-nothing base [] = refl
passes-nothing base (k ∷ p) = passes-nothing (base ++ k ∷ []) p

allowed_lem :
    (a : FieldPath) (allowed : List FieldPath) (v : Value) (k : String) (p : FieldPath) (t : String)
    → holds (filter_allowed (a ∷ allowed) v) (k ∷ p) t
      ≡ (holds v (k ∷ p) t && is_path_allowed (a ∷ allowed) (k ∷ p))
unfolding filter_allowed
allowed_lem a allowed v k p t =
    rw
      (
        holds-filter_intent (is_path_not_allowed (a ∷ allowed)) [] v (k ∷ p) t,
        passes-not_allowed (a ∷ allowed) [] k p,
      )
      refl

ignored_lem :
    (ignored : List FieldPath) (v : Value) (p : FieldPath) (t : String)
    → holds (filter_ignored ignored v) p t ≡ (holds v p t && passes (is_path_ignored ignored) [] p)
unfolding filter_ignored
ignored_lem [] v p t = ground (arith, passes-nothing [] p)
ignored_lem (a ∷ ignored) v p t = holds-filter_intent (is_path_ignored (a ∷ ignored)) [] v p t

-- With allowed paths given, a value that is no map, such as a text, is at a path after FilterObject
-- exactly if it was there before, the path overlaps an allowed one, and neither it nor any path above
-- it is one of the ignored paths.
pub holds-filter_object :
    (a : FieldPath) (allowed ignored : List FieldPath) (v : Value) (k : String) (p : FieldPath)
    (t : String)
    → holds (filter_object (a ∷ allowed) ignored v) (k ∷ p) t ≡ (
        holds v (k ∷ p) t
        && is_path_allowed (a ∷ allowed) (k ∷ p)
        && passes (is_path_ignored ignored) [] (k ∷ p))
unfolding filter_object
holds-filter_object a allowed ignored v k p t =
    rw
      (
        ignored_lem ignored (filter_allowed (a ∷ allowed) v) (k ∷ p) t,
        allowed_lem a allowed v k p t,
      )
      refl
