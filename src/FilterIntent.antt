-- ===== src/FilterIntent.antt =====
-- pkg/util/ssa/filterintent.go, with the paths of pkg/util/contract/types.go: dropping from an
-- object what a server-side apply has no opinion about. A run filters every field by itself, so the
-- order in which Go visits the map does not matter.
pub mod Kept
pub mod Paths
pub mod Leaves
use cluster_api_k3s.Prelude.{
  String, Bool, true, false, List, [], ◌∷◌, ◌++◌, length, any, ltb, eqb, not, ◌==◌, ◌&&◌, ◌||◌,
  if◌then◌else◌,
}

-- contract.Path
abbrev pub FieldPath : Type 0
FieldPath = List String

-- `for i := range p { if p[i] != other[i] { return false } }; return true`, for a p that is not
-- the longer one
unfoldable pub agrees : FieldPath → FieldPath → Bool
agrees [] other = true
agrees (k ∷ p) [] = false
agrees (k ∷ p) (j ∷ other) = k == j && agrees p other

unfoldable pub is_parent_of : FieldPath → FieldPath → Bool
unfolding agrees
is_parent_of p other = if not (ltb (length p) (length other)) then false else agrees p other

unfoldable pub equal : FieldPath → FieldPath → Bool
unfolding agrees
equal p other = if not (eqb (length p) (length other)) then false else agrees p other

unfoldable pub overlaps : FieldPath → FieldPath → Bool
unfolding is_parent_of equal
overlaps p other = equal other p || is_parent_of other p || is_parent_of p other

unfoldable pub is_path_allowed : List FieldPath → FieldPath → Bool
unfolding overlaps
is_path_allowed allowed path = any (overlaps path) allowed

unfoldable pub is_path_not_allowed : List FieldPath → FieldPath → Bool
unfolding is_path_allowed
is_path_not_allowed allowed path = not (is_path_allowed allowed path)

unfoldable pub is_path_ignored : List FieldPath → FieldPath → Bool
unfolding equal
is_path_ignored ignored path = any (equal path) ignored

-- The content of an unstructured object: a map, or any other value by its text.
mutual
  pub data Value : Type 0 where
    leaf : String → Value
    object : Fields → Value

  pub data Fields : Type 0 where
    end : Fields
    field : String → Value → Fields → Fields

-- `v, ok := value.(map[string]interface{}); ok && len(v) == 0`
unfoldable pub is_empty_map : Value → Bool
is_empty_map (leaf t) = false
is_empty_map (object end) = true
is_empty_map (object (field k v fs)) = false

-- FilterIntent: whether it deleted a field of this very map, and the value as it leaves it.
unfoldable mutual
  unfolding is_empty_map

  pub filter_intent : (FieldPath → Bool) → FieldPath → Value → Bool × Value
  filter_intent should_filter path (leaf t) = (false, leaf t)
  filter_intent should_filter path (object fs) =
      let rest = filter_fields should_filter path fs in (rest.0, object rest.1)

  pub filter_fields : (FieldPath → Bool) → FieldPath → Fields → Bool × Fields
  filter_fields should_filter path end = (false, end)
  filter_fields should_filter path (field k v fs) =
      let rest = filter_fields should_filter path fs in
      let nested = filter_intent should_filter (path ++ k ∷ []) v in
      if should_filter (path ++ k ∷ [])
      then (true, rest.1)
      else if nested.0 && is_empty_map nested.1
      then (true, rest.1)
      else (rest.0, field k nested.1 rest.1)

unfoldable pub filter_allowed : List FieldPath → Value → Value
unfolding filter_intent is_path_not_allowed
filter_allowed [] v = v
filter_allowed (a ∷ allowed) v = (filter_intent (is_path_not_allowed (a ∷ allowed)) [] v).1

unfoldable pub filter_ignored : List FieldPath → Value → Value
unfolding filter_intent is_path_ignored
filter_ignored [] v = v
filter_ignored (a ∷ ignored) v = (filter_intent (is_path_ignored (a ∷ ignored)) [] v).1

unfoldable pub filter_object : List FieldPath → List FieldPath → Value → Value
unfolding filter_allowed filter_ignored
filter_object allowed ignored v = filter_ignored ignored (filter_allowed allowed v)
