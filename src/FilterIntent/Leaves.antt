-- ===== src/FilterIntent/Leaves.antt =====
-- What FilterIntent leaves of the values that are no maps: one stays exactly where no part of its path
-- is filtered.
use cluster_api_k3s.Prelude.{
  String, Bool, true, false, [], ◌∷◌, ◌++◌, not, ◌==◌, ◌&&◌, ◌||◌, ◌≡◌, refl, eq_iff, arith,
}
use cluster_api_k3s.FilterIntent.{
  FieldPath, Value, leaf, object, Fields, end, field, is_empty_map, filter_intent, filter_fields,
}

-- There is a value at the path that is no map, with that text.
unfoldable mutual
  pub holds : Value → FieldPath → String → Bool
  holds (leaf u) [] t = u == t
  holds (leaf u) (k ∷ p) t = false
  holds (object fs) [] t = false
  holds (object fs) (k ∷ p) t = holds_in fs k p t

  pub holds_in : Fields → String → FieldPath → String → Bool
  holds_in end k p t = false
  holds_in (field j v fs) k p t = j == k && holds v p t || holds_in fs k p t

-- No part of the path, continued from a base, is filtered.
unfoldable pub passes : (FieldPath → Bool) → FieldPath → FieldPath → Bool
passes should_filter base [] = true
passes should_filter base (k ∷ p) =
    not (should_filter (base ++ k ∷ [])) && passes should_filter (base ++ k ∷ []) p

holds-empty : (v : Value) (p : FieldPath) (t : String) → is_empty_map v ≡ true → holds v p t ≡ false
unfolding holds is_empty_map
holds-empty (leaf u) p t h = ground arith
holds-empty (object end) [] t h = refl
holds-empty (object end) (k ∷ p) t h = refl
holds-empty (object (field j v fs)) p t h = ground arith

mutual
  unfolding filter_intent filter_fields holds holds_in passes

  intent_lem :
      (f : FieldPath → Bool) (base : FieldPath) (v : Value) (p : FieldPath) (t : String)
      → holds (filter_intent f base v).1 p t ≡ (holds v p t && passes f base p)
  intent_lem f base (leaf u) [] t = ground arith
  intent_lem f base (leaf u) (k ∷ p) t = refl
  intent_lem f base (object fs) [] t = refl
  intent_lem f base (object fs) (k ∷ p) t = fields_lem f base fs k p t

  fields_lem :
      (f : FieldPath → Bool) (base : FieldPath) (fs : Fields) (k : String) (p : FieldPath)
      (t : String)
      → holds_in (filter_fields f base fs).1 k p t
        ≡ (holds_in fs k p t && (not (f (base ++ k ∷ [])) && passes f (base ++ k ∷ []) p))
  fields_lem f base end k p t = refl
  fields_lem f base (field j v fs) k p t = ground (
    arith,
    fields_lem f base fs k p t,
    intent_lem f (base ++ k ∷ []) v p t,
    holds-empty (filter_intent f (base ++ k ∷ []) v).1 p t,
    eq_iff j k,
  )

-- After FilterIntent a path holds a text exactly if it held it before and no part of the path,
-- from its first field to the whole of it, is filtered.
pub holds-filter_intent :
    (f : FieldPath → Bool) (base : FieldPath) (v : Value) (p : FieldPath) (t : String)
    → holds (filter_intent f base v).1 p t ≡ (holds v p t && passes f base p)
holds-filter_intent f base v p t = intent_lem f base v p t
