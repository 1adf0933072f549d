-- ===== src/FilterIntent/Kept.antt =====
-- Which fields FilterIntent leaves in an object, maps among them: a map stays that is empty already,
-- and one that becomes empty goes.
use cluster_api_k3s.Prelude.{
  String, Bool, true, false, [], ◌∷◌, ◌++◌, not, if◌then◌else◌, ◌==◌, ◌&&◌, ◌||◌, Bool-cases, inl,
  inr, ◌≡◌, refl, sym, ◌∙◌, arith,
}
use cluster_api_k3s.FilterIntent.{
  FieldPath, Value, leaf, object, Fields, end, field, is_empty_map, filter_intent, filter_fields,
}

-- There is a value at a path.
unfoldable mutual
  pub has : Value → FieldPath → Bool
  has v [] = true
  has (leaf u) (k ∷ p) = false
  has (object fs) (k ∷ p) = has_in fs k p

  pub has_in : Fields → String → FieldPath → Bool
  has_in end k p = false
  has_in (field j v fs) k p = j == k && has v p || has_in fs k p

-- Something is left of a value whose filtered fields go: it is no map, or it is an empty one, or it has
-- a field that is not filtered and of which something is left.
unfoldable mutual
  pub is_left : (FieldPath → Bool) → FieldPath → Value → Bool
  is_left f base (leaf u) = true
  is_left f base (object end) = true
  is_left f base (object (field k v fs)) =
      not (f (base ++ k ∷ [])) && is_left f (base ++ k ∷ []) v || any_left f base fs

  pub any_left : (FieldPath → Bool) → FieldPath → Fields → Bool
  any_left f base end = false
  any_left f base (field k v fs) =
      not (f (base ++ k ∷ [])) && is_left f (base ++ k ∷ []) v || any_left f base fs

-- There is a value at the path of which something is left, and no part of the path is filtered.
unfoldable mutual
  unfolding is_left

  pub is_kept : (FieldPath → Bool) → FieldPath → Value → FieldPath → Bool
  is_kept f base v [] = is_left f base v
  is_kept f base (leaf u) (k ∷ p) = false
  is_kept f base (object fs) (k ∷ p) = is_kept_in f base fs k p

  pub is_kept_in : (FieldPath → Bool) → FieldPath → Fields → String → FieldPath → Bool
  is_kept_in f base end k p = false
  is_kept_in f base (field j v fs) k p =
      j == k && (not (f (base ++ j ∷ [])) && is_kept f (base ++ j ∷ []) v p)
      || is_kept_in f base fs k p

-- What is deleted from a value that had fields and comes out empty.
dropped : (FieldPath → Bool) → FieldPath → Value → Bool
unfolding filter_intent is_empty_map
dropped f base v = (filter_intent f base v).0 && is_empty_map (filter_intent f base v).1

no_fields : Fields → Bool
no_fields fs = is_empty_map (object fs)

-- One field of a map: it goes if it is filtered or dropped, and the map is empty without it.
abbrev one_field : Bool → Bool → String → Value → Bool × Fields → Bool × Fields
one_field filtered drop k v rest =
    if filtered then (true, rest.1) else if drop then (true, rest.1) else (rest.0, field k v rest.1)

one_field_lem :
    (filtered drop : Bool) (k : String) (v : Value) (rest : Bool × Fields)
    → let r = one_field filtered drop k v rest in
      ((r.0 && no_fields r.1) ≡ ((filtered || drop) && no_fields rest.1))
      × (no_fields r.1 ≡ ((filtered || drop) && no_fields rest.1))
unfolding no_fields is_empty_map
one_field_lem true drop k v rest = (refl, refl)
one_field_lem false true k v rest = (refl, refl)
one_field_lem false false k v (b, fs) = (ground arith, refl)

neither : (f l a d n : Bool) → d ≡ not l → n ≡ not a → ((f || d) && n) ≡ not (not f && l || a)
neither f l a d n h k = ground arith

mutual
  unfolding filter_intent filter_fields is_left any_left dropped is_empty_map no_fields

  dropped_lem :
      (f : FieldPath → Bool) (base : FieldPath) (v : Value)
      → dropped f base v ≡ not (is_left f base v)
  dropped_lem f base (leaf u) = refl
  dropped_lem f base (object end) = refl
  dropped_lem f base (object (field k v fs)) =
      (one_field_lem (f (base ++ k ∷ [])) (dropped f (base ++ k ∷ []) v) k
        (filter_intent f (base ++ k ∷ []) v).1 (filter_fields f base fs)).0
      ∙ neither (f (base ++ k ∷ [])) (is_left f (base ++ k ∷ []) v) (any_left f base fs) _ _
          (dropped_lem f (base ++ k ∷ []) v) (no_fields_lem f base fs)

  no_fields_lem :
      (f : FieldPath → Bool) (base : FieldPath) (fs : Fields)
      → no_fields (filter_fields f base fs).1 ≡ not (any_left f base fs)
  no_fields_lem f base end = refl
  no_fields_lem f base (field k v fs) =
      (one_field_lem (f (base ++ k ∷ [])) (dropped f (base ++ k ∷ []) v) k
        (filter_intent f (base ++ k ∷ []) v).1 (filter_fields f base fs)).1
      ∙ neither (f (base ++ k ∷ [])) (is_left f (base ++ k ∷ []) v) (any_left f base fs) _ _
          (dropped_lem f (base ++ k ∷ []) v) (no_fields_lem f base fs)

-- An empty map has a value at no path but the empty one.
has-empty : (v : Value) (k : String) (p : FieldPath) → is_empty_map v ≡ true → has v (k ∷ p) ≡ false
unfolding has is_empty_map
has-empty (leaf u) k p h = refl
has-empty (object end) k p h = refl
has-empty (object (field j v fs)) k p h = ground arith

-- A path through one field, and the rest of the map.
has-one_field :
    (filtered drop : Bool) (j : String) (v : Value) (rest : Bool × Fields) (k : String)
    (p : FieldPath)
    → has_in (one_field filtered drop j v rest).1 k p
      ≡ (j == k && (not filtered && (not drop && has v p)) || has_in rest.1 k p)
unfolding has has_in
has-one_field true drop j v rest k p = ground arith
has-one_field false true j v rest k p = ground arith
has-one_field false false j v rest k p = ground arith

no_and : (b : Bool) → (not b && false) ≡ false
no_and b = ground arith

not_and : (b h : Bool) → (not (b && false) && h) ≡ h
not_and b h = ground arith

twice : (b : Bool) → (not (not b) && true) ≡ b
twice b = ground arith

-- What is dropped has no value at a path.
undropped_has :
    (f : FieldPath → Bool) (base : FieldPath) (v : Value) (k : String) (p : FieldPath)
    → (not (dropped f base v) && has (filter_intent f base v).1 (k ∷ p))
      ≡ has (filter_intent f base v).1 (k ∷ p)
unfolding dropped
undropped_has f base v k p =
    let r = filter_intent f base v in
    elim (Bool-cases (is_empty_map r.1)) [
      | inl empty ↦ rw (has-empty r.1 k p empty) (no_and (r.0 && is_empty_map r.1))
      | inr full ↦ rw full (not_and r.0 (has r.1 (k ∷ p)))
    ]

undropped_self :
    (f : FieldPath → Bool) (base : FieldPath) (v : Value)
    → (not (dropped f base v) && has (filter_intent f base v).1 []) ≡ is_left f base v
unfolding has
undropped_self f base v = rw (dropped_lem f base v) (twice (is_left f base v))

kept_step :
    (same f d h kept rest rest' : Bool)
    → (not d && h) ≡ kept
    → rest ≡ rest'
    → (same && (not f && (not d && h)) || rest) ≡ (same && (not f && kept) || rest')
kept_step same f d h kept rest rest' e g = rw (e, g) refl

mutual
  unfolding filter_intent filter_fields has is_kept is_kept_in dropped

  undropped_lem :
      (f : FieldPath → Bool) (base : FieldPath) (v : Value) (p : FieldPath)
      → (not (dropped f base v) && has (filter_intent f base v).1 p) ≡ is_kept f base v p
  undropped_lem f base (leaf u) [] = undropped_self f base (leaf u)
  undropped_lem f base (leaf u) (k ∷ p) = refl
  undropped_lem f base (object fs) [] = undropped_self f base (object fs)
  undropped_lem f base (object fs) (k ∷ p) =
      undropped_has f base (object fs) k p ∙ has_in_lem f base fs k p

  has_in_lem :
      (f : FieldPath → Bool) (base : FieldPath) (fs : Fields) (k : String) (p : FieldPath)
      → has_in (filter_fields f base fs).1 k p ≡ is_kept_in f base fs k p
  has_in_lem f base end k p = refl
  has_in_lem f base (field j v fs) k p =
      has-one_field (f (base ++ j ∷ [])) (dropped f (base ++ j ∷ []) v) j
        (filter_intent f (base ++ j ∷ []) v).1 (filter_fields f base fs) k p
      ∙ kept_step (j == k) (f (base ++ j ∷ [])) (dropped f (base ++ j ∷ []) v)
          (has (filter_intent f (base ++ j ∷ []) v).1 p) _ _ _
          (undropped_lem f (base ++ j ∷ []) v p) (has_in_lem f base fs k p)

-- After FilterIntent there is a value at a path of one field or more, be it a map or another value,
-- exactly if there was one before, no part of the path is filtered, and something is left of the
-- value: it is no map, or a map that was empty before, or a map with a field that is not filtered and
-- of which something is left.
pub has-filter_intent :
    (f : FieldPath → Bool) (base : FieldPath) (v : Value) (k : String) (p : FieldPath)
    → has (filter_intent f base v).1 (k ∷ p) ≡ is_kept f base v (k ∷ p)
unfolding is_kept
has-filter_intent f base v k p = sym (undropped_has f base v k p) ∙ undropped_lem f base v (k ∷ p)
