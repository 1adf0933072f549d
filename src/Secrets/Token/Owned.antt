-- ===== src/Secrets/Token/Owned.antt =====
-- upsertControllerRef: who controls the token afterwards, and which owners it keeps.
use cluster_api_k3s.Prelude.{
  String, Bool, true, false, Option, none, some, List, [], ◌∷◌, ◌++◌, find, keep, any, not, ◌==◌,
  eq_refl, ◌≡◌, refl, arith, ap, ◌∙◌,
}
use cluster_api_k3s.Api.{OwnerReference, Secret}
use cluster_api_k3s.Secrets.Token.{
  Owner, Ownership, new_controller_ref, replace_controllers, upsert_controller_ref,
}

abbrev pub has_uid : String → Option OwnerReference → Bool
has_uid uid none = false
has_uid uid (some r) = r.uid == uid

pub record OwnershipLaws (own : Ownership) : Type 0 where
  -- the first controlling reference counts, by its uid
  pub controlled_by :
      (refs : List OwnerReference) (uid : String)
      → own.is_controlled_by refs uid ≡ has_uid uid (find (λ r. r.controller) refs)
  -- a controller reference is an owner reference, and nothing else of the object
  pub set_namespace :
      (owner : Owner) (s : Secret) → (own.set_controller_reference owner s).namespace ≡ s.namespace
  pub set_name : (owner : Owner) (s : Secret) → (own.set_controller_reference owner s).name ≡ s.name
  pub set_entries :
      (owner : Owner) (s : Secret) → (own.set_controller_reference owner s).entries ≡ s.entries

find-append_none :
    (new : OwnerReference) (refs : List OwnerReference)
    → new.controller ≡ true
    → any (λ r. r.controller) refs ≡ false
    → find (λ r. r.controller) (replace_controllers new refs ++ new ∷ []) ≡ some new
unfolding replace_controllers
find-append_none new [] c h = ground arith
find-append_none new (r ∷ refs) c h = ground (arith, find-append_none new refs c)

find-replace_controllers :
    (new : OwnerReference) (refs : List OwnerReference)
    → new.controller ≡ true
    → any (λ r. r.controller) refs ≡ true
    → find (λ r. r.controller) (replace_controllers new refs) ≡ some new
unfolding replace_controllers
find-replace_controllers new [] c h = ground arith
find-replace_controllers new (r ∷ refs) c h = ground (arith, find-replace_controllers new refs c)

find-upsert_controller_ref :
    (new : OwnerReference) (refs : List OwnerReference)
    → new.controller ≡ true
    → find (λ r. r.controller) (upsert_controller_ref new refs) ≡ some new
unfolding upsert_controller_ref
find-upsert_controller_ref new refs c =
    ground (arith, find-append_none new refs c, find-replace_controllers new refs c)

keep-append_none :
    (new : OwnerReference) (refs : List OwnerReference)
    → new.controller ≡ true
    → keep (λ r. not r.controller) (replace_controllers new refs ++ new ∷ [])
      ≡ keep (λ r. not r.controller) refs
unfolding replace_controllers
keep-append_none new [] c = ground arith
keep-append_none new (r ∷ refs) c = ground (arith, keep-append_none new refs c)

keep-replace_controllers :
    (new : OwnerReference) (refs : List OwnerReference)
    → new.controller ≡ true
    → keep (λ r. not r.controller) (replace_controllers new refs)
      ≡ keep (λ r. not r.controller) refs
unfolding replace_controllers
keep-replace_controllers new [] c = refl
keep-replace_controllers new (r ∷ refs) c = ground (arith, keep-replace_controllers new refs c)

keep-upsert_controller_ref :
    (new : OwnerReference) (refs : List OwnerReference)
    → new.controller ≡ true
    → keep (λ r. not r.controller) (upsert_controller_ref new refs)
      ≡ keep (λ r. not r.controller) refs
unfolding upsert_controller_ref
keep-upsert_controller_ref new refs c =
    ground (arith, keep-append_none new refs c, keep-replace_controllers new refs c)

-- After upsertControllerRef the secret is controlled by the new owner, whatever references it had,
-- and the references that do not control it are as they were, in their order.
pub upsert_controller_ref_lem :
    (own : Ownership)
    → OwnershipLaws own
    → (owner : Owner) (refs : List OwnerReference)
    → (own.is_controlled_by (upsert_controller_ref (new_controller_ref owner) refs) owner.uid
        ≡ true)
      × (keep (λ r. not r.controller) (upsert_controller_ref (new_controller_ref owner) refs)
          ≡ keep (λ r. not r.controller) refs)
upsert_controller_ref_lem own laws owner refs = (
  laws.controlled_by _ owner.uid
      ∙ ap (has_uid owner.uid) (find-upsert_controller_ref (new_controller_ref owner) refs refl)
      ∙ eq_refl owner.uid,
  keep-upsert_controller_ref (new_controller_ref owner) refs refl,
)
