-- ===== src/Secrets/Token/Reading.antt =====
-- The token that Reconcile stores is the one that Lookup reads.
use cluster_api_k3s.Prelude.{String, Option, none, some, ◌∷◌, lookup, ◌≡◌, refl, ap, ◌∙◌, sym}
use cluster_api_k3s.Prelude.Exec.{Outcome, ok, err, pure, stop, ◌>>◌, continue, handled}
use cluster_api_k3s.Api.{
  Error, not_found, other, ObjectKey, Secret, Requests, get_secret, generate_token, create_secret,
  ManagementClient, refused,
}
use cluster_api_k3s.Prelude.Exec.Post.{Holds, Holds-ok, Holds-continue, Holds-handled, Anyhow}
use cluster_api_k3s.Secrets.Token.Owned.{OwnershipLaws}
use cluster_api_k3s.Secrets.Certificates.Stored.{SecretsLaws}
use cluster_api_k3s.Secrets.Token.{
  Owner, Ownership, name, token_of, token_secret, get_token_secret, lookup_token, failed_lookup,
  store_token, generate_and_store, secret_found, reconcile,
}

module _ (own : Ownership) (client : ManagementClient) (owned : OwnershipLaws own)
    (laws : SecretsLaws client) (cluster : ObjectKey) (owner : Owner) where
  abbrev HasToken : String → Requests → Type 0
  HasToken token rs =
      (s : Secret) × (laws.stored rs cluster.namespace (name cluster.name) ≡ some s)
      × (lookup "value" s.entries ≡ some token)

  token_of-value : (s : Secret) (t : String) → lookup "value" s.entries ≡ some t → token_of s ≡ ok t
  unfolding token_of
  token_of-value s t h =
      ap (λ o. elim o [ none ↦ err (other "found token secret without value") | some v ↦ ok v ]) h

  abbrev made : String → Secret
  made token = own.set_controller_reference owner (token_secret cluster token)

  created-HasToken :
      (token : String) (rs : Requests)
      → client.create_secret rs (made token) ≡ none
      → HasToken token (create_secret (made token) ∷ rs)
  unfolding token_secret lookup
  created-HasToken token rs h =
      let s = made token in
      let n = owned.set_namespace owner (token_secret cluster token) in
      let m = owned.set_name owner (token_secret cluster token) in
      (
        s,
        sym (
              ap (λ k. laws.stored (create_secret s ∷ rs) k s.name) n
              ∙ ap (λ k. laws.stored (create_secret s ∷ rs) cluster.namespace k) m)
            ∙ laws.create_stored rs s h,
        ap (lookup "value") (owned.set_entries owner (token_secret cluster token)),
      )

  tell-HasToken :
      (token : String) (rs : Requests) (a : Option Error)
      → client.create_secret rs (made token) ≡ a
      → Holds (λ u. HasToken token) Anyhow (refused a, create_secret (made token) ∷ rs)
  tell-HasToken token rs none h = created-HasToken token rs h
  tell-HasToken token rs (some e) h = tt

  store_token-HasToken :
      (token : String) (rs : Requests)
      → Holds (λ u. HasToken token) Anyhow (store_token client (made token) rs)
  unfolding store_token
  store_token-HasToken token rs =
      Holds-handled _ _ (λ u. HasToken token) Anyhow Anyhow (tell-HasToken token rs _ refl)
        (λ e s x. tt)

  drawn-HasToken :
      (rs : Requests) (a : Outcome Error String)
      → Holds
          (λ t rs'. (a ≡ ok t) × HasToken t rs')
          Anyhow
          (continue
            (handled (a, generate_token ∷ rs) (λ e. stop (other "failed to generate token")))
            (λ token. store_token client (made token) >> pure token))
  drawn-HasToken rs (ok token) =
      Holds-continue (store_token client (made token) (generate_token ∷ rs)) (λ u. pure token)
        (λ u. HasToken token) (λ t rs'. (ok token ≡ ok t) × HasToken t rs') Anyhow
        (store_token-HasToken token _) (λ u rs' h. (refl, h))
  drawn-HasToken rs (err e) = tt

  abbrev Reconciled : Requests → Requests → Type 0
  Reconciled rs rs' = (t : String) × ((client.random rs ≡ ok t) × HasToken t rs')

  missing-HasToken :
      (rs : Requests) (a : Outcome Error Secret)
      → a ≡ err not_found
      → Holds (λ u. Reconciled rs) Anyhow (secret_found own client cluster owner a rs)
  unfolding secret_found generate_and_store
  missing-HasToken rs (ok s) h = absurd cc
  missing-HasToken rs (err not_found) h =
      Holds-continue (generate_and_store own client cluster owner rs) (λ token. pure tt)
        (λ t rs'. (client.random rs ≡ ok t) × HasToken t rs') (λ u. Reconciled rs) Anyhow
        (drawn-HasToken rs (client.random rs)) (λ t rs' h. (t, h))
  missing-HasToken rs (err e) h = absurd cc

  found-token :
      (t t' : String) (rs : Requests) (a : Outcome Error Secret)
      → client.get_secret rs cluster.namespace (name cluster.name) ≡ a
      → HasToken t rs
      → (failed_lookup a (get_secret cluster.namespace (name cluster.name) ∷ rs)).0 ≡ ok t'
      → t ≡ t'
  unfolding failed_lookup
  found-token t t' rs (err e) g h k = absurd cc
  found-token t t' rs (ok s) g (s', stored, value) k =
      let found = laws.get_stored rs cluster.namespace (name cluster.name) s g in
      let same : s' ≡ s = cc in
      let read = token_of-value s t (ap (λ x. lookup "value" x.entries) (sym same) ∙ value) in cc

  -- Where there is no secret of the token, nobody else touches the secrets and Reconcile returns, a
  -- Lookup that returns after it gives the token that was drawn at random.
  pub reconcile-lookup :
      (rs : Requests) (token : String)
      → client.get_secret rs cluster.namespace (name cluster.name) ≡ err not_found
      → (reconcile own client cluster owner rs).0 ≡ ok tt
      → (lookup_token client cluster (reconcile own client cluster owner rs).1).0 ≡ ok token
      → client.random (get_secret cluster.namespace (name cluster.name) ∷ rs) ≡ ok token
  unfolding reconcile get_token_secret lookup_token
  reconcile-lookup rs token missing done read =
      let rs1 = get_secret cluster.namespace (name cluster.name) ∷ rs in
      let (t, (drawn, has)) =
        Holds-ok (secret_found own client cluster owner _ rs1) (λ u. Reconciled rs1) Anyhow tt
          (missing-HasToken rs1 _ missing) done in
      drawn ∙ ap ok (found-token t token _ _ refl has read)
