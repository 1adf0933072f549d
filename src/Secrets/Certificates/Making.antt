-- ===== src/Secrets/Certificates/Making.antt =====
-- A certificate that is generated or read gets a key pair; one that is saved is in a secret.
use cluster_api_k3s.Prelude.{
  false, Option, none, some, ◌∷◌, lookup, ◌==◌, inl, inr, ◌≡◌, refl, sym, ap, subst,
}
use cluster_api_k3s.Prelude.Exec.{ok, err, pure, continue}
use cluster_api_k3s.Prelude.Exec.Post.{Holds, Holds-if, Ensures, Ensures-bind, Ensures-if, Anyhow}
use cluster_api_k3s.Secrets.Certificates.Loops.{Stable, ask-Ensures}
use cluster_api_k3s.Api.{
  Error, nil_dereference, OwnerReference, ObjectKey, KeyPair, Requests, create_secret,
  ManagementClient, ask, tell, refused,
}
use cluster_api_k3s.Secrets.{api_server_etcd_client}
use cluster_api_k3s.Secrets.Certificates.{
  Certificate, secret_to_key_pair, as_secret, secret_of, generate, generate_unless, save_secret,
  save,
}
use cluster_api_k3s.Secrets.Certificates.Stored.{SecretsLaws, IsStored, IsLookedUp, IsComplete}

module _ (client : ManagementClient) (laws : SecretsLaws client) (cluster : ObjectKey) where
  abbrev pub IsMade : Certificate → Certificate → Requests → Type 0
  IsMade c c' rs = (c'.purpose ≡ c.purpose) × IsComplete client laws cluster c' rs

  generate-Ensures :
      (F : Requests → Type 0)
      → Stable F
      → (c : Certificate) → (c.purpose == api_server_etcd_client) ≡ false
      → Ensures F (generate client c) (λ c' rs. F rs × IsMade c c' rs) Anyhow
  unfolding generate
  generate-Ensures F stable c p =
      Ensures-if (c.purpose == api_server_etcd_client) (pure c) _ (λ user. absurd cc)
        λ _.
          Ensures-bind {A = KeyPair} (ask _ _) (λ kp. pure _) (λ kp. F)
            (λ c' rs. F rs × IsMade c c' rs) (ask-Ensures F stable _ _ refl)
            λ kp. record { at = λ rs f. (f, (refl, inl (refl, (kp, refl)))) }

  pub generate_unless-Ensures :
      (F : Requests → Type 0)
      → Stable F
      → (c : Certificate) (o : Option KeyPair) → c.key_pair ≡ o
      → Ensures
          (λ rs. F rs × IsLookedUp client laws cluster c rs)
          (generate_unless client c o)
          (λ c' rs. F rs × IsMade c c' rs)
          Anyhow
  unfolding generate_unless
  generate_unless-Ensures F stable c none e = record {
    at = λ rs (f, h). elim h [
      | inl (k, g, p) ↦ (generate-Ensures F stable c p).at rs f
      | inr (g, (s, kp, i, k, e')) ↦ absurd cc
    ];
  }
  generate_unless-Ensures F stable c (some kp) e = record {
    at = λ rs (f, h). elim h [ inl (k, g, p) ↦ absurd cc | inr i ↦ (f, (refl, inr i)) ];
  }

  created-IsStored :
      (F : Requests → Type 0)
      → Stable F
      → (owner : OwnerReference) (c : Certificate) (kp : KeyPair) → c.key_pair ≡ some kp
      → (rs : Requests) (a : Option Error)
      → client.create_secret rs (secret_of cluster owner c kp) ≡ a
      → F rs
      → Holds
          (λ u rs. F rs × IsStored client laws cluster c rs)
          Anyhow
          (refused a, create_secret (secret_of cluster owner c kp) ∷ rs)
  unfolding secret_of secret_to_key_pair lookup
  created-IsStored F stable owner c kp e rs none h f =
      (stable.at _ rs refl f, (_, kp, laws.create_stored rs _ h, refl, e))
  created-IsStored F stable owner c kp e rs (some x) h f = tt

  as_secret-some :
      (owner : OwnerReference) (c : Certificate) (kp : KeyPair)
      → c.key_pair ≡ some kp
      → as_secret cluster owner c ≡ ok (secret_of cluster owner c kp)
  unfolding as_secret
  as_secret-some owner c kp e =
      ap (λ o. elim o [ none ↦ err nil_dereference | some k ↦ ok (secret_of cluster owner c k) ]) e

  save_secret-Ensures :
      (F : Requests → Type 0)
      → Stable F
      → (owner : OwnerReference) (c : Certificate) (kp : KeyPair) → c.key_pair ≡ some kp
      → Ensures F
          (save_secret client cluster owner c)
          (λ u rs. F rs × IsStored client laws cluster c rs)
          Anyhow
  unfolding save_secret as_secret tell
  save_secret-Ensures F stable owner c kp e = record {
    at = λ rs f.
        subst
          (λ a.
            Holds (λ u rs. F rs × IsStored client laws cluster c rs) Anyhow
              (continue (a, rs) λ s. tell (create_secret s) (λ rs. client.create_secret rs s)))
          (sym (as_secret-some owner c kp e)) (created-IsStored F stable owner c kp e rs _ refl f);
  }

  pub save-Ensures :
      (owner : OwnerReference) (F : Requests → Type 0)
      → Stable F
      → (c : Certificate)
      → Ensures
          (λ rs. F rs × IsComplete client laws cluster c rs)
          (save client cluster owner c)
          (λ u rs. F rs × IsStored client laws cluster c rs)
          Anyhow
  unfolding save
  save-Ensures owner F stable c = record {
    at = λ rs (f, h).
        Holds-if (λ u rs. F rs × IsStored client laws cluster c rs) Anyhow c.generated
          (save_secret client cluster owner c) (pure tt) rs
          (λ g. elim h [
            | inl (_, (kp, e)) ↦ (save_secret-Ensures F stable owner c kp e).at rs f
            | inr (g', i) ↦ absurd cc
          ])
          (λ g. elim h [ inl (g', k) ↦ absurd cc | inr (_, i) ↦ (f, i) ]);
  }
