-- ===== src/Secrets/Certificates/Stored.antt =====
-- Whatever LookupOrGenerate returns is what the secrets on the management cluster hold.
use cluster_api_k3s.Prelude.{
  String, Bool, true, false, Option, none, some, ◌∷◌, if◌then◌else◌, ◌==◌, inl, inr, ◌⊎◌, ◌≡◌, refl,
}
use cluster_api_k3s.Prelude.Exec.{Outcome, ok, err}
use cluster_api_k3s.Prelude.Exec.Post.{Holds, Ensures, Anyhow}
use cluster_api_k3s.Secrets.Certificates.Loops.{is_update, Stable}
use cluster_api_k3s.Api.{
  Error, not_found, ObjectKey, KeyPair, Secret, Request, Requests, create_secret, ManagementClient,
  ask,
}
use cluster_api_k3s.Secrets.{name, api_server_etcd_client}
use cluster_api_k3s.Secrets.Certificates.{
  Certificate, secret_to_key_pair, populated, with_found, lookup_one,
}

-- The secrets of an API server on which nobody else creates, changes or deletes them: what is read
-- is what is stored, what was created is stored, and it stays until an update.
pub record SecretsLaws (client : ManagementClient) : Type 0 where
  pub stored : Requests → String → String → Option Secret
  pub get_stored :
      (rs : Requests) (namespace n : String) (s : Secret)
      → client.get_secret rs namespace n ≡ ok s
      → stored rs namespace n ≡ some s
  pub get_not_stored :
      (rs : Requests) (namespace n : String)
      → client.get_secret rs namespace n ≡ err not_found
      → stored rs namespace n ≡ none
  pub create_stored :
      (rs : Requests) (s : Secret)
      → client.create_secret rs s ≡ none
      → stored (create_secret s ∷ rs) s.namespace s.name ≡ some s
  pub kept :
      (r : Request) (rs : Requests) (namespace n : String) (s : Secret)
      → is_update r ≡ false
      → stored rs namespace n ≡ some s
      → stored (r ∷ rs) namespace n ≡ some s

-- not looked up yet, and not supplied by the user
abbrev pub IsFresh : Certificate → Type 0
IsFresh c =
    (c.key_pair ≡ none) × (c.generated ≡ false) × ((c.purpose == api_server_etcd_client) ≡ false)

module _ (client : ManagementClient) (laws : SecretsLaws client) (cluster : ObjectKey) where
  -- A secret holds the key pair of the certificate.
  abbrev pub IsStored : Certificate → Requests → Type 0
  IsStored c rs =
      (s : Secret) × (kp : KeyPair) × (laws.stored rs cluster.namespace
          (name cluster.name c.purpose)
        ≡ some s)
      × (secret_to_key_pair s ≡ ok kp)
      × (c.key_pair ≡ some kp)

  abbrev pub IsLookedUp : Certificate → Requests → Type 0
  IsLookedUp c rs = IsFresh c ⊎ ((c.generated ≡ false) × IsStored c rs)

  abbrev pub IsGenerated : Certificate → Type 0
  IsGenerated c = (c.generated ≡ true) × ((kp : KeyPair) × (c.key_pair ≡ some kp))

  abbrev pub IsComplete : Certificate → Requests → Type 0
  IsComplete c rs = IsGenerated c ⊎ ((c.generated ≡ false) × IsStored c rs)

  abbrev pub IsFound : Certificate → Certificate → Requests → Type 0
  IsFound c c' rs = (c'.purpose ≡ c.purpose) × IsLookedUp c' rs

  pub IsStored-Stable : (c : Certificate) → Stable (IsStored c)
  IsStored-Stable c = record {
    at = λ r rs u (s, kp, h, k, e). (s, kp, laws.kept r rs _ _ s u h, k, e);
  }

  pub IsLookedUp-Stable : (c : Certificate) → Stable (IsLookedUp c)
  IsLookedUp-Stable c = record {
    at = λ r rs u h. elim h [
      | inl fresh ↦ inl fresh
      | inr (g, i) ↦ inr (g, (IsStored-Stable c).at r rs u i)
    ];
  }

  pub IsComplete-Stable : (c : Certificate) → Stable (IsComplete c)
  IsComplete-Stable c = record {
    at = λ r rs u h. elim h [
      | inl made ↦ inl made
      | inr (g, i) ↦ inr (g, (IsStored-Stable c).at r rs u i)
    ];
  }

  with_found-IsLookedUp :
      (F : Requests → Type 0) (c : Certificate) (s : Secret) (r : Outcome Error KeyPair)
      (rs : Requests)
      → F rs
      → IsFresh c
      → laws.stored rs cluster.namespace (name cluster.name c.purpose) ≡ some s
      → secret_to_key_pair s ≡ r
      → Holds (λ c' rs. F rs × IsFound c c' rs) Anyhow (with_found c r, rs)
  unfolding with_found
  with_found-IsLookedUp F c s (ok kp) rs f (_, g, _) h e = (f, (refl, inr (g, (s, kp, h, e, refl))))
  with_found-IsLookedUp F c s (err e) rs f fresh h k = tt

  if_external :
      (F : Requests → Type 0) (c : Certificate) (b : Bool) (e : Error) (rs : Requests)
      → F rs
      → IsFresh c
      → Holds (λ c' rs. F rs × IsFound c c' rs) Anyhow (if b then err e else ok c, rs)
  if_external F c true e rs f fresh = tt
  if_external F c false e rs f fresh = (f, (refl, inl fresh))

  answered-IsLookedUp :
      (F : Requests → Type 0) (c : Certificate) (a : Outcome Error Secret) (rs : Requests)
      → F rs
      → IsFresh c
      → ((s : Secret)
          → a ≡ ok s
          → laws.stored rs cluster.namespace (name cluster.name c.purpose) ≡ some s)
      → Holds (λ c' rs. F rs × IsFound c c' rs) Anyhow (populated c a, rs)
  unfolding populated
  answered-IsLookedUp F c (ok s) rs f fresh h =
      with_found-IsLookedUp F c s _ rs f fresh (h s refl) refl
  answered-IsLookedUp F c (err not_found) rs f fresh h =
      if_external F c c.external not_found rs f fresh
  answered-IsLookedUp F c (err _) rs f fresh h = tt

  pub lookup_one-Ensures :
      (F : Requests → Type 0)
      → Stable F
      → (c : Certificate)
      → Ensures
          (λ rs. F rs × IsFresh c)
          (lookup_one client cluster c)
          (λ c' rs. F rs × IsFound c c' rs)
          Anyhow
  unfolding lookup_one ask
  lookup_one-Ensures F stable c = record {
    at = λ rs (f, fresh).
        answered-IsLookedUp F c _ _ (stable.at _ rs refl f) fresh
          (λ s e. laws.kept _ rs _ _ s refl (laws.get_stored rs _ _ s e));
  }
