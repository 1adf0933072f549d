-- ===== src/Bootstrap/Storing/Written.antt =====
-- A config that storeBootstrapData makes ready names a secret that the server has just accepted.
use cluster_api_k3s.Prelude.{
  String, true, false, Option, none, some, ◌∷◌, inl, inr, ◌⊎◌, ◌≡◌, refl, ap, sym,
}
use cluster_api_k3s.Prelude.Exec.{Outcome, ok, err, handled}
use cluster_api_k3s.Prelude.Exec.Post.{Holds, Holds-continue, Anyhow, Ensures}
use cluster_api_k3s.Api.{
  Error, already_exists, Cluster, Secret, ManagementClient, create_secret, update_secret, Requests,
  refused,
}
use cluster_api_k3s.Bootstrap.{BootstrapLibrary, BootstrapSession, zoomed}
use cluster_api_k3s.Bootstrap.Storing.{
  bootstrap_secret, update_if_exists, create_or_update, store_bootstrap_data,
}

module _ (client : ManagementClient) where
  -- The latest request wrote the secret, and the server took it.
  abbrev pub IsWritten : Secret → Requests → Type 0
  IsWritten x all =
      (rs : Requests) × (((all ≡ create_secret x ∷ rs) × (client.create_secret rs x ≡ none))
        ⊎ ((all ≡ update_secret x ∷ rs) × (client.update_secret rs x ≡ none)))

  -- The config is ready, and its data is in the secret of its own name that was just written.
  abbrev pub IsPublished : BootstrapSession → Type 0
  IsPublished s =
      (x : Secret) × (IsWritten x s.requests
        × ((s.config.ready ≡ true)
            × ((s.config.data_secret_name ≡ some x.name)
                × ((x.name ≡ s.config.name) × (x.namespace ≡ s.config.namespace)))))

  updated-IsWritten :
      (x : Secret) (rs : Requests) (a : Option Error)
      → client.update_secret rs x ≡ a
      → Holds (λ u. IsWritten x) Anyhow (refused a, update_secret x ∷ rs)
  updated-IsWritten x rs none h = (rs, inr (refl, h))
  updated-IsWritten x rs (some e) h = tt

  created-IsWritten :
      (x : Secret) (rs : Requests) (a : Option Error)
      → client.create_secret rs x ≡ a
      → Holds
          (λ u. IsWritten x)
          Anyhow
          (handled (refused a, create_secret x ∷ rs) (update_if_exists client x))
  unfolding update_if_exists
  created-IsWritten x rs none h = (rs, inl (refl, h))
  created-IsWritten x rs (some already_exists) h = updated-IsWritten x (create_secret x ∷ rs) _ refl
  created-IsWritten x rs (some e) h = tt

  create_or_update-IsWritten :
      (x : Secret) (rs : Requests) → Holds (λ u. IsWritten x) Anyhow (create_or_update client x rs)
  unfolding create_or_update
  create_or_update-IsWritten x rs = created-IsWritten x rs _ refl

  zoomed-IsWritten :
      (x : Secret) (s : BootstrapSession) (r : Outcome Error Unit × Requests)
      → s.config.ready ≡ false
      → Holds (λ u. IsWritten x) Anyhow r
      → Holds
          (λ u t. (t.config ≡ s.config) × IsWritten x t.requests)
          (λ e t. t.config.ready ≡ false)
          (zoomed s r)
  zoomed-IsWritten x s (ok u, rs) n w = (refl, w)
  zoomed-IsWritten x s (err e, rs) n w = n

  pub store_bootstrap_data-Ensures :
      (lib : BootstrapLibrary) (cluster : Cluster) (content : String)
      → Ensures
          (λ s. s.config.ready ≡ false)
          (store_bootstrap_data lib client cluster content)
          (λ u. IsPublished)
          (λ e s. s.config.ready ≡ false)
  unfolding store_bootstrap_data bootstrap_secret
  store_bootstrap_data-Ensures lib cluster content = record {
    at = λ s n.
        let x = bootstrap_secret cluster s.config content in
        Holds-continue (zoomed s (create_or_update client x s.requests)) _
          (λ u t. (t.config ≡ s.config) × IsWritten x t.requests) (λ u. IsPublished)
          (λ e s. s.config.ready ≡ false)
          (zoomed-IsWritten x s _ n (create_or_update-IsWritten x s.requests))
          (λ u t (same, w). (
            x,
            (
              w,
              (
                refl,
                (
                  ap (λ c. some c.name) same,
                  (ap (λ c. c.name) (sym same), ap (λ c. c.namespace) (sym same)),
                ),
              ),
            ),
          ));
  }
