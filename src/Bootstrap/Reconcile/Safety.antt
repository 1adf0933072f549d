-- ===== src/Bootstrap/Reconcile/Safety.antt =====
-- When a config is ready after a reconciliation, and when its secret is written.
use cluster_api_k3s.Prelude.{
  Bool, true, false, is_some, not, Bool-cases, inl, inr, ◌⊎◌, ◌≡◌, refl, if◌then◌else◌, arith,
}
use cluster_api_k3s.Prelude.Exec.{Outcome, ok, err}
use cluster_api_k3s.Prelude.Exec.Post.{Holds}
use cluster_api_k3s.Api.{Cluster, ConfigOwner, ManagementClient}
use cluster_api_k3s.Bootstrap.{BootstrapLibrary, BootstrapSession}
use cluster_api_k3s.Controllers.{zero_result}
use cluster_api_k3s.Bootstrap.Initializing.{finish_after}
use cluster_api_k3s.Bootstrap.Storing.Written.{IsPublished}
use cluster_api_k3s.Bootstrap.Published.{generate_data-Publishes}
use cluster_api_k3s.Bootstrap.Reconcile.{
  deref, is_stale, await_infrastructure, recover_status, generate_data, reconcile_config,
}

module _ (lib : BootstrapLibrary) (client : ManagementClient) where
  -- The three ways in which a reconciliation leaves a config.
  abbrev pub IsAccounted : ConfigOwner → BootstrapSession → BootstrapSession → Type 0
  IsAccounted owner s t =
      (t.config.ready ≡ false)
      ⊎ (((t.requests ≡ s.requests)
            × ((s.config.ready ≡ true) ⊎ (is_some owner.data_secret_name ≡ true)))
          ⊎ IsPublished client t)

  published-Accounted :
      {E A : Type 0} (owner : ConfigOwner) (s : BootstrapSession)
      (r : Outcome E A × BootstrapSession)
      → Holds (λ a. IsPublished client) (λ e t. t.config.ready ≡ false) r
      → IsAccounted owner s r.1
  published-Accounted owner s (ok a, t) p = inr (inr p)
  published-Accounted owner s (err e, t) n = inl n

  if_ready :
      (cluster : Cluster) (owner : ConfigOwner) (s : BootstrapSession) (b : Bool)
      → s.config.ready ≡ b
      → IsAccounted owner s
          ((if b then finish_after zero_result else generate_data lib client cluster owner) s).1
  if_ready cluster owner s true h = inr (inl (refl, inl h))
  if_ready cluster owner s false h =
      published-Accounted owner s (generate_data lib client cluster owner s)
        ((generate_data-Publishes lib client cluster owner).at s h)

  if_stale :
      (cluster : Cluster) (owner : ConfigOwner) (s : BootstrapSession) (b : Bool)
      → is_stale lib client owner s.config ≡ b
      → IsAccounted owner s
          ((if b
              then recover_status lib client owner
              else if s.config.ready
              then finish_after zero_result
              else generate_data lib client cluster owner)
            s).1
  unfolding recover_status
  if_stale cluster owner s true h = inr (inl (refl, inr (ground arith)))
  if_stale cluster owner s false h = if_ready cluster owner s s.config.ready refl

  if_waiting :
      (cluster : Cluster) (owner : ConfigOwner) (s : BootstrapSession) (b : Bool)
      → IsAccounted owner s
          ((if b
              then await_infrastructure lib client
              else if is_stale lib client owner s.config
              then recover_status lib client owner
              else if s.config.ready
              then finish_after zero_result
              else generate_data lib client cluster owner)
            s).1
  unfolding await_infrastructure
  if_waiting cluster owner s true = elim (Bool-cases s.config.ready) [
    | inl h ↦ inr (inl (refl, inl h))
    | inr h ↦ inl h
  ]
  if_waiting cluster owner s false = if_stale cluster owner s _ refl

  -- Whatever the calls answer, after a reconciliation the config is not ready, or nothing was
  -- requested and the config was ready before or its owner had the secret already, or the latest
  -- request has written the secret of the config's own name, which its status then names.
  pub reconcile_config-Accounted :
      (cluster : Cluster) (owner : ConfigOwner) (s : BootstrapSession)
      → IsAccounted owner s (reconcile_config lib client cluster owner s).1
  unfolding reconcile_config
  reconcile_config-Accounted cluster owner s =
      if_waiting cluster owner s (not (deref cluster.infrastructure_provisioned))
