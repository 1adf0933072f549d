-- ===== src/Bootstrap/Published.antt =====
-- The bootstrap data is stored last: what comes before it leaves the config as ready as it was, and
-- where initialising or joining returns, the data is published.
use cluster_api_k3s.Prelude.{String, Bool, true, false, ◌≡◌, refl, if◌then◌else◌}
use cluster_api_k3s.Prelude.Exec.{Exec, pure, stop, catch, ◌>>=◌}
use cluster_api_k3s.Prelude.Exec.Keeps.{Keeps, keeps_rules}
use cluster_api_k3s.Api.{Error, Cluster, ConfigOwner, OwnerMachine, ManagementClient, Io}
use cluster_api_k3s.Bootstrap.{
  BootstrapLibrary, BootstrapSession, Action, zoom, mark_true, mark_false,
  reconcile_top_level_object_settings,
}
use cluster_api_k3s.Bootstrap.Storing.{store_bootstrap_data}
use cluster_api_k3s.Bootstrap.Joining.{or_mark_failed, with_etcd_proxy, control_plane_files}
use cluster_api_k3s.Bootstrap.Initializing.{
  certificates_of, initialize, unlock_after, with_lock, mark_waiting, take_lock,
  handle_cluster_not_initialized,
}
use cluster_api_k3s.Bootstrap.Reconcile.{join, generate_data}
use cluster_api_k3s.Prelude.Exec.Post.{Ensures, Ensures-bind, Ensures-catch, Keeps-Ensures}
use cluster_api_k3s.Bootstrap.Joining.{join_control_plane, join_worker}
use cluster_api_k3s.Bootstrap.Storing.Written.{IsPublished, store_bootstrap_data-Ensures}

abbrev pub is_ready : BootstrapSession → Bool
is_ready s = s.config.ready

zoomed-Keeps : {A : Type 0} (m : Io A) → Keeps is_ready (zoom m)
zoomed-Keeps m = record { at = λ s. refl }

module _ (client : ManagementClient) where
  -- From a config that is not ready: it returns with the data published, or stops with the config
  -- still not ready.
  abbrev pub Publishes : {E A : Type 0} → Exec BootstrapSession E A → Type 0
  Publishes m =
      Ensures (λ s. s.config.ready ≡ false) m (λ a. IsPublished client)
        (λ e s. s.config.ready ≡ false)

  module _ {E : Type 0} where
    Publishes-after :
        {A B : Type 0} (m : Exec BootstrapSession E A) (f : A → Exec BootstrapSession E B)
        → Keeps is_ready m
        → ((a : A) → Publishes (f a))
        → Publishes (m >>= f)
    Publishes-after m f km pf =
        Ensures-bind m f (λ a s. s.config.ready ≡ false) (λ u. IsPublished client)
          (Keeps-Ensures is_ready false m km) pf

    Publishes-then :
        {A B : Type 0} (m : Exec BootstrapSession E A) (b : B)
        → Publishes m
        → Publishes (m >>= λ a. pure b)
    Publishes-then m b pm =
        Ensures-bind m (λ a. pure b) (λ a. IsPublished client) (λ u. IsPublished client) pm
          (λ a. record { at = λ s p. p })

    Publishes-stop : {A : Type 0} (e : E) → Publishes {A = A} (stop e)
    Publishes-stop e = record { at = λ s n. n }

    Publishes-if :
        {A : Type 0} (b : Bool) (m n : Exec BootstrapSession E A)
        → Publishes m
        → Publishes n
        → Publishes (if b then m else n)
    Publishes-if true m n pm pn = pm
    Publishes-if false m n pm pn = pn

  Publishes-catch :
      {E F A : Type 0} (m : Exec BootstrapSession E A) (h : E → Exec BootstrapSession F A)
      → Publishes m
      → ((e : E) → Publishes (h e))
      → Publishes (catch m h)
  Publishes-catch m h pm ph =
      Ensures-catch m h (λ e s. s.config.ready ≡ false) (λ e s. s.config.ready ≡ false) pm ph

module _ (lib : BootstrapLibrary) (client : ManagementClient) where
  or_mark_failed-Keeps :
      {A : Type 0} (m : Action A) → Keeps is_ready m → Keeps is_ready (or_mark_failed lib client m)
  unfolding or_mark_failed mark_false
  or_mark_failed-Keeps m km = search keeps_rules depth 6

  control_plane_files-Keeps : Keeps is_ready (control_plane_files lib client)
  unfolding control_plane_files with_etcd_proxy
  control_plane_files-Keeps = search (keeps_rules, or_mark_failed-Keeps, zoomed-Keeps) depth 10

  certificates_of-Keeps : (cluster : Cluster) → Keeps is_ready (certificates_of lib client cluster)
  unfolding certificates_of mark_true mark_false
  certificates_of-Keeps cluster = search (keeps_rules, zoomed-Keeps) depth 10

  store-Publishes :
      (cluster : Cluster) (content : String)
      → Publishes client (store_bootstrap_data lib client cluster content)
  store-Publishes cluster content = store_bootstrap_data-Ensures client lib cluster content

  ruleset publish_rules = (
    keeps_rules, or_mark_failed-Keeps, control_plane_files-Keeps, certificates_of-Keeps,
    zoomed-Keeps, Publishes-after, Publishes-then, Publishes-stop, Publishes-if, Publishes-catch,
    store-Publishes,
  )

  initialize-Publishes :
      (cluster : Cluster) (machine : OwnerMachine)
      → Publishes client (initialize lib client cluster machine)
  unfolding initialize reconcile_top_level_object_settings
  initialize-Publishes cluster machine = search publish_rules depth 14

  join_control_plane-Publishes :
      (cluster : Cluster) (owner : ConfigOwner)
      → Publishes client (join_control_plane lib client cluster owner)
  unfolding join_control_plane reconcile_top_level_object_settings
  join_control_plane-Publishes cluster owner = search publish_rules depth 14

  join_worker-Publishes :
      (cluster : Cluster) (owner : ConfigOwner)
      → Publishes client (join_worker lib client cluster owner)
  unfolding join_worker reconcile_top_level_object_settings
  join_worker-Publishes cluster owner = search publish_rules depth 14

  mark_waiting-Keeps : {E : Type 0} → Keeps is_ready (mark_waiting lib client {E = E})
  unfolding mark_waiting mark_false
  mark_waiting-Keeps = search keeps_rules depth 6

  unlock_after-Publishes :
      (cluster : Cluster) (e : Error) → Publishes client (unlock_after lib client cluster e)
  unfolding unlock_after
  unlock_after-Publishes cluster e = search publish_rules depth 8

  handle-Publishes :
      (cluster : Cluster) (owner : ConfigOwner)
      → Publishes client (handle_cluster_not_initialized lib client cluster owner)
  unfolding handle_cluster_not_initialized with_lock take_lock
  handle-Publishes cluster owner =
      search (publish_rules, mark_waiting-Keeps, initialize-Publishes, unlock_after-Publishes) depth
        14

  join-Publishes :
      (cluster : Cluster) (owner : ConfigOwner) → Publishes client (join lib client cluster owner)
  unfolding join
  join-Publishes cluster owner =
      search (publish_rules, join_control_plane-Publishes, join_worker-Publishes) depth 14

  pub generate_data-Publishes :
      (cluster : Cluster) (owner : ConfigOwner)
      → Publishes client (generate_data lib client cluster owner)
  unfolding generate_data
  generate_data-Publishes cluster owner = search (publish_rules, handle-Publishes, join-Publishes)
