-- ===== src/Secrets/Kubeconfig/Rotation/Writes.antt =====
-- Which secrets reconcileKubeconfig writes: at most one, and never one that somebody else controls.
use cluster_api_k3s.Prelude.{
  String, Bool, true, false, Option, none, some, List, ◌∷◌, keep, not, inl, inr, ◌⊎◌, ◌≡◌, refl, ap,
  ◌∙◌, if◌then◌else◌, arith, Bool-cases,
}
use cluster_api_k3s.Prelude.Int.{ℤ}
use cluster_api_k3s.Prelude.Exec.{Outcome, ok, err, pure, stop, catch, ◌>>=◌}
use cluster_api_k3s.Prelude.Exec.Keeps.{Keeps, keeps_rules, Keeps-lift}
use cluster_api_k3s.Prelude.Exec.Post.{
  Holds, Ensures, Ensures-bind, Ensures-catch, Ensures-weaken, Ensures-if, Keeps-Ensures, Keeps-any,
}
use cluster_api_k3s.Api.{
  Error, not_found, dependent_certificate_not_found, ObjectKey, ApiEndpoint, Secret,
  KThreesControlPlane, ManagementClient, Request, Requests, create_secret, update_secret, refused,
  get_secret, Io, ask, tell,
}
use cluster_api_k3s.Controllers.{zero_result}
use cluster_api_k3s.Secrets.{Purpose, kubeconfig, name, get_from_namespaced_name, parse_secret_name}
use cluster_api_k3s.Secrets.Kubeconfig.{
  KubeconfigLibrary, required, dependent, new, generate_kubeconfig, generate_secret_with_owner,
  create_secret_with_owner, needs_client_cert_rotation, with_value, to_kubeconfig_bytes, server_of,
  regenerate_secret,
}
use cluster_api_k3s.Secrets.Kubeconfig.Rotation.{
  controller_ref, creation_error, created, rotated, kubeconfig_found, reconcile_kubeconfig,
}

abbrev pub is_write : Request → Bool
is_write (create_secret x) = true
is_write (update_secret x) = true
is_write r = false

abbrev pub writes : Requests → List Request
writes rs = keep is_write rs

Keeps-ask :
    {A : Type 0} (r : Request) (answer : Requests → Outcome Error A)
    → is_write r ≡ false
    → Keeps writes (ask r answer)
unfolding ask
Keeps-ask r answer h = record { at = λ rs. ap (λ b. if b then r ∷ writes rs else writes rs) h }

Keeps-required :
    {A : Type 0} (e : Error) (r : Outcome Error (Option A)) → Keeps writes (required e r)
Keeps-required e (ok (some x)) = search keeps_rules
Keeps-required e (ok none) = search keeps_rules
Keeps-required e (err d) = search keeps_rules

Keeps-dependent : (e : Error) → Keeps writes (dependent e)
Keeps-dependent not_found = search keeps_rules
Keeps-dependent e = search keeps_rules

-- No write, or one that is allowed.
abbrev pub AtMost : (Request → Type 0) → List Request → List Request → Type 0
AtMost A w v = (v ≡ w) ⊎ ((r : Request) × (A r × (v ≡ r ∷ w)))

module _ (A : Request → Type 0) (w : List Request) where
  abbrev WritesOnly : {B : Type 0} → Io B → Type 0
  WritesOnly m =
      Ensures (λ rs. writes rs ≡ w) m (λ b rs. AtMost A w (writes rs))
        (λ e rs. AtMost A w (writes rs))

  WritesOnly-quiet : {B : Type 0} (m : Io B) → Keeps writes m → WritesOnly m
  WritesOnly-quiet m k =
      Ensures-weaken m (λ b rs. writes rs ≡ w) (λ b rs. AtMost A w (writes rs))
        (λ e rs. writes rs ≡ w) (λ e rs. AtMost A w (writes rs)) (Keeps-Ensures writes w m k)
        (λ rs h. h) (λ b rs h. inl h) (λ e rs h. inl h)

  WritesOnly-after :
      {B C : Type 0} (m : Io B) (f : B → Io C)
      → Keeps writes m
      → ((b : B) → WritesOnly (f b))
      → WritesOnly (m >>= f)
  WritesOnly-after m f km wf =
      Ensures-bind m f (λ b rs. writes rs ≡ w) (λ c rs. AtMost A w (writes rs))
        (Ensures-weaken m (λ b rs. writes rs ≡ w) (λ b rs. writes rs ≡ w) (λ e rs. writes rs ≡ w)
          (λ e rs. AtMost A w (writes rs)) (Keeps-Ensures writes w m km) (λ rs h. h) (λ b rs h. h)
          (λ e rs h. inl h))
        wf

  WritesOnly-then :
      {B C : Type 0} (m : Io B) (f : B → Io C)
      → WritesOnly m
      → ((b : B) → Keeps writes (f b))
      → WritesOnly (m >>= f)
  WritesOnly-then m f wm kf =
      Ensures-bind m f (λ b rs. AtMost A w (writes rs)) (λ c rs. AtMost A w (writes rs)) wm
        (λ b. Keeps-any writes (AtMost A w) (f b) (kf b))

  WritesOnly-catch :
      {B : Type 0} (m : Io B) (h : Error → Io B)
      → WritesOnly m
      → ((e : Error) → Keeps writes (h e))
      → WritesOnly (catch m h)
  WritesOnly-catch m h wm kh =
      Ensures-catch m h (λ e rs. AtMost A w (writes rs)) (λ e rs. AtMost A w (writes rs)) wm
        (λ e. Keeps-any writes (AtMost A w) (h e) (kh e))

  either :
      {B : Type 0} (r : Outcome Error B × Requests)
      → Holds (λ b rs. AtMost A w (writes rs)) (λ e rs. AtMost A w (writes rs)) r
      → AtMost A w (writes r.1)
  either (ok b, rs) h = h
  either (err e, rs) h = h

  told :
      (r : Request) (o : Option Error) (rs : Requests)
      → AtMost A w (writes rs)
      → Holds (λ u rs. AtMost A w (writes rs)) (λ e rs. AtMost A w (writes rs)) (refused o, rs)
  told r none rs h = h
  told r (some e) rs h = h

  WritesOnly-tell :
      (r : Request) (answer : Requests → Option Error)
      → is_write r ≡ true
      → A r
      → WritesOnly (tell r answer)
  unfolding tell
  WritesOnly-tell r answer h a = record {
    at = λ rs e.
        told r (answer rs) (r ∷ rs)
          (inr (r, (a, ap (λ b. if b then r ∷ writes rs else writes rs) h ∙ ap (λ v. r ∷ v) e)));
  }

Keeps-creation_error : (e : Error) → Keeps writes (creation_error e)
Keeps-creation_error dependent_certificate_not_found = search keeps_rules
Keeps-creation_error e = search keeps_rules

module _ (lib : KubeconfigLibrary) (client : ManagementClient) where
  get-Keeps : (k : ObjectKey) (p : Purpose) → Keeps writes (get_from_namespaced_name client k p)
  unfolding get_from_namespaced_name
  get-Keeps k p = search (keeps_rules, Keeps-ask)

  generate_kubeconfig-Keeps :
      (k : ObjectKey) (endpoint : String) → Keeps writes (generate_kubeconfig lib client k endpoint)
  unfolding generate_kubeconfig new
  generate_kubeconfig-Keeps k endpoint =
      search (keeps_rules, get-Keeps, Keeps-required, Keeps-dependent, Keeps-ask) depth 16

  needs_client_cert_rotation-Keeps :
      (x : Secret) (threshold : ℤ)
      → Keeps writes (needs_client_cert_rotation lib client x threshold)
  unfolding needs_client_cert_rotation
  needs_client_cert_rotation-Keeps x threshold = search keeps_rules depth 6

  module _ (cluster : ObjectKey) (kcp : KThreesControlPlane) (found : Outcome Error Secret) where
    -- The new secret of the cluster, where none was found, or a new kubeconfig in the secret that was
    -- found and that the control plane controls.
    abbrev pub Allowed : Request → Type 0
    Allowed (create_secret x) =
        (found ≡ err not_found)
        × ((out : String) × (x ≡ generate_secret_with_owner cluster out (controller_ref kcp)))
    Allowed (update_secret x) =
        (old : Secret) × ((found ≡ ok old)
          × ((lib.is_controlled_by old kcp ≡ true) × ((out : String) × (x ≡ with_value out old))))
    Allowed r = ⊥

    module _ (w : List Request) where
      created-WritesOnly :
          (endpoint : ApiEndpoint)
          → found ≡ err not_found
          → WritesOnly Allowed w (created lib client cluster endpoint kcp)
      unfolding created create_secret_with_owner
      created-WritesOnly endpoint missing =
          WritesOnly-catch Allowed w _ creation_error
            (WritesOnly-then Allowed w _ (λ u. pure zero_result)
              (WritesOnly-after Allowed w _ _ (generate_kubeconfig-Keeps cluster _)
                λ out. WritesOnly-tell Allowed w _ _ refl (missing, (out, refl)))
              (λ u. search keeps_rules))
            Keeps-creation_error

      regenerated-WritesOnly :
          (old : Secret)
          → found ≡ ok old
          → lib.is_controlled_by old kcp ≡ true
          → WritesOnly Allowed w (regenerate_secret lib client old)
      unfolding regenerate_secret
      regenerated-WritesOnly old is ours =
          WritesOnly-after Allowed w _ _ (Keeps-lift (parse_secret_name old.name)) λ parsed.
            WritesOnly-after Allowed w _ _ (Keeps-lift (to_kubeconfig_bytes old)) λ d.
              WritesOnly-after Allowed w _ _ (Keeps-lift (lib.load d)) λ config.
                WritesOnly-after Allowed w _ _ (Keeps-lift (server_of config.0 parsed.0))
                  λ endpoint.
                    WritesOnly-after Allowed w _ _ (generate_kubeconfig-Keeps _ endpoint)
                      λ out. WritesOnly-tell Allowed w _ _ refl (old, (is, (ours, (out, refl))))

      rotated-WritesOnly :
          (old : Secret)
          → found ≡ ok old
          → lib.is_controlled_by old kcp ≡ true
          → WritesOnly Allowed w (rotated lib client old)
      unfolding rotated
      rotated-WritesOnly old is ours =
          WritesOnly-after Allowed w _ _ (needs_client_cert_rotation-Keeps old _) λ needed.
            WritesOnly-then Allowed w _ (λ u. pure zero_result)
              (Ensures-if needed _ _ (λ h. regenerated-WritesOnly old is ours)
                (λ h. WritesOnly-quiet Allowed w (pure tt) (search keeps_rules)))
              (λ u. search keeps_rules)

      kubeconfig_found-WritesOnly :
          (endpoint : ApiEndpoint) (a : Outcome Error Secret)
          → found ≡ a
          → WritesOnly Allowed w (kubeconfig_found lib client cluster endpoint kcp a)
      unfolding kubeconfig_found
      kubeconfig_found-WritesOnly endpoint (err not_found) h = created-WritesOnly endpoint h
      kubeconfig_found-WritesOnly endpoint (err e) h =
          WritesOnly-quiet Allowed w (stop e) (search keeps_rules)
      kubeconfig_found-WritesOnly endpoint (ok old) h =
          Ensures-if (not (lib.is_controlled_by old kcp)) _ _
            (λ n. WritesOnly-quiet Allowed w (pure zero_result) (search keeps_rules))
            (λ n. rotated-WritesOnly old h (ground arith))

      reconcile-WritesOnly :
          (endpoint : ApiEndpoint) (rs : Requests)
          → writes rs ≡ w
          → AtMost Allowed w (writes (kubeconfig_found lib client cluster endpoint kcp found rs).1)
      reconcile-WritesOnly endpoint rs h =
          either Allowed w (kubeconfig_found lib client cluster endpoint kcp found rs)
            ((kubeconfig_found-WritesOnly endpoint found refl).at rs h)

  -- Whatever the calls answer, reconcileKubeconfig writes no secret, or one: it creates the kubeconfig
  -- secret of the cluster, owned by the control plane, where the server said that there is none; or
  -- it puts a new kubeconfig in the secret that the server answered with, and only if the control
  -- plane controls that secret, leaving everything else of it.
  pub reconcile_kubeconfig-writes :
      (cluster : ObjectKey) (endpoint : ApiEndpoint) (kcp : KThreesControlPlane) (rs : Requests)
      → AtMost
          (Allowed cluster kcp
            (client.get_secret rs cluster.namespace (name cluster.name kubeconfig)))
          (writes rs)
          (writes (reconcile_kubeconfig lib client cluster endpoint kcp rs).1)
  unfolding reconcile_kubeconfig get_from_namespaced_name
  reconcile_kubeconfig-writes cluster endpoint kcp rs =
      elim (Bool-cases (lib.endpoint_is_zero endpoint)) [
        | inl h ↦ rw h (inl refl)
        | inr h ↦ rw h (
            reconcile-WritesOnly cluster kcp _ (writes rs) endpoint
              (get_secret cluster.namespace (name cluster.name kubeconfig) ∷ rs) refl)
      ]
