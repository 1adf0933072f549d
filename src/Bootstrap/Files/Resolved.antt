-- ===== src/Bootstrap/Files/Resolved.antt =====
-- resolveFiles: each file is as it was given, or has the content that a key of its secret holds.
use cluster_api_k3s.Prelude.{String, Option, none, some, List, inl, inr, ◌⊎◌, ◌≡◌, refl}
use cluster_api_k3s.Prelude.Exec.{Outcome, ok, err, pure, lift, continue, map_each}
use cluster_api_k3s.Prelude.Exec.Post.{Holds, Holds-ok, Ensures, Anyhow}
use cluster_api_k3s.Api.{Error, File, Secret, KThreesConfig, ManagementClient, Requests, get_secret}
use cluster_api_k3s.Secrets.Certificates.Loops.{Stable, Each, Both, map_each-Ensures}
use cluster_api_k3s.Bootstrap.Files.{
  content_at, with_content, resolve_from, resolve_file, resolve_files,
}

module _ (client : ManagementClient) (namespace : String) where
  -- The content is the one of the key of the secret, as the server answered it at some time.
  abbrev pub IsFetched : File → File → Type 0
  IsFetched f g =
      (source : String × String) × ((s : Secret) × ((rs : Requests) × ((f.content_from
              ≡ some source)
            × ((client.get_secret rs namespace source.0 ≡ ok s)
                × ((content_at source.1 s ≡ ok g.content) × (g ≡ with_content g.content f))))))

  abbrev pub IsResolved : File → File → Requests → Type 0
  IsResolved f g rs = ((f.content_from ≡ none) × (g ≡ f)) ⊎ IsFetched f g

  read_content :
      (F : Requests → Type 0) (f : File) (source : String × String) (s : Secret)
      (before after : Requests) (c : Outcome Error String)
      → F after
      → f.content_from ≡ some source
      → client.get_secret before namespace source.0 ≡ ok s
      → content_at source.1 s ≡ c
      → Holds
          (λ g rs. F rs × IsResolved f g rs)
          Anyhow
          (continue (c, after) (λ content. pure (with_content content f)))
  read_content F f source s before after (ok content) h from got at =
      (h, inr (source, (s, (before, (from, (got, (at, refl)))))))
  read_content F f source s before after (err e) h from got at = tt

  read_secret :
      (F : Requests → Type 0) (f : File) (source : String × String) (before after : Requests)
      (a : Outcome Error Secret)
      → F after
      → f.content_from ≡ some source
      → client.get_secret before namespace source.0 ≡ a
      → Holds
          (λ g rs. F rs × IsResolved f g rs)
          Anyhow
          (continue
            (continue (a, after) (λ s. lift (content_at source.1 s)))
            (λ content. pure (with_content content f)))
  read_secret F f source before after (ok s) h from got =
      read_content F f source s before after (content_at source.1 s) h from got refl
  read_secret F f source before after (err e) h from got = tt

  resolve_from-Ensures :
      (F : Requests → Type 0)
      → Stable F
      → (f : File) (o : Option (String × String)) → f.content_from ≡ o
      → Ensures
          (λ rs. F rs × Unit {0})
          (resolve_from client namespace f o)
          (λ g rs. F rs × IsResolved f g rs)
          Anyhow
  unfolding resolve_from
  resolve_from-Ensures F sf f none e = record { at = λ rs (h, u). (h, inl (e, refl)) }
  resolve_from-Ensures F sf f (some source) e = record {
    at = λ rs (h, u).
        read_secret F f source rs _ _ (sf.at (get_secret namespace source.0) rs refl h) e refl;
  }

  always-Each : (fs : List File) (rs : Requests) → Each (λ f rs. Unit {0}) fs rs
  always-Each List.[] rs = tt
  always-Each (List.◌∷◌ f fs) rs = (tt, always-Each fs rs)

  resolve_all-Ensures :
      (fs : List File) (rs : Requests)
      → Holds
          (λ gs rs. Unit {0} × Both IsResolved fs gs rs)
          Anyhow
          (map_each (resolve_file client namespace) fs rs)
  unfolding resolve_file
  resolve_all-Ensures fs rs =
      (map_each-Ensures (λ f rs. Unit) (λ f. record { at = λ r rs l u. tt }) IsResolved
          (resolve_file client namespace) (λ f g. record { at = λ r rs l u. u })
          (λ F sf f. resolve_from-Ensures F sf f f.content_from refl) (λ rs. Unit)
          (record { at = λ r rs l u. tt }) fs).at
        rs (tt, always-Each fs rs)

-- Where resolveFiles returns, its files are those of the config, one by one and in order: a file
-- without a reference is unchanged, and one with a reference has the content that the server
-- answered for the key of the secret, and no reference any more; all else of it is unchanged.
pub resolve_files-Resolved :
    (client : ManagementClient) (config : KThreesConfig) (gs : List File) (rs : Requests)
    → (resolve_files client config rs).0 ≡ ok gs
    → Both
        (IsResolved client config.namespace)
        config.spec.files
        gs
        (resolve_files client config rs).1
unfolding resolve_files
resolve_files-Resolved client config gs rs h =
    (Holds-ok (map_each (resolve_file client config.namespace) config.spec.files rs)
      (λ gs rs. Unit × Both (IsResolved client config.namespace) config.spec.files gs rs) Anyhow gs
      (resolve_all-Ensures client config.namespace config.spec.files rs) h).1
