-- ===== src/Bootstrap/Files.antt =====
-- resolveFiles, resolveSecretFileContent and resolveEtcdProxyFile: the files of a config, with the
-- contents that secrets hold.
pub mod Resolved
use cluster_api_k3s.Prelude.{
  String, Bool, true, Option, none, some, List, [], ◌∷◌, lookup, if◌then◌else◌, ◌==◌,
}
use cluster_api_k3s.Prelude.Exec.{Outcome, ok, err, pure, lift, ◌>>=◌, map_each}
use cluster_api_k3s.Api.{
  Error, invalid_ref, File, Secret, KThreesConfig, ManagementClient, get_secret, Io, ask,
}
use cluster_api_k3s.K3sConfig.Ciphers.{concat}
use cluster_api_k3s.Bootstrap.{BootstrapLibrary, root_file}

-- IsEtcdEmbedded (bootstrap/api/v1beta2/kthreesconfig_types.go), whatever the config
abbrev pub is_etcd_embedded : KThreesConfig → Bool
is_etcd_embedded config = true

abbrev pub etcd_proxy_daemonset_yaml_location : String
etcd_proxy_daemonset_yaml_location = "/var/lib/rancher/k3s/server/manifests/etcd-proxy.yaml"

unfoldable pub content_at : String → Secret → Outcome Error String
unfolding lookup
content_at key s = elim (lookup key s.entries) [ none ↦ err invalid_ref | some d ↦ ok d ]

abbrev pub with_content : String → File → File
with_content content f = record f { content = content; content_from = none }

module _ (client : ManagementClient) where
  -- of the namespace, and the reference to a key of a secret
  unfoldable pub resolve_secret_file_content : String → String × String → Io String
  unfolding ask content_at
  resolve_secret_file_content namespace (secret, key) = do
    s ← ask (get_secret namespace secret) (λ rs. client.get_secret rs namespace secret)
    lift (content_at key s)

  unfoldable pub resolve_from : String → File → Option (String × String) → Io File
  unfolding resolve_secret_file_content
  resolve_from namespace f none = pure f
  resolve_from namespace f (some source) = do
    content ← resolve_secret_file_content namespace source
    pure (with_content content f)

  unfoldable pub resolve_file : String → File → Io File
  unfolding resolve_from
  resolve_file namespace f = resolve_from namespace f f.content_from

  unfoldable pub resolve_files : KThreesConfig → Io (List File)
  unfolding map_each resolve_file
  resolve_files config = map_each (resolve_file config.namespace) config.spec.files

abbrev pub registry_prefix : String → String
registry_prefix registry = if registry == "" then "" else concat registry "/"

unfoldable pub rendered : Outcome Error String → Outcome Error File
rendered (ok content) = ok (root_file etcd_proxy_daemonset_yaml_location content)
rendered (err e) = err e

unfoldable pub resolve_etcd_proxy_file : BootstrapLibrary → KThreesConfig → Outcome Error File
unfolding rendered
resolve_etcd_proxy_file lib config = rendered (
    lib.render_etcd_proxy config.spec.server_config.etcd_proxy_image
      (registry_prefix config.spec.server_config.system_default_registry))
