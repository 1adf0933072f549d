-- ===== src/Secrets.antt =====
-- pkg/secret/const.go and pkg/secret/secret.go: the names of the secrets of a cluster.
pub mod Names
pub mod Certificates
pub mod Token
pub mod Kubeconfig
use Prim.Native.Char.{code}
use Prim.Native.String.{[], ◌∷◌}
use cluster_api_k3s.Prelude.{
  ℕ, String, Bool, true, false, Option, none, some, List, any, eqb, if◌then◌else◌, ◌==◌,
}
use cluster_api_k3s.Prelude.Exec.{Outcome, ok, err}
use cluster_api_k3s.Api.{
  Error, secret_invalid_suffix, Secret, ObjectKey, ManagementClient, get_secret, Io, ask,
}
use cluster_api_k3s.K3sConfig.Ciphers.{concat}

-- A string type in the source.
abbrev pub Purpose : Type 0
Purpose = String

abbrev pub kubeconfig : Purpose
kubeconfig = "kubeconfig"

abbrev pub cluster_ca : Purpose
cluster_ca = "ca"

abbrev pub client_cluster_ca : Purpose
client_cluster_ca = "cca"

abbrev pub etcd_ca : Purpose
etcd_ca = "etcd"

abbrev pub service_account : Purpose
service_account = "sa"

abbrev pub front_proxy_ca : Purpose
front_proxy_ca = "proxy"

abbrev pub api_server_etcd_client : Purpose
api_server_etcd_client = "apiserver-etcd-client"

abbrev pub kubeconfig_data_name : String
kubeconfig_data_name = "value"

abbrev pub tls_key_data_name : String
tls_key_data_name = "tls.key"

abbrev pub tls_crt_data_name : String
tls_crt_data_name = "tls.crt"

abbrev pub all_secret_purposes : List Purpose
all_secret_purposes = List.◌∷◌ kubeconfig (
    List.◌∷◌ cluster_ca (
      List.◌∷◌ etcd_ca (
        List.◌∷◌ service_account
          (List.◌∷◌ front_proxy_ca (List.◌∷◌ api_server_etcd_client List.[])))))

unfoldable pub name : String → Purpose → String
name cluster suffix = concat cluster ("-" ∷ suffix)

-- The text before and after the last `-`, which `strings.LastIndex` finds.
unfoldable pub last_separator : String → Option (String × String)
last_separator [] = none
last_separator (c ∷ s) = elim (last_separator s) [
  | some (before, after) ↦ some (c ∷ before, after)
  | none ↦ if eqb (code c) b'-' then some ([], s) else none
]

abbrev pub checked : Option (String × String) → Outcome Error (String × Purpose)
checked none = err secret_invalid_suffix
checked (some (cluster, suffix)) =
    if any (λ p. p == suffix) all_secret_purposes
    then ok (cluster, suffix)
    else err secret_invalid_suffix

unfoldable pub parse_secret_name : String → Outcome Error (String × Purpose)
unfolding last_separator
parse_secret_name n = checked (last_separator n)

unfoldable pub get_from_namespaced_name : ManagementClient → ObjectKey → Purpose → Io Secret
unfolding ask name
get_from_namespaced_name client cluster purpose =
    ask (get_secret cluster.namespace (name cluster.name purpose))
      (λ rs. client.get_secret rs cluster.namespace (name cluster.name purpose))
