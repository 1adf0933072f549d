-- ===== src/Secrets/Names.antt =====
-- ParseSecretName against Name, whatever dashes the name of the cluster has.
use Prim.Native.String.{◌++◌}
use cluster_api_k3s.Prelude.{
  String, Bool, true, false, none, some, List, [], ◌∷◌, any, not, ◌≡◌, ap, ◌∙◌, ◌||◌, ◌&&◌, refl,
  arith, eq_iff, ◌==◌,
}
use text.Mathlib.TextLemmas.{nil-append, cons-append, append_assoc}
use cluster_api_k3s.Prelude.Exec.{ok, err}
use cluster_api_k3s.Api.{secret_invalid_suffix}
use cluster_api_k3s.Etcd.Names.{has_dash}
use cluster_api_k3s.Secrets.{
  Purpose, client_cluster_ca, checked, api_server_etcd_client, all_secret_purposes, name,
  last_separator, parse_secret_name,
}

last_separator-no_dash : (s : String) → has_dash s ≡ false → last_separator s ≡ none
unfolding last_separator
last_separator-no_dash String.[] h = refl
last_separator-no_dash (String.◌∷◌ c s) h = ground (arith, last_separator-no_dash s)

last_separator-name :
    (cluster suffix : String)
    → has_dash suffix ≡ false
    → last_separator (name cluster suffix) ≡ some (cluster, suffix)
unfolding last_separator name
last_separator-name String.[] suffix h =
    rw nil-append (ground (arith, last_separator-no_dash suffix))
last_separator-name (String.◌∷◌ c cluster) suffix h =
    rw cons-append (rw (last_separator-name cluster suffix h, last_separator) refl)

abbrev all : {A : Type 0} → (A → Bool) → List A → Bool
all good [] = true
all good (x ∷ xs) = good x && all good xs

all-good :
    (good : String → Bool) (p : String) (xs : List String)
    → any (λ q. q == p) xs ≡ true
    → all good xs ≡ true
    → good p ≡ true
all-good good p [] m a = ground arith
all-good good p (x ∷ xs) m a = ground (arith, all-good good p xs, eq_iff x p)

abbrev reads_back : Purpose → Bool
reads_back p = p == api_server_etcd_client || not (has_dash p)

purpose-has_dash :
    (p : Purpose)
    → any (λ q. q == p) all_secret_purposes ≡ true
    → (p == api_server_etcd_client) ≡ false
    → has_dash p ≡ false
purpose-has_dash p m h = ground (arith, all-good reads_back p all_secret_purposes m refl)

-- For a purpose of the list other than the client certificate of etcd, ParseSecretName reads back
-- the name of the cluster and the purpose from which Name made the name of the secret.
pub parse_secret_name-name :
    (cluster : String) (p : Purpose)
    → any (λ q. q == p) all_secret_purposes ≡ true
    → (p == api_server_etcd_client) ≡ false
    → parse_secret_name (name cluster p) ≡ ok (cluster, p)
unfolding parse_secret_name
parse_secret_name-name cluster p m h =
    ap checked (last_separator-name cluster p (purpose-has_dash p m h)) ∙ rw m refl

dash_apart :
    (cluster s t : String)
    → has_dash t ≡ false
    → last_separator (name cluster (s ++ String.◌∷◌ "-" t)) ≡ some (name cluster s, t)
unfolding name
dash_apart cluster s t h =
    rw (append_assoc, cons-append) at (last_separator-name (name cluster s) t h)

-- ParseSecretName refuses the names of two kinds of secrets that Name makes, for every cluster: of the
-- client CA, whose purpose is not in the list, and of the client certificate of etcd, whose purpose
-- has dashes.
pub parse_secret_name-refuses :
    (cluster : String)
    → (parse_secret_name (name cluster client_cluster_ca) ≡ err secret_invalid_suffix)
      × (parse_secret_name (name cluster api_server_etcd_client) ≡ err secret_invalid_suffix)
unfolding parse_secret_name
parse_secret_name-refuses cluster = (
  ap checked (last_separator-name cluster "cca" refl),
  ap checked (dash_apart cluster "apiserver-etcd" "client" refl),
)
