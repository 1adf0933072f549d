-- ===== src/Secrets/Certificates.antt =====
-- pkg/secret/certificates.go: the certificates of a cluster, looked up in secrets of the management
-- cluster or generated and stored there. The receiver's certificates are changed in place; here a
-- method returns them. The cryptography is a library's.
pub mod Loops
pub mod Stored
pub mod Making
pub mod Kept
use cluster_api_k3s.Prelude.{
  String, Bool, true, false, Option, none, some, List, [], ◌∷◌, ◌++◌, lookup, if◌then◌else◌, ◌==◌,
}
use cluster_api_k3s.Prelude.Exec.{
  Outcome, ok, err, pure, lift, attempt, ◌>>=◌, ◌>>◌, map_each, for_each,
}
use cluster_api_k3s.Api.{
  Error, not_found, nil_dereference, missing_certificate, missing_crt, missing_key, missing_data,
  OwnerReference, ObjectKey, KeyPair, Secret, File, cluster_name_label, cluster_secret_type,
  ManagementClient, get_secret, create_secret, generate_key_pair, Requests, Io, ask, tell,
}
use cluster_api_k3s.K3sConfig.Ciphers.{concat}
use cluster_api_k3s.Secrets.{
  Purpose, cluster_ca, client_cluster_ca, etcd_ca, service_account, api_server_etcd_client,
  tls_key_data_name, tls_crt_data_name, name,
}

pub record Certificate : Type 0 where
  pub generated : Bool
  pub external : Bool
  pub purpose : Purpose
  pub key_pair : Option KeyPair
  pub cert_file : String
  pub key_file : String

abbrev pub root_owner_value : String
root_owner_value = "root:root"

-- filepath.Join of DefaultCertificatesDir and a file
abbrev in_certificates_dir : String → String
in_certificates_dir file = concat "/var/lib/rancher/k3s/server/tls/" file

abbrev certificate : Purpose → String → String → Certificate
certificate purpose cert_file key_file = record {
  generated = false;
  external = false;
  purpose = purpose;
  key_pair = none;
  cert_file = in_certificates_dir cert_file;
  key_file = in_certificates_dir key_file;
}

unfoldable pub new_certificates_for_initial_control_plane : Bool → List Certificate
new_certificates_for_initial_control_plane is_etcd_embedded =
    certificate cluster_ca "server-ca.crt" "server-ca.key"
    ∷ certificate client_cluster_ca "client-ca.crt" "client-ca.key"
    ∷ (if is_etcd_embedded
        then certificate etcd_ca "etcd/server-ca.crt" "etcd/server-ca.key" ∷ []
        else [])

unfoldable pub get_by_purpose : List Certificate → Purpose → Option Certificate
get_by_purpose [] purpose = none
get_by_purpose (c ∷ cs) purpose = if c.purpose == purpose then some c else get_by_purpose cs purpose

-- A missing key reads as no bytes.
unfoldable pub secret_to_key_pair : Secret → Outcome Error KeyPair
unfolding lookup
secret_to_key_pair s = elim (lookup tls_crt_data_name s.entries) [
  | none ↦ err missing_data
  | some c ↦ ok (record {
    cert = c;
    key = elim (lookup tls_key_data_name s.entries) [ none ↦ "" | some k ↦ k ];
  })
]

abbrev pub with_key_pair : Certificate → KeyPair → Certificate
with_key_pair c kp = record c { key_pair = some kp }

unfoldable pub with_found : Certificate → Outcome Error KeyPair → Outcome Error Certificate
with_found c (ok kp) = ok (with_key_pair c kp)
with_found c (err e) = err e

-- What a lookup makes of a certificate: a secret that is not found leaves it as it is.
unfoldable pub populated : Certificate → Outcome Error Secret → Outcome Error Certificate
unfolding with_found
populated c (ok s) = with_found c (secret_to_key_pair s)
populated c (err not_found) = if c.external then err not_found else ok c
populated c (err e) = err e

unfoldable pub ensure_exists : Certificate → Outcome Error Unit
ensure_exists c = elim c.key_pair [
  | none ↦ err missing_certificate
  | some kp ↦
      if kp.cert == ""
      then err missing_crt
      else if c.external
      then ok tt
      else if kp.key == ""
      then err missing_key
      else ok tt
]

unfoldable pub ensure_all_exist : List Certificate → Outcome Error Unit
unfolding ensure_exists
ensure_all_exist [] = ok tt
ensure_all_exist (c ∷ cs) =
    let rest = ensure_all_exist cs in elim (ensure_exists c) [ ok u ↦ rest | err e ↦ err e ]

unfoldable pub secret_of : ObjectKey → OwnerReference → Certificate → KeyPair → Secret
unfolding name
secret_of cluster owner c kp = record {
  namespace = cluster.namespace;
  name = name cluster.name c.purpose;
  labels = (cluster_name_label, cluster.name) ∷ [];
  owners = if c.generated then owner ∷ [] else [];
  entries = (tls_key_data_name, kp.key) ∷ (tls_crt_data_name, kp.cert) ∷ [];
  type = cluster_secret_type;
}

-- A certificate without a key pair is a nil pointer that is followed.
unfoldable pub as_secret : ObjectKey → OwnerReference → Certificate → Outcome Error Secret
unfolding secret_of
as_secret cluster owner c = elim c.key_pair [
  | none ↦ err nil_dereference
  | some kp ↦ ok (secret_of cluster owner c kp)
]

abbrev file_of : String → String → String → List File
file_of path permissions content =
    if content == ""
    then []
    else record {
      path = path;
      owner = root_owner_value;
      permissions = permissions;
      encoding = "";
      content = content;
      content_from = none;
    }
      ∷ []

-- Certificate.AsFiles
unfoldable pub files_of : Certificate → Outcome Error (List File)
files_of c = elim c.key_pair [
  | none ↦ err nil_dereference
  | some kp ↦ ok (file_of c.cert_file "0640" kp.cert ++ file_of c.key_file "0600" kp.key)
]

abbrev appended : Outcome Error (List File) → Outcome Error (List File) → Outcome Error (List File)
appended (ok fs) (ok gs) = ok (fs ++ gs)
appended (ok fs) (err e) = err e
appended (err e) r = err e

unfoldable pub files_if_found : Option Certificate → Outcome Error (List File)
unfolding files_of
files_if_found none = ok []
files_if_found (some c) = files_of c

-- Certificates.AsFiles
unfoldable pub as_files : List Certificate → Outcome Error (List File)
unfolding files_if_found get_by_purpose
as_files cs = appended (files_if_found (get_by_purpose cs cluster_ca)) (
    appended (files_if_found (get_by_purpose cs client_cluster_ca)) (
      appended (files_if_found (get_by_purpose cs etcd_ca))
        (files_if_found (get_by_purpose cs api_server_etcd_client))))

module _ (client : ManagementClient) where
  unfoldable pub lookup_one : ObjectKey → Certificate → Io Certificate
  unfolding ask name populated
  lookup_one cluster c = do
    answer ← attempt (
        ask (get_secret cluster.namespace (name cluster.name c.purpose))
          (λ rs. client.get_secret rs cluster.namespace (name cluster.name c.purpose)))
    lift (populated c answer)

  unfoldable pub lookup_all : ObjectKey → List Certificate → Io (List Certificate)
  unfolding map_each
  lookup_all cluster cs = map_each (lookup_one cluster) cs

  abbrev pub generator : Purpose → Requests → Outcome Error KeyPair
  generator purpose =
      if purpose == service_account
      then client.generate_service_account_keys
      else client.generate_ca_cert

  -- Certificate.Generate
  unfoldable pub generate : Certificate → Io Certificate
  unfolding ask
  generate c = if c.purpose == api_server_etcd_client then pure c else do
    kp ← ask (generate_key_pair c.purpose) (generator c.purpose)
    pure (record c { key_pair = some kp; generated = true })

  unfoldable pub generate_unless : Certificate → Option KeyPair → Io Certificate
  unfolding generate
  generate_unless c none = generate c
  generate_unless c (some kp) = pure c

  unfoldable pub generate_missing : Certificate → Io Certificate
  unfolding generate_unless
  generate_missing c = generate_unless c c.key_pair

  -- Certificates.Generate
  unfoldable pub generate_all : List Certificate → Io (List Certificate)
  unfolding map_each
  generate_all cs = map_each generate_missing cs

  unfoldable pub save_secret : ObjectKey → OwnerReference → Certificate → Io Unit
  unfolding tell as_secret
  save_secret cluster owner c = do
    s ← lift (as_secret cluster owner c)
    tell (create_secret s) (λ rs. client.create_secret rs s)

  unfoldable pub save : ObjectKey → OwnerReference → Certificate → Io Unit
  unfolding save_secret
  save cluster owner c = if c.generated then save_secret cluster owner c else pure tt

  unfoldable pub save_generated : ObjectKey → OwnerReference → List Certificate → Io Unit
  unfolding for_each
  save_generated cluster owner cs = for_each (save cluster owner) cs

  unfoldable pub lookup_or_generate :
      ObjectKey → OwnerReference → List Certificate → Io (List Certificate)
  lookup_or_generate cluster owner cs = do
    found ← lookup_all cluster cs
    complete ← generate_all found
    save_generated cluster owner complete
    pure complete
