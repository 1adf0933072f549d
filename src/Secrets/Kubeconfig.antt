-- ===== src/Secrets/Kubeconfig.antt =====
-- pkg/kubeconfig/kubeconfig.go: the administrator's kubeconfig of a cluster, made from the cluster's
-- authorities and kept in a secret. The cryptography and the format are libraries'.
pub mod Rotation
use cluster_api_k3s.Prelude.{
  ℕ, String, Bool, true, false, Option, none, some, List, [], ◌∷◌, lookup, put, Dict, if◌then◌else◌,
}
use cluster_api_k3s.Prelude.Int.{ℤ}
use cluster_api_k3s.Prelude.Exec.{Outcome, ok, err, pure, stop, lift, catch, ◌>>=◌, ◌>>◌}
use cluster_api_k3s.Api.{
  Error, not_found, other, nil_dereference, dependent_certificate_not_found, cert_not_in_kubeconfig,
  ca_private_key_not_found, OwnerReference, ObjectKey, ApiEndpoint, KThreesControlPlane, Secret,
  KeyPair, cluster_name_label, ManagementClient, Request, Requests, create_secret, update_secret,
  generate_token, Io, ask, tell,
}
use cluster_api_k3s.K3sConfig.Ciphers.{concat}
use cluster_api_k3s.Secrets.{
  Purpose, kubeconfig, cluster_ca, client_cluster_ca, kubeconfig_data_name, tls_key_data_name,
  tls_crt_data_name, name, get_from_namespaced_name, parse_secret_name,
}

-- api.Config of client-go, as `New` fills it in: one cluster, one context and one user
pub record ApiConfig : Type 0 where
  pub cluster_name : String
  pub server : String
  pub certificate_authority_data : String
  pub context_name : String
  pub user_name : String
  pub client_key_data : String
  pub client_certificate_data : String
  pub current_context : String

-- util, util/certs and clientcmd. Decoding answers none for a nil certificate or key.
pub record KubeconfigLibrary : Type 0 where
  pub decode_cert : Option String → Outcome Error (Option String)
  pub decode_private_key : Option String → Outcome Error (Option String)
  pub encode_cert : String → String
  pub encode_private_key : String → String
  -- NewSignedCert: of the new key, the authority's certificate and its key
  pub new_signed_cert : String → String → String → Outcome Error String
  pub write : ApiConfig → Outcome Error String
  -- clientcmd.Load: the servers of the clusters by name, and the client certificates of the users
  pub load : String → Outcome Error (Dict String × List String)
  -- whether `cert.NotAfter.Sub(now) < threshold`
  pub ends_before : ℤ → String → Bool
  -- APIEndpoint.String
  pub endpoint_string : ApiEndpoint → String
  pub endpoint_is_zero : ApiEndpoint → Bool
  -- util.IsControlledBy, with the kind KThreesControlPlane
  pub is_controlled_by : Secret → KThreesControlPlane → Bool
  -- certs.ClientCertificateRenewalDuration
  pub client_certificate_renewal_duration : ℤ

abbrev pub required : {A : Type 0} → Error → Outcome Error (Option A) → Io A
required missing (ok (some x)) = pure x
required missing (ok none) = stop missing
required missing (err e) = stop e

abbrev pub dependent : Error → Io Secret
dependent not_found = stop dependent_certificate_not_found
dependent e = stop e

-- The certificate or key in a secret, where a missing entry reads as no bytes.
abbrev pub entry : String → Secret → Option String
entry k s = lookup k s.entries

unfoldable pub generate_secret_with_owner : ObjectKey → String → OwnerReference → Secret
unfolding name
generate_secret_with_owner cluster out owner = record {
  namespace = cluster.namespace;
  name = name cluster.name kubeconfig;
  labels = (cluster_name_label, cluster.name) ∷ [];
  owners = owner ∷ [];
  entries = (kubeconfig_data_name, out) ∷ [];
  type = "";
}

unfoldable pub to_kubeconfig_bytes : Secret → Outcome Error String
unfolding lookup
to_kubeconfig_bytes s = elim (lookup kubeconfig_data_name s.entries) [
  | none ↦ err (other "missing key in secret data")
  | some d ↦ ok d
]

-- A kubeconfig without the cluster is a nil pointer that is followed.
unfoldable pub server_of : Dict String → String → Outcome Error String
unfolding lookup
server_of clusters cluster_name = elim (lookup cluster_name clusters) [
  | none ↦ err nil_dereference
  | some s ↦ ok s
]

unfoldable pub with_value : String → Secret → Secret
unfolding put
with_value out s = record s { entries = put kubeconfig_data_name out s.entries }

module _ (lib : KubeconfigLibrary) (client : ManagementClient) where
  -- New; certs.NewPrivateKey is a draw of random bytes
  unfoldable pub new : String → String → String → String → String → Io ApiConfig
  unfolding ask
  new cluster_name endpoint client_ca_cert client_ca_key server_ca_cert = do
    client_key ← ask generate_token client.random
    client_cert ← lift (lib.new_signed_cert client_key client_ca_cert client_ca_key)
    let user = concat cluster_name "-admin" in
        let context = concat user (concat "@" cluster_name) in
        pure (record {
          cluster_name = cluster_name;
          server = endpoint;
          certificate_authority_data = lib.encode_cert server_ca_cert;
          context_name = context;
          user_name = user;
          client_key_data = lib.encode_private_key client_key;
          client_certificate_data = lib.encode_cert client_cert;
          current_context = context;
        })

  unfoldable pub generate_kubeconfig : ObjectKey → String → Io String
  unfolding get_from_namespaced_name new lookup
  generate_kubeconfig cluster endpoint = do
    server_ca ← catch (get_from_namespaced_name client cluster cluster_ca) dependent
    client_ca ← catch (get_from_namespaced_name client cluster client_cluster_ca) dependent
    client_ca_cert ←
        required cert_not_in_kubeconfig (lib.decode_cert (entry tls_crt_data_name client_ca))
    client_ca_key ←
        required ca_private_key_not_found
          (lib.decode_private_key (entry tls_key_data_name client_ca))
    server_ca_cert ←
        required cert_not_in_kubeconfig (lib.decode_cert (entry tls_crt_data_name server_ca))
    cfg ← new cluster.name endpoint client_ca_cert client_ca_key server_ca_cert
    lift (lib.write cfg)

  unfoldable pub create_secret_with_owner : ObjectKey → String → OwnerReference → Io Unit
  unfolding tell generate_kubeconfig generate_secret_with_owner
  create_secret_with_owner cluster endpoint owner = do
    out ← generate_kubeconfig cluster (concat "https://" endpoint)
    tell (create_secret (generate_secret_with_owner cluster out owner))
        (λ rs. client.create_secret rs (generate_secret_with_owner cluster out owner))

  -- The loop over the users; a certificate that decodes to nil is a nil pointer that is followed.
  unfoldable pub any_ends_before : ℤ → List String → Outcome Error Bool
  any_ends_before threshold [] = ok false
  any_ends_before threshold (c ∷ cs) =
      let rest = any_ends_before threshold cs in
      elim (lib.decode_cert (some c)) [
        | err e ↦ err e
        | ok none ↦ err nil_dereference
        | ok (some cert) ↦ if lib.ends_before threshold cert then ok true else rest
      ]

  unfoldable pub needs_client_cert_rotation : Secret → ℤ → Io Bool
  unfolding to_kubeconfig_bytes any_ends_before
  needs_client_cert_rotation s threshold = do
    d ← lift (to_kubeconfig_bytes s)
    config ← lift (lib.load d)
    lift (any_ends_before threshold config.1)

  unfoldable pub regenerate_secret : Secret → Io Unit
  unfolding tell generate_kubeconfig parse_secret_name to_kubeconfig_bytes server_of with_value
  regenerate_secret s = do
    parsed ← lift (parse_secret_name s.name)
    d ← lift (to_kubeconfig_bytes s)
    config ← lift (lib.load d)
    endpoint ← lift (server_of config.0 parsed.0)
    out ← generate_kubeconfig (record { namespace = s.namespace; name = parsed.0 }) endpoint
    tell (update_secret (with_value out s)) (λ rs. client.update_secret rs (with_value out s))
