-- ===== src/Samples/Secrets.antt =====
-- The secrets of a cluster: names, certificates, the token and the kubeconfig.
use cluster_api_k3s.Prelude.{true, false, some, List, [], ◌∷◌, map, find, keep, not, ◌≡◌, refl}
use cluster_api_k3s.Prelude.Int.{pos}
use cluster_api_k3s.Prelude.Exec.{ok, err}
use cluster_api_k3s.Api.{
  other, secret_invalid_suffix, OwnerReference, ObjectKey, ApiEndpoint, get_secret,
  ManagementClient,
}
use cluster_api_k3s.Samples.{kcp}
use cluster_api_k3s.Samples.Management.{key_pair, management, management_laws}
use cluster_api_k3s.Secrets.{
  etcd_ca, client_cluster_ca, api_server_etcd_client, name, parse_secret_name,
}
use cluster_api_k3s.Secrets.Names.{parse_secret_name-name, parse_secret_name-refuses}
use cluster_api_k3s.Secrets.Certificates.{
  Certificate, new_certificates_for_initial_control_plane, lookup_or_generate, lookup_all,
  lookup_one, generate_all, generate_missing, save_generated, save, secret_to_key_pair,
}
use cluster_api_k3s.Secrets.Certificates.Loops.{Each}
use cluster_api_k3s.Secrets.Certificates.Stored.{IsStored}
use cluster_api_k3s.Secrets.Certificates.Kept.{
  AllFresh, purposes, key_pairs, lookup_or_generate-IsStored, lookup_or_generate-again,
}
use cluster_api_k3s.Secrets.Kubeconfig.{KubeconfigLibrary}
use cluster_api_k3s.Secrets.Kubeconfig.Rotation.{reconcile_kubeconfig}
use cluster_api_k3s.Secrets.Kubeconfig.Rotation.Writes.{
  writes, AtMost, Allowed, reconcile_kubeconfig-writes,
}
use cluster_api_k3s.Secrets.Token.{Owner, Ownership, new_controller_ref, upsert_controller_ref}
use cluster_api_k3s.Secrets.Token
use cluster_api_k3s.Secrets.Token.Owned.{has_uid, OwnershipLaws, upsert_controller_ref_lem}
use cluster_api_k3s.Secrets.Token.Reading.{reconcile-lookup}

parse_secret_name-name_example :
    parse_secret_name (name "my-cluster" etcd_ca) ≡ ok ("my-cluster", etcd_ca)
parse_secret_name-name_example = parse_secret_name-name "my-cluster" etcd_ca refl refl

parse_secret_name-refuses_example :
    (parse_secret_name (name "my-cluster" client_cluster_ca) ≡ err secret_invalid_suffix)
    × (parse_secret_name (name "my-cluster" api_server_etcd_client) ≡ err secret_invalid_suffix)
parse_secret_name-refuses_example = parse_secret_name-refuses "my-cluster"

abbrev pub key : ObjectKey
key = record { namespace = "default"; name = "my-cluster" }

abbrev config_owner : OwnerReference
config_owner = record { kind = "KThreesConfig"; name = "c1"; uid = "u1"; controller = true }

abbrev wanted : List Certificate
wanted = new_certificates_for_initial_control_plane true

abbrev generated : List Certificate
generated =
    map (λ (c : Certificate). record c { generated = true; key_pair = some key_pair }) wanted

abbrev read_back : List Certificate
read_back = map (λ (c : Certificate). record c { key_pair = some key_pair }) wanted

fresh : AllFresh wanted
unfolding new_certificates_for_initial_control_plane
fresh = ((refl, refl, refl), ((refl, refl, refl), ((refl, refl, refl), tt)))

lookup_or_generate-IsStored_example :
    (purposes generated ≡ purposes wanted)
    × Each
        (IsStored management management_laws key)
        generated
        (lookup_or_generate management key config_owner wanted []).1
unfolding lookup_or_generate lookup_all new_certificates_for_initial_control_plane lookup_one
    generate_all generate_missing save_generated save
lookup_or_generate-IsStored_example =
    lookup_or_generate-IsStored management management_laws key config_owner wanted generated []
      fresh refl

lookup_or_generate-again_example : key_pairs read_back ≡ key_pairs generated
unfolding lookup_or_generate lookup_all new_certificates_for_initial_control_plane lookup_one
    generate_all generate_missing save_generated save secret_to_key_pair
lookup_or_generate-again_example =
    lookup_or_generate-again management management_laws key config_owner wanted generated read_back
      [] fresh refl refl

abbrev owner : Owner
owner = record { kind = "KThreesControlPlane"; name = "kcp"; uid = "u2" }

abbrev pub ownership : Ownership
ownership = record {
  is_controlled_by = λ refs uid. has_uid uid (find (λ r. r.controller) refs);
  set_controller_reference = λ o s. record s { owners = new_controller_ref o ∷ s.owners };
}

abbrev ownership_laws : OwnershipLaws ownership
ownership_laws = record {
  controlled_by = λ refs uid. refl;
  set_namespace = λ o s. refl;
  set_name = λ o s. refl;
  set_entries = λ o s. refl;
}

upsert_controller_ref_lem_example :
    (ownership.is_controlled_by
        (upsert_controller_ref (new_controller_ref owner) (config_owner ∷ []))
        "u2"
      ≡ true)
    × (keep
          (λ r. not r.controller)
          (upsert_controller_ref (new_controller_ref owner) (config_owner ∷ []))
        ≡ keep (λ r. not r.controller) (config_owner ∷ []))
upsert_controller_ref_lem_example =
    upsert_controller_ref_lem ownership ownership_laws owner (config_owner ∷ [])

reconcile-lookup_example :
    management.random (get_secret "default" (Token.name "my-cluster") ∷ []) ≡ ok "0123456789abcdef"
unfolding Token.reconcile Token.get_token_secret Token.lookup_token
reconcile-lookup_example =
    reconcile-lookup ownership management ownership_laws management_laws key owner []
      "0123456789abcdef" refl refl refl

-- Every read of a secret runs into a timeout.
abbrev timeouts : ManagementClient
timeouts = record management { get_secret = λ rs namespace n. err (other "timeout") }

abbrev pub library : KubeconfigLibrary
library = record {
  decode_cert = λ o. ok o;
  decode_private_key = λ o. ok o;
  encode_cert = λ c. c;
  encode_private_key = λ k. k;
  new_signed_cert = λ k ca ca_key. ok ca;
  write = λ c. ok c.server;
  load = λ d. ok (("my-cluster", d) ∷ [], "old" ∷ []);
  ends_before = λ threshold c. true;
  endpoint_string = λ e. e.host;
  endpoint_is_zero = λ e. false;
  is_controlled_by = λ s k. true;
  client_certificate_renewal_duration = pos 0;
}

-- The cluster's authorities are there, and the kubeconfig is not.
abbrev endpoint : ApiEndpoint
endpoint = record { host = "10.0.0.1"; port = 6443 }

reconcile_kubeconfig-writes_example :
    AtMost
      (Allowed library management key kcp
        (management.get_secret [] "default" "my-cluster-kubeconfig"))
      []
      (writes (reconcile_kubeconfig library management key endpoint kcp []).1)
unfolding name
reconcile_kubeconfig-writes_example =
    reconcile_kubeconfig-writes library management key endpoint kcp []
