-- ===== src/Samples/Management.antt =====
-- A management cluster that serves every request, with a store of secrets that starts empty.
use cluster_api_k3s.Prelude.{
  String, Bool, true, false, Option, none, some, [], ◌∷◌, if◌then◌else◌, ◌==◌, ◌&&◌, eq_refl, ◌≡◌,
  refl,
}
use cluster_api_k3s.Prelude.Exec.{Outcome, ok, err}
use cluster_api_k3s.Api.{
  Error, not_found, already_exists, Secret, KeyPair, Request, Requests, create_secret,
  update_secret, ManagementClient,
}
use cluster_api_k3s.Samples.{cluster}
use cluster_api_k3s.Secrets.Certificates.Loops.{is_update}
use cluster_api_k3s.Secrets.Certificates.Stored.{SecretsLaws}

abbrev has_key : String → String → Secret → Bool
has_key namespace n x = x.namespace == namespace && x.name == n

abbrev first : Option Secret → Secret → Option Secret
first none x = some x
first (some y) x = some y

abbrev replaced : Option Secret → Secret → Option Secret
replaced none x = none
replaced (some y) x = some x

abbrev pub in_store : Requests → String → String → Option Secret
in_store [] namespace n = none
in_store (create_secret x ∷ rs) namespace n =
    let rest = in_store rs namespace n in if has_key namespace n x then first rest x else rest
in_store (update_secret x ∷ rs) namespace n =
    let rest = in_store rs namespace n in if has_key namespace n x then replaced rest x else rest
in_store (r ∷ rs) namespace n = in_store rs namespace n

abbrev read : Option Secret → Outcome Error Secret
read none = err not_found
read (some x) = ok x

abbrev refuse : Option Secret → Option Error
refuse none = none
refuse (some x) = some already_exists

abbrev missed : Option Secret → Option Error
missed none = some not_found
missed (some x) = none

abbrev pub key_pair : KeyPair
key_pair = record { cert = "certificate"; key = "key" }

abbrev pub management : ManagementClient
management = record {
  get_secret = λ rs namespace n. read (in_store rs namespace n);
  create_secret = λ rs x. refuse (in_store rs x.namespace x.name);
  update_secret = λ rs x. missed (in_store rs x.namespace x.name);
  generate_ca_cert = λ rs. ok key_pair;
  generate_service_account_keys = λ rs. ok key_pair;
  random = λ rs. ok "0123456789abcdef";
  get_kthrees_config = λ rs namespace n. err not_found;
  get_config_owner = λ rs config. ok none;
  get_cluster_by_name = λ rs namespace n. ok cluster;
  new_config_patch_helper = λ rs config. none;
  patch_config = λ rs config complete. none;
  lock = λ rs c machine. true;
  unlock = λ rs c. true;
}

read-ok : (o : Option Secret) (x : Secret) → read o ≡ ok x → o ≡ some x
read-ok none x h = absurd cc
read-ok (some y) x h = cc

read-not_found : (o : Option Secret) → read o ≡ err not_found → o ≡ none
read-not_found none h = refl
read-not_found (some y) h = absurd cc

first-none : (o : Option Secret) (x : Secret) → refuse o ≡ none → first o x ≡ some x
first-none none x h = refl
first-none (some y) x h = absurd cc

first-kept :
    (b : Bool) (o : Option Secret) (x y : Secret)
    → o ≡ some y
    → (if b then first o x else o) ≡ some y
first-kept true none x y h = absurd cc
first-kept true (some z) x y h = h
first-kept false o x y h = h

still :
    (r : Request) (rs : Requests) (namespace n : String) (s : Secret)
    → is_update r ≡ false
    → in_store rs namespace n ≡ some s
    → in_store (r ∷ rs) namespace n ≡ some s
still (create_secret x) rs namespace n s u h = first-kept _ _ x s h
still (update_secret x) rs namespace n s u h = absurd cc
still r rs namespace n s u h = h

pub management_laws : SecretsLaws management
management_laws = record {
  stored = in_store;
  get_stored = λ rs namespace n s h. read-ok _ s h;
  get_not_stored = λ rs namespace n h. read-not_found _ h;
  create_stored = λ rs s h. rw (eq_refl s.namespace, eq_refl s.name) (first-none _ s h);
  kept = still;
}
