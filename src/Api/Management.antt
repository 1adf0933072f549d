-- ===== src/Api/Management.antt =====
-- The management cluster as the bootstrap provider and the packages of secrets use it. What it answers
-- is a parameter, which may depend on all the requests made before; the requests are recorded, the
-- latest first. So are the draws of random keys, and the calls of the initialisation lock.
use cluster_api_k3s.Prelude.{String, Bool, Option, none, some, List, ◌∷◌}
use cluster_api_k3s.Prelude.Exec.{Exec, Outcome, ok, err}
use cluster_api_k3s.Api.Types.{Error, Cluster}
use cluster_api_k3s.Api.Bootstrap.{Secret, KeyPair, KThreesConfig, ConfigOwner}

pub data Request : Type 0 where
  get_secret : String → String → Request
  create_secret : Secret → Request
  update_secret : Secret → Request
  generate_key_pair : String → Request
  generate_token : Request
  get_kthrees_config : String → String → Request
  get_config_owner : Request
  get_cluster_by_name : String → String → Request
  new_config_patch_helper : Request
  -- with the flag for the observed generation
  patch_config : KThreesConfig → Bool → Request
  lock : String → Request
  unlock : Request

abbrev pub Requests : Type 0
Requests = List Request

pub record ManagementClient : Type 0 where
  -- of a namespace and a name
  pub get_secret : Requests → String → String → Outcome Error Secret
  pub create_secret : Requests → Secret → Option Error
  pub update_secret : Requests → Secret → Option Error
  -- newCertificateAuthority, and certs.NewPrivateKey with certs.EncodePublicKeyPEM, encoded
  pub generate_ca_cert : Requests → Outcome Error KeyPair
  pub generate_service_account_keys : Requests → Outcome Error KeyPair
  -- 16 random bytes in hexadecimal
  pub random : Requests → Outcome Error String
  pub get_kthrees_config : Requests → String → String → Outcome Error KThreesConfig
  pub get_config_owner : Requests → KThreesConfig → Outcome Error (Option ConfigOwner)
  pub get_cluster_by_name : Requests → String → String → Outcome Error Cluster
  pub new_config_patch_helper : Requests → KThreesConfig → Option Error
  pub patch_config : Requests → KThreesConfig → Bool → Option Error
  -- the interface InitLocker (bootstrap/controllers): of a cluster, and of a machine's name
  pub lock : Requests → Cluster → String → Bool
  pub unlock : Requests → Cluster → Bool

-- Code that only makes requests.
abbrev pub Io : Type 0 → Type 0
Io A = Exec Requests Error A

-- A request that answers with a value or an error.
unfoldable pub ask : {A : Type 0} → Request → (Requests → Outcome Error A) → Io A
ask r answer rs = (answer rs, r ∷ rs)

abbrev pub refused : Option Error → Outcome Error Unit
refused none = ok tt
refused (some e) = err e

-- A request that answers with an error or nil.
unfoldable pub tell : Request → (Requests → Option Error) → Io Unit
tell r answer rs = (refused (answer rs), r ∷ rs)

-- A call that answers with a Boolean.
unfoldable pub decide : Request → (Requests → Bool) → Io Bool
decide r answer rs = (ok (answer rs), r ∷ rs)
