-- ===== src/Locking.antt =====
-- pkg/locking/control_plane_init_mutex.go: the lock that lets one machine of a cluster run the
-- initialisation of k3s, a config map on the management cluster. `Lock` and `Unlock` are programs of
-- single calls, so that the children can interleave the runs of several machines.
pub mod Server
pub mod Exclusion
pub mod Alone
pub mod Schedule
pub mod Mutex
use Prim.Native.String.{◌++◌}
use cluster_api_k3s.Prelude.{
  String, Bool, true, false, Option, none, some, [], ◌∷◌, Dict, lookup, if◌then◌else◌, ◌==◌, ◌≡◌,
}
use cluster_api_k3s.Prelude.Exec.{Outcome, ok, err}
use cluster_api_k3s.Api.{Error, not_found, already_exists, OwnerReference, Cluster}

-- corev1.ConfigMap, as far as the semaphore sets it
pub record ConfigMap : Type 0 where
  pub namespace : String
  pub name : String
  pub labels : Dict String
  pub owners : Option OwnerReference
  pub entries : Dict String

-- A call of the API server, with the namespace and the name of the object.
pub data Request : Type 0 where
  get_config_map : String → String → Request
  get_machine : String → String → Request
  create_config_map : ConfigMap → Request
  delete_config_map : ConfigMap → Request

-- What a call that succeeds brings back.
abbrev pub Answer : Request → Type 0
Answer (get_config_map namespace name) = ConfigMap
Answer (get_machine namespace name) = Unit
Answer (create_config_map c) = Unit
Answer (delete_config_map c) = Unit

-- Code that makes calls, one at a time, and returns a Boolean.
pub data Program : Type 0 where
  return : Bool → Program
  call : (r : Request) → (Outcome Error (Answer r) → Program) → Program

-- The rest of the code after a part of it, whose result it is given.
abbrev pub and_then : Program → (Bool → Program) → Program
and_then (return b) f = f b
and_then (call r k) f = call r (λ a. and_then (k a) f)

abbrev pub semaphore_information_key : String
semaphore_information_key = "lock-information"

unfoldable pub config_map_name : String → String
config_map_name cluster_name = cluster_name ++ "-lock"

-- A missing key reads as the empty text.
abbrev pub read : Option String → String
read none = ""
read (some t) = t

-- encoding/json on the struct `information`, whose one field is the name of a machine; none is an
-- error.
pub record Json : Type 0 where
  pub marshal : String → Option String
  pub unmarshal : String → Option String

-- What is written is read back.
pub record JsonLaws (json : Json) : Type 0 where
  pub unmarshal_marshal : (n t : String) → json.marshal n ≡ some t → json.unmarshal t ≡ some n

module _ (json : Json) where
  unfoldable pub information : ConfigMap → Option String
  unfolding lookup
  information c = json.unmarshal (read (lookup semaphore_information_key c.entries))

  -- `setMetadata` and `setInformation` on a new semaphore
  unfoldable pub semaphore : Cluster → String → ConfigMap
  unfolding config_map_name
  semaphore cluster text = record {
    namespace = cluster.namespace;
    name = config_map_name cluster.name;
    labels = ("cluster.x-k8s.io/cluster-name", cluster.name) ∷ [];
    owners =
        some
          (record { kind = "Cluster"; name = cluster.name; uid = cluster.uid; controller = false });
    entries = (semaphore_information_key, text) ∷ [];
  }

  deleted : Outcome Error Unit → Program
  deleted (ok _) = return true
  deleted (err not_found) = return true
  deleted (err e) = return false

  release : Outcome Error ConfigMap → Program
  unfolding deleted
  release (err not_found) = return true
  release (err e) = return false
  release (ok c) = call (delete_config_map c) deleted

  unfoldable pub unlock : Cluster → Program
  unfolding release config_map_name
  unlock cluster = call (get_config_map cluster.namespace (config_map_name cluster.name)) release

  created : Outcome Error Unit → Program
  created (ok _) = return true
  created (err already_exists) = return false
  created (err e) = return false

  create : Cluster → Option String → Program
  unfolding semaphore created
  create cluster none = return false
  create cluster (some text) = call (create_config_map (semaphore cluster text)) created

  -- The machine that holds the lock is looked up; if it is gone, the lock is released.
  looked_up : Cluster → Outcome Error Unit → Program
  unfolding unlock
  looked_up cluster (err not_found) = and_then (unlock cluster) (λ _. return false)
  looked_up cluster (err e) = return false
  looked_up cluster (ok _) = return false

  held_by : Cluster → String → Option String → Program
  unfolding looked_up
  held_by cluster machine none = return false
  held_by cluster machine (some owner) =
      if owner == machine
      then return true
      else call (get_machine cluster.namespace owner) (looked_up cluster)

  fetched : Cluster → String → Outcome Error ConfigMap → Program
  unfolding create held_by information
  fetched cluster machine (err not_found) = create cluster (json.marshal machine)
  fetched cluster machine (err e) = return false
  fetched cluster machine (ok c) = held_by cluster machine (information c)

  unfoldable pub lock : Cluster → String → Program
  unfolding fetched config_map_name
  lock cluster machine =
      call (get_config_map cluster.namespace (config_map_name cluster.name))
        (fetched cluster machine)
