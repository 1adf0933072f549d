-- ===== src/Api/Bootstrap.antt =====
-- The objects of the bootstrap provider (bootstrap/api/v1beta2) and the secrets that it keeps on the
-- management cluster.
use cluster_api_k3s.Prelude.{String, Bool, Option, List, Dict}
use cluster_api_k3s.Api.Types.{Condition, OwnerReference, KThreesConfigSpec}

-- client.ObjectKey
pub record ObjectKey : Type 0 where
  pub namespace : String
  pub name : String

-- corev1.Secret; `entries` is its data, with bytes as texts, and `type` is the secret's type
pub record Secret : Type 0 where
  pub namespace : String
  pub name : String
  pub labels : Dict String
  pub owners : List OwnerReference
  pub entries : Dict String
  pub type : String

-- certs.KeyPair
pub record KeyPair : Type 0 where
  pub cert : String
  pub key : String

-- bootstrapv1.KThreesConfig, with the fields of its status that the code sets
pub record KThreesConfig : Type 0 where
  pub namespace : String
  pub name : String
  pub uid : String
  pub annotations : Dict String
  pub spec : KThreesConfigSpec
  pub ready : Bool
  pub data_secret_name : Option String
  pub conditions : List Condition

-- bsutil.ConfigOwner: what its methods read from the unstructured owner
pub record ConfigOwner : Type 0 where
  pub kind : String
  pub namespace : String
  pub name : String
  pub cluster_name : String
  pub data_secret_name : Option String
  pub is_control_plane_machine : Bool

-- clusterv1beta1.Machine, as the bootstrap provider reads it from the owner
pub record OwnerMachine : Type 0 where
  pub name : String
  pub version : Option String

-- clusterv1beta1.ClusterNameLabel and clusterv1beta1.ClusterSecretType
abbrev pub cluster_name_label : String
cluster_name_label = "cluster.x-k8s.io/cluster-name"

abbrev pub cluster_secret_type : String
cluster_secret_type = "cluster.x-k8s.io/secret"
