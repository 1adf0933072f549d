-- ===== src/Api/Types.antt =====
-- The fields of the Kubernetes objects that the code reads or writes, and the constants of
-- controlplane/api/v1beta2 (kthreescontrolplane_types.go, condition_consts.go).
use cluster_api_k3s.Prelude.{ℕ, String, Bool, Option, List, Dict}
use cluster_api_k3s.Prelude.Int.{ℤ}

-- What the code distinguishes in an `error`: the two kinds that it asks `apierrors` for, the
-- sentinels of its own that it compares with, a run-time panic, and any other error. The text of an
-- error is not modelled, and wrapping an error keeps its kind, as `errors.Is` and `errors.As` see it.
pub data Error : Type 0 where
  not_found already_exists : Error
  -- a write to a nil map, or a nil pointer that is followed
  nil_map_write nil_dereference : Error
  failed_to_pick_for_deletion control_plane_min_nodes pre_condition_failed : Error
  cluster_is_being_deleted nil_node_ref control_plane_is_being_deleted : Error
  no_control_plane_nodes : Error
  no_cluster invalid_ref failed_unlock : Error
  missing_certificate missing_crt missing_key missing_data secret_invalid_suffix : Error
  dependent_certificate_not_found cert_not_in_kubeconfig ca_private_key_not_found : Error
  -- kerrors.NewAggregate of two errors
  aggregate : Error → Error → Error
  other : String → Error

-- metav1.ConditionStatus
pub data Status : Type 0 where
  condition_true condition_false condition_unknown : Status

-- metav1.Condition, corev1.NodeCondition and clusterv1beta1.Condition, without the message, the
-- transition time and the severity
pub record Condition : Type 0 where
  pub type : String
  pub status : Status
  pub reason : String

-- clusterv1.ContractVersionedObjectReference
pub record Ref : Type 0 where
  pub api_group : String
  pub kind : String
  pub name : String

-- metav1.OwnerReference; `controller` is the pointer, with nil read as false
pub record OwnerReference : Type 0 where
  pub kind : String
  pub name : String
  pub uid : String
  pub controller : Bool

-- clusterv1.Machine. `node_ref` is none while `Status.NodeRef` is not defined, `deleting` says that
-- the deletion timestamp is set, and `annotations` is none for a nil map, which can be read and not
-- be written.
pub record Machine : Type 0 where
  pub name : String
  pub namespace : String
  pub uid : String
  pub labels : Dict String
  pub annotations : Option (Dict String)
  pub owners : List OwnerReference
  pub deleting : Bool
  pub cluster_name : String
  pub version : String
  pub failure_domain : String
  pub infrastructure_ref : Option Ref
  pub config_ref : Option Ref
  pub node_drain_timeout_seconds : Option ℤ
  pub node_volume_detach_timeout_seconds : Option ℤ
  pub node_deletion_timeout_seconds : Option ℤ
  pub node_ref : Option String
  pub conditions : List Condition

-- clusterv1.FailureDomain
pub record FailureDomain : Type 0 where
  pub name : String
  pub control_plane : Option Bool

-- clusterv1.APIEndpoint
pub record ApiEndpoint : Type 0 where
  pub host : String
  pub port : ℕ

-- clusterv1.Cluster; the two fields of `Status.Initialization` are pointers
pub record Cluster : Type 0 where
  pub name : String
  pub namespace : String
  pub uid : String
  pub deleting : Bool
  pub failure_domains : List FailureDomain
  pub control_plane_ref : Option Ref
  pub control_plane_endpoint : ApiEndpoint
  pub infrastructure_provisioned : Option Bool
  pub control_plane_initialized : Option Bool

-- bootstrapv1.KThreesServerConfig
pub record KThreesServerConfig : Type 0 where
  pub kube_api_server_args : List String
  pub kube_controller_manager_args : List String
  pub kube_scheduler_args : List String
  pub tls_san : List String
  pub bind_address : String
  pub https_listen_port : String
  pub advertise_address : String
  pub advertise_port : String
  pub cluster_cidr : String
  pub service_cidr : String
  pub cluster_dns : String
  pub cluster_domain : String
  pub disable_components : List String
  pub disable_cloud_controller : Option Bool
  pub deprecated_disable_external_cloud_provider : Bool
  pub cloud_provider_name : Option String
  pub system_default_registry : String
  pub etcd_proxy_image : String

-- bootstrapv1.KThreesAgentConfig
pub record KThreesAgentConfig : Type 0 where
  pub node_labels : List String
  pub node_taints : List String
  pub private_registry : String
  pub kubelet_args : List String
  pub kube_proxy_args : List String
  pub node_name : String
  pub air_gapped : Bool
  pub air_gapped_install_script_path : String

-- bootstrapv1.File; `content_from` is the key of the secret that holds the content, if there is one
pub record File : Type 0 where
  pub path : String
  pub owner : String
  pub permissions : String
  pub encoding : String
  pub content : String
  pub content_from : Option (String × String)

-- bootstrapv1.KThreesConfigSpec
pub record KThreesConfigSpec : Type 0 where
  pub files : List File
  pub pre_k3s_commands : List String
  pub post_k3s_commands : List String
  pub version : String
  pub server_config : KThreesServerConfig
  pub agent_config : KThreesAgentConfig

-- controlplanev1.RemediationStrategy; durations in nanoseconds
pub record RemediationStrategy : Type 0 where
  pub max_retry : Option ℤ
  pub retry_period : ℤ
  pub min_healthy_period : Option ℤ

-- controlplanev1.KThreesControlPlaneMachineTemplate; the timeouts in nanoseconds
pub record KThreesControlPlaneMachineTemplate : Type 0 where
  pub labels : Dict String
  pub annotations : Dict String
  pub infrastructure_ref : Ref
  pub node_drain_timeout : Option ℤ
  pub node_volume_detach_timeout : Option ℤ
  pub node_deletion_timeout : Option ℤ

-- controlplanev1.KThreesControlPlane. Its annotations are only read, deleted from and added to by
-- a helper that makes the map, so that nil and empty are one. `replicas` is none for a nil pointer.
pub record KThreesControlPlane : Type 0 where
  pub name : String
  pub namespace : String
  pub uid : String
  pub annotations : Dict String
  pub finalizers : List String
  pub deleting : Bool
  pub replicas : Option ℕ
  pub version : String
  pub kthrees_config_spec : KThreesConfigSpec
  pub rollout_after : Option ℤ
  pub machine_template : KThreesControlPlaneMachineTemplate
  pub remediation_strategy : Option RemediationStrategy
  pub initialized : Bool
  pub conditions : List Condition

-- corev1.Taint
pub record Taint : Type 0 where
  pub key : String
  pub effect : String

-- corev1.Node
pub record Node : Type 0 where
  pub name : String
  pub labels : Dict String
  pub annotations : Option (Dict String)
  pub taints : List Taint
  pub conditions : List Condition

-- etcd.Member (pkg/etcd/etcd.go); its ids are uint64 values
pub record Member : Type 0 where
  pub id : ℕ
  pub name : String
  pub cluster_id : ℕ
  pub alarms : List ℕ

-- etcd.Client (pkg/etcd/etcd.go): what the code reads of an open client
pub record EtcdClient : Type 0 where
  pub endpoint : String
  pub leader_id : ℕ
  pub errors : List String

abbrev pub kthrees_control_plane_finalizer : String
kthrees_control_plane_finalizer = "kthrees.controlplane.cluster.x-k8s.io"

abbrev pub remediation_in_progress_annotation : String
remediation_in_progress_annotation = "controlplane.cluster.x-k8s.io/remediation-in-progress"

abbrev pub remediation_for_annotation : String
remediation_for_annotation = "controlplane.cluster.x-k8s.io/remediation-for"

abbrev pub server_configuration_annotation : String
server_configuration_annotation = "controlplane.cluster.x-k8s.io/kthrees-server-configuration"

abbrev pub machine_agent_healthy_condition : String
machine_agent_healthy_condition = "AgentHealthy"

abbrev pub machine_etcd_member_healthy_condition : String
machine_etcd_member_healthy_condition = "EtcdMemberHealthy"

abbrev pub etcd_cluster_healthy_condition : String
etcd_cluster_healthy_condition = "EtcdClusterHealthyCondition"

abbrev pub control_plane_components_healthy_condition : String
control_plane_components_healthy_condition = "ControlPlaneComponentsHealthy"
