-- ===== src/Lib.antt =====
-- cluster-api-k3s: the control plane provider and the bootstrap provider of Cluster API for k3s.
--
-- The control plane controller keeps the machines of a cluster's control plane at the wanted
-- number and version. A reconciliation reads the machines, records their health, gets rid of a
-- machine that is unhealthy (remediation), and else adds or removes one machine (scaling). A
-- machine that goes leaves etcd first: the leadership moves, a hook on the machine keeps it from
-- ending, and the machine controller takes the hook off after the member is gone. The bootstrap
-- controller makes the files that start k3s on a machine, and a lock lets one machine of a cluster
-- initialise it.
--
-- How the program is modelled:
-- - Api (Types, Library, Server, Bootstrap, Management): the fields of the Kubernetes objects that the code uses, from
--   bootstrap/api/v1beta2 and controlplane/api/v1beta2. `Capi` holds the pure functions of Cluster
--   API, apimachinery and encoding/json that the code calls, and is a parameter; `CapiLaws` is
--   what the theorems assume of it. `Client` holds what the API servers and etcd answer, and is a
--   parameter too: an answer may depend on all the calls made before it. `Session` is the objects
--   in memory and the list of the calls made.
-- - Prelude: names of the standard library and lemmas on lists, dictionaries, the integers and on
--   Prelude/Exec, the functions of a state that may return early. Prelude/Exec/Keeps is the
--   reasoning on what such a function leaves unchanged, Prelude/Exec/Post on what holds after it,
--   and Prelude/Exec/Only on which calls it makes.
-- - Controllers: what the handlers share (controlplane/controllers/const.go). The machines are
--   shared by pointer in the code; the model updates the control plane's machine of that name.
-- - Reconciliation (controlplane/controllers/kthreescontrolplane_controller.go): `operate` is
--   reconcile from the update of the conditions to its end, and upgradeControlPlane is part of it;
--   Reconciliation/Entry is reconcile as a whole, over a state that has the objects and the requests
--   for secrets; Syncing is syncMachines, Deletion reconcileDelete and Status updateStatus.
-- - Remediation (controlplane/controllers/remediation.go): Retry is checkRetryLimits, Quorum is
--   getMachineToBeRemediated and canSafelyRemoveEtcdMember, Reconcile is
--   reconcileUnhealthyMachines.
-- - Scale (controlplane/controllers/scale.go): Machines creates and updates machines, Preflight is
--   preflightChecks and the choice of a machine, Up and Down are the two handlers.
-- - MachineController (controlplane/controllers/machine_controller.go): Reconcile.
-- - ControlPlane (pkg/k3s/control_plane.go; ControlPlane/Assembly is NewControlPlane) and
--   MachineFilters (pkg/machinefilters): the questions that the controllers ask about machines.
-- - Workload (pkg/k3s/workload_cluster.go, workload_cluster_etcd.go): the nodes and etcd's
--   members; Leaving is the way out of etcd. Conditions is the health of machines and of the
--   control plane: Agent is UpdateAgentConditions, EtcdHealth updateManagedEtcdConditions, Cluster
--   ClusterStatus. Etcd (pkg/etcd/util/util.go) maps members to nodes.
-- - K3sConfig (pkg/k3s/config.go): the k3s configuration of a server and of an agent.
-- - FilterIntent (pkg/util/ssa/filterintent.go, pkg/util/contract/types.go): the filter of the
--   fields that server-side apply sends.
-- - Locking (pkg/locking/control_plane_init_mutex.go): Lock and Unlock are programs of single
--   calls on a config map, so that Locking/Exclusion and Locking/Schedule can interleave several
--   runs. Locking/Mutex is the lock as a variable that holds the name of a machine or nothing.
-- - Secrets: the secrets of a cluster on the management cluster. Secrets is pkg/secret/secret.go and
--   const.go, Secrets/Certificates pkg/secret/certificates.go, Secrets/Token pkg/token/token.go,
--   Secrets/Kubeconfig pkg/kubeconfig/kubeconfig.go, and Secrets/Kubeconfig/Rotation is
--   reconcileKubeconfig of controlplane/controllers/kthreescontrolplane_controller.go.
-- - Cloudinit (pkg/cloudinit): the data and the text of the documents that a machine boots with.
-- - Bootstrap (bootstrap/controllers/kthreesconfig_controller.go): Files is resolveFiles, Storing
--   storeBootstrapData, Joining joinControlplane and joinWorker, Initializing
--   handleClusterNotInitialized, and Reconcile the rest. Bootstrap, Secrets and Cloudinit talk to a
--   `ManagementClient` (Api/Management), a parameter whose answers may depend on all requests made
--   before; the requests are recorded. Secrets/Certificates/Stored has what is assumed where nobody
--   else writes secrets.
-- - Samples: test data, and runs of the code at concrete inputs.
--
-- The handlers are functions of a session by structural recursion, so that no fuel is needed: a
-- loop runs over a list of machines, members or fields. Numbers of members and replicas are
-- natural; the retry count is the int64 of the source and wraps around as it does; times and
-- durations are nanoseconds as integers without a bound. A log line, an event, the text of an
-- error and the message of a condition are not modelled.
--
-- Not modelled: Reconcile of controlplane/controllers/kthreescontrolplane_controller.go, which calls
-- reconcile or reconcileDelete and then updateStatus;
-- the conversions between API versions and the webhooks; the engine of the cloud-init
-- templates; the connections to etcd and through the proxy, and the generation of keys, whose work
-- is I/O or a library's; CoreDNS, flags and the set-up of the managers.
mod Prelude
pub mod Api
pub mod Etcd
pub mod Workload
pub mod MachineFilters
pub mod ControlPlane
pub mod Controllers
pub mod Remediation
pub mod Scale
pub mod Secrets
pub mod Reconciliation
pub mod MachineController
pub mod K3sConfig
pub mod FilterIntent
pub mod Locking
pub mod Cloudinit
pub mod Bootstrap
pub mod Samples
