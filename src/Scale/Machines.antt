-- ===== src/Scale/Machines.antt =====
-- controlplane/controllers/scale.go: computeDesiredMachine, cloneConfigsAndGenerateMachine and what
-- it calls. An aggregate of errors is returned as its first one.
pub mod Desired
pub mod Creation
use cluster_api_k3s.Prelude.{
  ℕ, String, Bool, true, false, Option, none, some, List, [], ◌∷◌, Dict, lookup, put, put_all,
  remove, length, map, suc, ◌/◌, if◌then◌else◌,
}
use cluster_api_k3s.Prelude.Int.{ℤ, pos, negsuc, ◌-ℤ◌, int32}
use cluster_api_k3s.Prelude.Exec.{
  Exec, Outcome, ok, err, pure, stop, gets, lift, modify, attempt, catch, ◌>>=◌, ◌>>◌,
}
use cluster_api_k3s.Api.{
  Error, not_found, other, Machine, Ref, OwnerReference, Cluster, KThreesConfigSpec,
  KThreesControlPlane, Capi, Client, ControlPlane, Session, Trace, create_from_template,
  create_kthrees_config, get_object, delete_object, ssa_patch_machine, apply_external, perform,
  query, remediation_in_progress_annotation, remediation_for_annotation,
  server_configuration_annotation,
}
use cluster_api_k3s.ControlPlane.{control_plane_labels_for_cluster}
use cluster_api_k3s.Workload.{annotation}

abbrev pub controller_ref : KThreesControlPlane → OwnerReference
controller_ref kcp = record {
  kind = "KThreesControlPlane";
  name = kcp.name;
  uid = kcp.uid;
  controller = true;
}

-- `if v, ok := from[k]; ok { to[key] = v }`
abbrev pub put_some : String → Option String → Dict String → Dict String
put_some key none d = d
put_some key (some v) d = put key v d

-- What differs between a new machine and an existing one.
pub record Identity : Type 0 where
  pub name : String
  pub uid : String
  pub version : String
  pub annotations : Dict String

-- `int32(d.Seconds())` of a duration in nanoseconds: the seconds are cut off towards zero and narrowed.
-- The rounding of the float64 in between, which shows from 2^24 seconds on, is left out; so is that Go
-- leaves the result open where the seconds do not fit an int32.
unfoldable pub seconds : ℤ → ℤ
unfolding int32
seconds (pos n) = int32 (pos (n / 1_000_000_000))
seconds (negsuc n) = int32 (pos 0 -ℤ pos (suc n / 1_000_000_000))

abbrev map_seconds : Option ℤ → Option ℤ
map_seconds none = none
map_seconds (some d) = some (seconds d)

module _ (capi : Capi) where
  new_with : Option String → ℕ → KThreesControlPlane → Outcome Error Identity
  new_with none seed kcp = err (other "failed to marshal cluster configuration")
  new_with (some config) seed kcp = ok (record {
    name = capi.generate_name seed kcp.name;
    uid = "";
    version = kcp.version;
    annotations =
        put_some remediation_for_annotation
          (lookup remediation_in_progress_annotation kcp.annotations)
          (put server_configuration_annotation config []);
  })

  -- `names.SimpleNameGenerator.GenerateName(kcp.Name + "-")` is the operation `generate_name`.
  unfoldable pub identity : ℕ → KThreesControlPlane → Option Machine → Outcome Error Identity
  unfolding new_with
  identity seed kcp none =
      new_with (capi.marshal_server_config kcp.kthrees_config_spec.server_config) seed kcp
  identity seed kcp (some existing) = ok (record {
    name = existing.name;
    uid = existing.uid;
    version = existing.version;
    annotations =
        put_some remediation_for_annotation
          (annotation remediation_for_annotation existing.annotations)
          (put_some server_configuration_annotation
            (annotation server_configuration_annotation existing.annotations) []);
  })

  abbrev infrastructure_of : Option Machine → Option Ref
  infrastructure_of none = none
  infrastructure_of (some m) = m.infrastructure_ref

  abbrev config_of : Option Machine → Option Ref
  config_of none = none
  config_of (some m) = m.config_ref

  desired :
      KThreesControlPlane
      → Cluster
      → String
      → Option Machine
      → Outcome Error Identity
      → Outcome Error Machine
  desired kcp cluster failure_domain existing (err e) = err e
  desired kcp cluster failure_domain existing (ok id) = ok (record {
    name = id.name;
    namespace = kcp.namespace;
    uid = id.uid;
    labels = control_plane_labels_for_cluster cluster.name kcp.machine_template;
    annotations = some (put_all kcp.machine_template.annotations id.annotations);
    owners = controller_ref kcp ∷ [];
    deleting = false;
    cluster_name = cluster.name;
    version = id.version;
    failure_domain = failure_domain;
    infrastructure_ref = infrastructure_of existing;
    config_ref = config_of existing;
    node_drain_timeout_seconds = map_seconds kcp.machine_template.node_drain_timeout;
    node_volume_detach_timeout_seconds =
        map_seconds kcp.machine_template.node_volume_detach_timeout;
    node_deletion_timeout_seconds = map_seconds kcp.machine_template.node_deletion_timeout;
    node_ref = none;
    conditions = [];
  })

  unfoldable pub compute_desired_machine :
      ℕ → KThreesControlPlane → Cluster → String → Option Machine → Outcome Error Machine
  unfolding identity desired
  compute_desired_machine seed kcp cluster failure_domain existing =
      desired kcp cluster failure_domain existing (identity seed kcp existing)

-- How many calls were made stands for the randomness of a generated name.
abbrev pub seed_of : Session → ℕ
seed_of s = length s.trace

module _ (capi : Capi) (client : Client) where
  unfoldable pub generate_kthrees_config : KThreesConfigSpec → Exec Session Error Ref
  unfolding perform
  generate_kthrees_config spec = do
    name ← gets (λ s. capi.generate_name (seed_of s) s.plane.kcp.name)
    perform (create_kthrees_config name spec) (λ t. client.create_kthrees_config t name)
    pure (record { api_group = "bootstrap.cluster.x-k8s.io"; kind = "KThreesConfig"; name = name })

  unfoldable pub without_annotation : Session → Session
  without_annotation s = record s {
    plane = record s.plane {
      kcp = record s.plane.kcp {
        annotations = remove remediation_in_progress_annotation s.plane.kcp.annotations;
      };
    };
  }

  -- The remediation is over once its replacement is created.
  unfoldable pub create_machine : Machine → Exec Session Error Unit
  unfolding perform without_annotation
  create_machine m = do
    perform (ssa_patch_machine m) (λ t. client.ssa_patch_machine t m)
    modify without_annotation

  -- `apierrors.IsNotFound` ends the work on one reference with no error.
  abbrev unless_not_found : Error → List Error
  unless_not_found not_found = []
  unless_not_found e = e ∷ []

  unfoldable pub delete_reference : Ref → Exec Session Error Unit
  unfolding perform
  delete_reference ref = do
    perform (get_object ref) (λ t. client.get_object t ref)
    perform (delete_object ref) (λ t. client.delete_object t ref)

  abbrev also : Outcome Error Unit → List Error → List Error
  also (ok _) errs = errs
  also (err not_found) errs = errs
  also (err e) errs = e ∷ errs

  unfoldable pub cleanup_from_generation : List Ref → Exec Session Error (List Error)
  unfolding delete_reference
  cleanup_from_generation [] = pure []
  cleanup_from_generation (ref ∷ refs) = do
    done ← attempt (delete_reference ref)
    errs ← cleanup_from_generation refs
    pure (also done errs)

  unfoldable pub after_creation : List Ref → Outcome Error Unit → Exec Session Error Unit
  unfolding cleanup_from_generation
  after_creation refs (ok _) = pure tt
  after_creation refs (err e) = do cleanup_from_generation refs; stop e

  unfoldable pub with_config : Machine → Ref → Outcome Error Ref → Exec Session Error Unit
  unfolding create_machine after_creation cleanup_from_generation
  with_config m infra (err e) = do cleanup_from_generation (infra ∷ []); stop e
  with_config m infra (ok ref) = do
    created ← attempt (create_machine (record m { config_ref = some ref }))
    after_creation (infra ∷ ref ∷ []) created

  unfoldable pub clone_configs_and_generate_machine :
      KThreesConfigSpec → String → Exec Session Error Unit
  unfolding compute_desired_machine generate_kthrees_config with_config query
  clone_configs_and_generate_machine spec failure_domain = do
    computed ← gets (λ s.
        compute_desired_machine capi (seed_of s) s.plane.kcp s.plane.cluster failure_domain none)
    m ← lift computed
    template ← gets (λ s. s.plane.kcp.machine_template.infrastructure_ref)
    infra ← query (create_from_template template) (λ t. client.create_from_template t template)
    config ← attempt (generate_kthrees_config spec)
    with_config (record m { infrastructure_ref = some infra }) infra config

  unfoldable pub update_machine : Machine → Exec Session Error Machine
  unfolding compute_desired_machine query
  update_machine m = do
    computed ← gets (λ s.
        compute_desired_machine capi (seed_of s) s.plane.kcp s.plane.cluster m.failure_domain
          (some m))
    updated ← lift computed
    query (ssa_patch_machine updated) (λ t. client.apply_machine t updated)

  -- updateExternalObject, of the reference to the object
  unfoldable pub update_external_object : Ref → Exec Session Error Unit
  unfolding perform control_plane_labels_for_cluster
  update_external_object ref = do
    kcp ← gets (λ s. s.plane.kcp)
    cluster ← gets (λ s. s.plane.cluster)
    let labels = control_plane_labels_for_cluster cluster.name kcp.machine_template in
        let annotations = kcp.machine_template.annotations in
        perform (apply_external ref labels annotations)
          (λ t. client.apply_external t ref labels annotations)
