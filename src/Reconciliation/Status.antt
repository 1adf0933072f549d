-- ===== src/Reconciliation/Status.antt =====
-- controlplane/controllers/kthreescontrolplane_controller.go: updateStatus, and ToStatus of
-- remediation.go. The status is beside the objects in memory; `initialized` and the conditions, which
-- other code reads, are with the control plane.
pub mod Balance
use cluster_api_k3s.Prelude.{
  ℕ, String, Bool, true, false, Option, none, some, List, [], ◌∷◌, lookup, eqb, ltb, leb, not,
  length, ◌-◌, ◌%◌, ◌==◌, if◌then◌else◌,
}
use cluster_api_k3s.Prelude.Int.{ℤ, pos, negsuc, ltb_ℤ, sub_ℕ, int32}
use cluster_api_k3s.Prelude.Exec.{
  Exec, Outcome, ok, err, pure, stop, gets, lift, modify, catch, ◌>>=◌, ◌>>◌,
}
use cluster_api_k3s.Api.{
  Error, nil_dereference, condition_true, condition_false, Status, Machine, RemediationData, Capi,
  Client, Session, Trace, list_owned_machines, get_workload_cluster, remediation_for_annotation,
  remediation_in_progress_annotation, perform, query,
}
use cluster_api_k3s.Workload.{annotation}
use cluster_api_k3s.Workload.Conditions.{mark_kcp}
use cluster_api_k3s.Workload.Conditions.Cluster.{ClusterStatus, cluster_status}
use cluster_api_k3s.ControlPlane.{up_to_date_machines}
use cluster_api_k3s.ControlPlane.Assembly.{new_control_plane}
use cluster_api_k3s.Remediation.Retry.{last_remediation}
use cluster_api_k3s.Reconciliation.{available_condition}
use cluster_api_k3s.Reconciliation.Deletion.{resized_condition}

-- controlplanev1.LastRemediationStatus
pub record LastRemediationStatus : Type 0 where
  pub machine : String
  pub timestamp : Option ℤ
  pub retry_count : ℤ

-- controlplanev1.KThreesControlPlaneStatus: the numbers of replicas are int32 in the source, far above
-- any number of machines.
pub record KThreesControlPlaneStatus : Type 0 where
  pub selector : String
  pub replicas : ℕ
  pub updated_replicas : ℕ
  pub ready_replicas : ℕ
  pub unavailable_replicas : ℤ
  pub version : Option String
  pub ready : Bool
  pub last_remediation : Option LastRemediationStatus

-- A failure of the workload cluster is told apart (k3s.RemoteClusterConnectionError).
pub data StatusError : Type 0 where
  plain : Error → StatusError
  remote_cluster_connection : Error → StatusError

-- Library functions that only updateStatus calls.
pub record StatusLibrary : Type 0 where
  -- ControlPlaneSelectorForCluster, as a string
  pub selector : String → String
  -- GetMachinesForCluster, from the cache, with the filter of the owned machines
  pub owned_machines : Trace → Outcome Error (List Machine)
  -- LowestVersion and IsReady of util/collections
  pub lowest_version : List Machine → String
  pub is_ready : Machine → Bool

pub record Reported : Type 0 where
  pub session : Session
  pub status : KThreesControlPlaneStatus

abbrev pub in_report :
    {A : Type 0} → Reported → Outcome Error A × Session → Outcome Error A × Reported
in_report w (r, s) = (r, record w { session = s })

-- `return err`, with the kind of error that it is
abbrev pub reporting :
    {A : Type 0} → (Error → StatusError) → Exec Session Error A → Exec Reported StatusError A
reporting kind m = catch (λ w. in_report w (m w.session)) (λ e. stop (kind e))

abbrev pub with_status :
    (KThreesControlPlaneStatus → KThreesControlPlaneStatus) → Exec Reported StatusError Unit
with_status f = modify (λ w. record w { status = f w.status })

abbrev pub with_session : (Session → Session) → Exec Reported StatusError Unit
with_session f = modify (λ w. record w { session = f w.session })

unfoldable pub to_status : RemediationData → LastRemediationStatus
unfolding int32
to_status r = record {
  machine = r.machine;
  timestamp = r.timestamp;
  retry_count = int32 r.retry_count;
}

-- `Before`, where none is the zero time
unfoldable pub before : Option ℤ → Option ℤ → Bool
before a none = false
before none (some t) = true
before (some a) (some t) = ltb_ℤ a t

unfoldable pub later : Option RemediationData → Option RemediationData → Option RemediationData
unfolding before
later last none = last
later none (some d) = some d
later (some l) (some d) = if before l.timestamp d.timestamp then some d else some l

-- `Initialized` is only ever set.
abbrev pub initialized_if : Bool → Session → Session
initialized_if found s = record s {
  plane = record s.plane {
    kcp = record s.plane.kcp { initialized = if found then true else s.plane.kcp.initialized };
  };
}

abbrev pub with_version : String → KThreesControlPlaneStatus → KThreesControlPlaneStatus
with_version v st = record st { version = if v == "" then st.version else some v }

abbrev pub unreachable : ℕ → KThreesControlPlaneStatus → KThreesControlPlaneStatus
unreachable n st = record st { replicas = n; ready_replicas = 0; unavailable_replicas = pos n }

-- The numbers of nodes, and `Ready`, which is only ever set.
abbrev pub with_nodes : ℕ → ClusterStatus → KThreesControlPlaneStatus → KThreesControlPlaneStatus
with_nodes n c st = record st {
  ready_replicas = c.ready_nodes;
  unavailable_replicas = sub_ℕ n c.ready_nodes;
  ready = if ltb 0 c.ready_nodes then true else st.ready;
}

abbrev pub status_or :
    Option LastRemediationStatus → Option RemediationData → Option LastRemediationStatus
status_or now none = now
status_or now (some d) = some (to_status d)

module _ (capi : Capi) (lib : StatusLibrary) (client : Client) where
  -- Resized is True only when every machine is ready.
  unfoldable pub resized : ℕ → List Machine → Session → Session
  unfolding mark_kcp
  resized desired owned s =
      if ltb (length owned) desired
      then mark_kcp capi resized_condition condition_false "ScalingUp" s
      else if ltb desired (length owned)
      then mark_kcp capi resized_condition condition_false "ScalingDown" s
      else if eqb (length (capi.filter lib.is_ready owned)) (length owned)
      then mark_kcp capi resized_condition condition_true "" s
      else s

  -- The latest remediation that the machines tell of.
  unfoldable pub latest_of :
      Option RemediationData → List Machine → Exec Session Error (Option RemediationData)
  unfolding later last_remediation
  latest_of last [] = pure last
  latest_of last (m ∷ ms) = do
    told ← lift (last_remediation capi (annotation remediation_for_annotation m.annotations))
    latest_of (later last told) ms

  -- The remediation in progress or, if there is none, the latest.
  unfoldable pub surfaced :
      Option String → List Machine → Exec Session Error (Option RemediationData)
  unfolding latest_of last_remediation
  surfaced none machines = latest_of none machines
  surfaced (some v) machines = lift (last_remediation capi (some v))

  abbrev pub wanted : Option ℕ → Exec Session Error ℕ
  wanted none = stop nil_dereference
  wanted (some n) = pure n

  -- The numbers once the machines are known, before any call of the workload cluster.
  unfoldable pub update_counts : Exec Reported StatusError (ℕ × List Machine)
  unfolding new_control_plane query
  update_counts = do
    owned ← reporting plain (query list_owned_machines lib.owned_machines)
    reporting plain (new_control_plane client owned)
    plane ← gets (λ w. w.session.plane)
    with_status (λ st. record st { updated_replicas = length (up_to_date_machines capi plane) })
    desired ← reporting plain (wanted plane.kcp.replicas)
    with_status (unreachable (length owned))
    pure (desired, owned)

  -- The numbers that the nodes tell of.
  unfoldable pub update_nodes : List Machine → Exec Reported StatusError Unit
  unfolding perform cluster_status mark_kcp
  update_nodes owned = do
    reporting plain (perform get_workload_cluster client.get_workload_cluster)
    c ← reporting remote_cluster_connection (cluster_status capi client)
    with_session (initialized_if c.has_k3s_serving_secret)
    with_status (with_nodes (length owned) c)
    if ltb 0 c.ready_nodes
        then with_session (mark_kcp capi available_condition condition_true "")
        else pure tt

  unfoldable pub update_last_remediation : Exec Reported StatusError Unit
  unfolding surfaced to_status lookup
  update_last_remediation = do
    plane ← gets (λ w. w.session.plane)
    last ←
        reporting plain (
          surfaced (lookup remediation_in_progress_annotation plane.kcp.annotations) plane.machines)
    with_status (λ st. record st { last_remediation = status_or st.last_remediation last })

  unfoldable pub update_live : ℕ → List Machine → Exec Reported StatusError Unit
  unfolding resized update_nodes update_last_remediation
  update_live desired owned = do
    with_status (with_version (lib.lowest_version owned))
    with_session (resized desired owned)
    update_nodes owned
    update_last_remediation

  unfoldable pub update_status : Exec Reported StatusError Unit
  unfolding update_counts update_live
  update_status = do
    cluster ← gets (λ w. w.session.plane.cluster)
    with_status (λ st. record st { selector = lib.selector cluster.name })
    (desired, owned) ← update_counts
    deleting ← gets (λ w. w.session.plane.kcp.deleting)
    if deleting then pure tt else update_live desired owned
