-- ===== src/Workload/Conditions/Inspection.antt =====
-- The inspection of the members in updateManagedEtcdConditions writes to machines only, and always
-- comes to its end.
use cluster_api_k3s.Prelude.{
  ◌≡◌, refl, String, Bool, true, false, Option, none, some, List, [], ◌∷◌, refl,
}
use cluster_api_k3s.Prelude.Exec.{Outcome, ok, err}
use cluster_api_k3s.Prelude.Exec.Keeps.{Keeps, keeps_rules}
use cluster_api_k3s.Api.{
  Machine, Status, Member, Node, EtcdClient, KThreesControlPlane, Capi, Client, Session, list_nodes,
  get_node, get_workload_cluster, patch_machine, dial_first_available, list_members, query,
}
use cluster_api_k3s.Controllers.{store, set_condition}
use cluster_api_k3s.Controllers.Deletions.{deleted}
use cluster_api_k3s.Workload.{get_control_plane_nodes, dial_first, members}
use cluster_api_k3s.Workload.Conditions.{set, mark_kcp}
use cluster_api_k3s.Workload.Conditions.EtcdHealth.{
  Baseline, checked, set_etcd, etcd_fails, get_current_etcd_members, answered_members,
  inspect_member, inspect_on, inspect_etcd,
}

-- What neither a condition of a machine nor a question to the servers changes.
pub record IsApart {X : Type 0} (capi : Capi) (view : Session → X) : Type 0 where
  pub from_set :
      (m : Machine) (type : String) (status : Status) (reason : String) (s : Session)
      → view (set_condition capi m type status reason s) ≡ view s
  pub from_listing : (s : Session) → view (record s { trace = list_nodes ∷ s.trace }) ≡ view s
  pub from_dialling :
      (names : List String) (s : Session)
      → view (record s { trace = dial_first_available names ∷ s.trace }) ≡ view s
  pub from_asking :
      (endpoint : String) (s : Session)
      → view (record s { trace = list_members endpoint ∷ s.trace }) ≡ view s

abbrev pub kcp_of : Session → KThreesControlPlane
kcp_of s = s.plane.kcp

-- What the updates of all conditions leave unchanged: they mark the control plane too, and ask for
-- nodes.
pub record IsQuiet {X : Type 0} (capi : Capi) (view : Session → X) : Type 0 where
  pub apart : IsApart capi view
  pub from_mark :
      (type : String) (status : Status) (reason : String) (s : Session)
      → view (mark_kcp capi type status reason s) ≡ view s
  pub from_node :
      (name : String) (s : Session) → view (record s { trace = get_node name ∷ s.trace }) ≡ view s
  pub from_workload :
      (s : Session) → view (record s { trace = get_workload_cluster ∷ s.trace }) ≡ view s
  pub from_patch :
      (m : Machine) (s : Session) → view (record s { trace = patch_machine m ∷ s.trace }) ≡ view s

pub kcp_of-IsApart : (capi : Capi) → IsApart capi kcp_of
unfolding set_condition store
kcp_of-IsApart capi = record {
  from_set = λ m type status reason s. refl;
  from_listing = λ s. refl;
  from_dialling = λ names s. refl;
  from_asking = λ endpoint s. refl;
}

deleted-IsApart : (capi : Capi) → IsApart capi deleted
unfolding set_condition store
deleted-IsApart capi = record {
  from_set = λ m type status reason s. refl;
  from_listing = λ s. refl;
  from_dialling = λ names s. refl;
  from_asking = λ endpoint s. refl;
}

pub deleted-IsQuiet : (capi : Capi) → IsQuiet capi deleted
unfolding mark_kcp
deleted-IsQuiet capi = record {
  apart = deleted-IsApart capi;
  from_mark = λ type status reason s. refl;
  from_node = λ name s. refl;
  from_workload = λ s. refl;
  from_patch = λ m s. refl;
}

module _ {X : Type 0} (capi : Capi) (view : Session → X) (apart : IsApart capi view) where
  pub set_etcd-Keeps :
      {E : Type 0} (m : Machine) (status : Status) (reason : String)
      → Keeps view (set_etcd capi {E = E} m status reason)
  unfolding set_etcd set
  set_etcd-Keeps m status reason = record { at = apart.from_set m _ status reason }

  checked-Keeps : (m : Machine) (r : Baseline × Bool) → Keeps view (checked capi m r)
  unfolding checked
  checked-Keeps m (b, true) = search (keeps_rules, set_etcd-Keeps)
  checked-Keeps m (b, false) = search (keeps_rules, set_etcd-Keeps)

  module _ (client : Client) where
    pub get_control_plane_nodes-Keeps : Keeps view (get_control_plane_nodes client)
    unfolding get_control_plane_nodes query
    get_control_plane_nodes-Keeps =
        let asked : Keeps view (query list_nodes client.list_nodes) = record {
          at = apart.from_listing;
        } in
        search keeps_rules

    dial_first-Keeps : (names : List String) → Keeps view (dial_first client names)
    unfolding dial_first query
    dial_first-Keeps names = record { at = apart.from_dialling names }

    members-Keeps : (etcd : EtcdClient) → Keeps view (members client etcd)
    unfolding members query
    members-Keeps etcd = record { at = apart.from_asking etcd.endpoint }

    etcd_fails-Keeps :
        {A : Type 0} (m : Machine) (reason : String)
        → Keeps view (etcd_fails capi client {A = A} m reason)
    unfolding etcd_fails
    etcd_fails-Keeps m reason = search (keeps_rules, set_etcd-Keeps)

    get_current_etcd_members-Keeps :
        (m : Machine) (name : String) → Keeps view (get_current_etcd_members capi client m name)
    unfolding get_current_etcd_members
    get_current_etcd_members-Keeps m name =
        search (keeps_rules, dial_first-Keeps, members-Keeps, etcd_fails-Keeps)

    answered_members-Keeps :
        (b : Baseline) (m : Machine) (name : String) (r : Outcome Unit (List Member))
        → Keeps view (answered_members capi client b m name r)
    unfolding answered_members
    answered_members-Keeps b m name (ok current) = search (keeps_rules, checked-Keeps)
    answered_members-Keeps b m name (err e) = search keeps_rules

    inspect_member-Keeps :
        (b : Baseline) (name : String) (m : Machine)
        → Keeps view (inspect_member capi client b name m)
    unfolding inspect_member
    inspect_member-Keeps b name m =
        search (keeps_rules, set_etcd-Keeps, get_current_etcd_members-Keeps, answered_members-Keeps)

    inspect_on-Keeps :
        (b : Baseline) (name : String) (m : Option Machine)
        → Keeps view (inspect_on capi client b name m)
    unfolding inspect_on
    inspect_on-Keeps b name none = search keeps_rules
    inspect_on-Keeps b name (some m) = search (keeps_rules, inspect_member-Keeps)

    pub inspect_etcd-Keeps :
        (b : Baseline) (nodes : List Node) → Keeps view (inspect_etcd capi client b nodes)
    unfolding inspect_etcd
    inspect_etcd-Keeps b [] = search keeps_rules
    inspect_etcd-Keeps b (n ∷ ns) =
        let rest : (next : Baseline) → Keeps view (inspect_etcd capi client next ns) =
          λ next. inspect_etcd-Keeps next ns in
        search (keeps_rules, inspect_on-Keeps)
