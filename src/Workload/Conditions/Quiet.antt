-- ===== src/Workload/Conditions/Quiet.antt =====
-- What the updates of the conditions leave unchanged.
use cluster_api_k3s.Prelude.{String, Option, none, some, List, [], ◌∷◌, ◌≡◌, refl}
use cluster_api_k3s.Prelude.Exec.{Outcome, ok, err, catch}
use cluster_api_k3s.Prelude.Exec.Keeps.{Keeps, keeps_rules, Keeps-catch}
use cluster_api_k3s.Api.{
  Error, not_found, Machine, Status, Condition, Member, Node, Capi, Client, Session, get_node,
  query,
}
use cluster_api_k3s.Workload.{get_control_plane_nodes}
use cluster_api_k3s.Workload.Conditions.{
  Body, KcpError, Verdict, set, recorded, aggregate_from_machines_to_kcp,
}
use cluster_api_k3s.Workload.Conditions.Agent.{
  ready, inspected, inspect, inspect_matched, inspect_nodes, report_missing, set_all_unknown,
  agent_nodes_unknown, update_agent_conditions,
}
use cluster_api_k3s.Workload.Conditions.EtcdHealth.{
  Baseline, report_lacking, compare_machines_and_members, set_each_unknown, etcd_nodes_unknown,
  conclude, update_managed_etcd_conditions,
}
use cluster_api_k3s.Workload.Conditions.Inspection.{
  IsQuiet, set_etcd-Keeps, inspect_etcd-Keeps, get_control_plane_nodes-Keeps,
}

module _ {X : Type 0} (capi : Capi) (view : Session → X) (quiet : IsQuiet capi view) where
  set-Keeps :
      {E : Type 0} (m : Machine) (type : String) (status : Status) (reason : String)
      → Keeps view (set capi {E = E} m type status reason)
  unfolding set
  set-Keeps m type status reason = record { at = quiet.apart.from_set m type status reason }

  recorded-view :
      (condition : String) (v : Verdict) (s : Session) → view (recorded capi condition v s) ≡ view s
  unfolding recorded
  recorded-view condition none s = refl
  recorded-view condition (some (status, reason)) s = quiet.from_mark condition status reason s

  aggregate-Keeps :
      {E : Type 0} (type condition unhealthy_reason unknown_reason : String) (errs : List KcpError)
      → Keeps view (
          aggregate_from_machines_to_kcp capi {E = E} type condition unhealthy_reason unknown_reason
            errs)
  unfolding aggregate_from_machines_to_kcp
  aggregate-Keeps type condition unhealthy_reason unknown_reason errs =
      search (keeps_rules, recorded-view)

  report_lacking-Keeps :
      (ms : List Member) (left : List Machine) → Keeps view (report_lacking capi ms left)
  unfolding report_lacking
  report_lacking-Keeps ms [] = search keeps_rules
  report_lacking-Keeps ms (m ∷ left) =
      let rest = report_lacking-Keeps ms left in
      search (keeps_rules, set_etcd-Keeps capi view quiet.apart)

  compare-Keeps :
      (known : Option (List Member)) (errs : List KcpError)
      → Keeps view (compare_machines_and_members capi known errs)
  unfolding compare_machines_and_members
  compare-Keeps none errs = search keeps_rules
  compare-Keeps (some ms) errs = search (keeps_rules, report_lacking-Keeps)

  conclude-Keeps : (seen : Baseline × List KcpError) → Keeps view (conclude capi seen)
  unfolding conclude
  conclude-Keeps (b, errs) = search (keeps_rules, compare-Keeps, aggregate-Keeps)

module _ {X : Type 0} (capi : Capi) (view : Session → X) (quiet : IsQuiet capi view)
    (client : Client) where
  set_each_unknown-Keeps : (ms : List Machine) → Keeps view (set_each_unknown capi client ms)
  unfolding set_each_unknown
  set_each_unknown-Keeps [] = search keeps_rules
  set_each_unknown-Keeps (m ∷ ms) =
      let rest = set_each_unknown-Keeps ms in
      search (keeps_rules, set_etcd-Keeps capi view quiet.apart)

  etcd_nodes_unknown-Keeps : (e : Error) → Keeps view (etcd_nodes_unknown capi client e)
  unfolding etcd_nodes_unknown
  etcd_nodes_unknown-Keeps e = search (keeps_rules, quiet.from_mark, set_each_unknown-Keeps)

  nodes_or-Keeps :
      (h : Error → Body (List Node))
      → ((e : Error) → Keeps view (h e))
      → Keeps view (catch (get_control_plane_nodes client) h)
  nodes_or-Keeps h k =
      Keeps-catch (get_control_plane_nodes client) h
        (get_control_plane_nodes-Keeps capi view quiet.apart client) k

  pub update_managed_etcd_conditions-Keeps : Keeps view (update_managed_etcd_conditions capi client)
  unfolding update_managed_etcd_conditions
  update_managed_etcd_conditions-Keeps = search (
    keeps_rules,
    nodes_or-Keeps,
    etcd_nodes_unknown-Keeps,
    inspect_etcd-Keeps capi view quiet.apart client,
    conclude-Keeps capi view quiet,
  )

  ready-Keeps : (m : Machine) (cs : List Condition) → Keeps view (ready capi client m cs)
  unfolding ready
  ready-Keeps m [] = search keeps_rules
  ready-Keeps m (c ∷ cs) =
      let rest = ready-Keeps m cs in search (keeps_rules, set-Keeps capi view quiet)

  inspected-Keeps : (m : Machine) (o : Outcome Error Node) → Keeps view (inspected capi client m o)
  unfolding inspected
  inspected-Keeps m (ok target) = search (keeps_rules, ready-Keeps)
  inspected-Keeps m (err not_found) = search (keeps_rules, set-Keeps capi view quiet)
  inspected-Keeps m (err _) = search (keeps_rules, set-Keeps capi view quiet)

  asked-Keeps : (name : String) → Keeps view (query (get_node name) (λ t. client.get_node t name))
  unfolding query
  asked-Keeps name = record { at = quiet.from_node name }

  inspect-Keeps : (m : Machine) (n : Node) → Keeps view (inspect capi client m n)
  unfolding inspect
  inspect-Keeps m n = search (keeps_rules, asked-Keeps, set-Keeps capi view quiet, inspected-Keeps)

  inspect_matched-Keeps :
      (n : Node) (m : Option Machine) → Keeps view (inspect_matched capi client n m)
  unfolding inspect_matched
  inspect_matched-Keeps n none = search keeps_rules
  inspect_matched-Keeps n (some m) = search (keeps_rules, inspect-Keeps)

  inspect_nodes-Keeps : (ns : List Node) → Keeps view (inspect_nodes capi client ns)
  unfolding inspect_nodes
  inspect_nodes-Keeps [] = search keeps_rules
  inspect_nodes-Keeps (n ∷ ns) =
      let rest = inspect_nodes-Keeps ns in search (keeps_rules, inspect_matched-Keeps)

  report_missing-Keeps :
      (nodes : List Node) (ms : List Machine) → Keeps view (report_missing capi client nodes ms)
  unfolding report_missing
  report_missing-Keeps nodes [] = search keeps_rules
  report_missing-Keeps nodes (m ∷ ms) =
      let rest = report_missing-Keeps nodes ms in search (keeps_rules, set-Keeps capi view quiet)

  set_all_unknown-Keeps : (ms : List Machine) → Keeps view (set_all_unknown capi client ms)
  unfolding set_all_unknown
  set_all_unknown-Keeps [] = search keeps_rules
  set_all_unknown-Keeps (m ∷ ms) =
      let rest = set_all_unknown-Keeps ms in search (keeps_rules, set-Keeps capi view quiet)

  agent_nodes_unknown-Keeps : (e : Error) → Keeps view (agent_nodes_unknown capi client e)
  unfolding agent_nodes_unknown
  agent_nodes_unknown-Keeps e = search (keeps_rules, quiet.from_mark, set_all_unknown-Keeps)

  pub update_agent_conditions-Keeps : Keeps view (update_agent_conditions capi client)
  unfolding update_agent_conditions
  update_agent_conditions-Keeps =
      search
        (
          keeps_rules,
          nodes_or-Keeps,
          agent_nodes_unknown-Keeps,
          inspect_nodes-Keeps,
          report_missing-Keeps,
          aggregate-Keeps capi view quiet,
        )
        depth 8
