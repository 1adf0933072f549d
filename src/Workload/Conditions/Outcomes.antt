-- ===== src/Workload/Conditions/Outcomes.antt =====
-- What updateManagedEtcdConditions comes to as a whole.
use cluster_api_k3s.Prelude.{true, false, some, List, ◌≡◌, refl, ap, ◌∙◌, sym}
use cluster_api_k3s.Prelude.Exec.{Exec, pure, Outcome, ok, err, continue, handled, ◌>>=◌}
use cluster_api_k3s.Prelude.Exec.Keeps.{continue-ok}
use cluster_api_k3s.Api.{
  Error, condition_true, KThreesControlPlane, etcd_cluster_healthy_condition, Member, Node, Capi,
  CapiLaws, Client, Session,
}
use cluster_api_k3s.Workload.{get_control_plane_nodes}
use cluster_api_k3s.Workload.Conditions.{KcpError, has_status}
use cluster_api_k3s.Workload.Conditions.EtcdHealth.{
  Baseline, nothing_known, inspect_etcd, etcd_nodes_unknown, conclude,
  update_managed_etcd_conditions,
}
use cluster_api_k3s.Workload.Conditions.Consistency.{
  IsConsistent, is_etcd_healthy, conclude-IsConsistent,
}
use cluster_api_k3s.Workload.Conditions.Coverage.{AreMatched, inspect_etcd-AreMatched}
use cluster_api_k3s.Workload.Conditions.Inspection.{
  kcp_of, kcp_of-IsApart, get_control_plane_nodes-Keeps, inspect_etcd-Keeps,
}

handled-ok :
    {S E F A : Type 0} (r : Outcome E A × S) (h : E → Exec S F A) {a : A}
    → r.0 ≡ ok a
    → handled r h ≡ (ok a, r.1)
handled-ok (ok b, s) h {a} e = let same : b ≡ a = cc in ap (λ x. (ok x, s)) same
handled-ok (err x, s) h e = cc

body_session :
    {S : Type 0} (F : Type 0) (r : Outcome Unit Unit × S)
    → (handled r (λ (_ : Unit). pure {S = S} {E = F} tt)).1 ≡ r.1
body_session F (ok b, s) = refl
body_session F (err x, s) = refl

module _ (capi : Capi) (client : Client) where
  -- The session and the result after the inspection of the members.
  abbrev pub inspected : List Node → Session → Outcome Unit (Baseline × List KcpError) × Session
  inspected nodes s =
      inspect_etcd capi client nothing_known nodes (get_control_plane_nodes client s).1

  inspected-kcp : (nodes : List Node) (s : Session) → kcp_of (inspected nodes s).1 ≡ kcp_of s
  inspected-kcp nodes s =
      (inspect_etcd-Keeps capi kcp_of (kcp_of-IsApart capi) client nothing_known nodes).at
        (get_control_plane_nodes client s).1
      ∙ (get_control_plane_nodes-Keeps capi kcp_of (kcp_of-IsApart capi) client).at s

  update-after :
      (nodes : List Node) (seen : Baseline × List KcpError) (s : Session)
      → (get_control_plane_nodes client s).0 ≡ ok nodes
      → (inspected nodes s).0 ≡ ok seen
      → (update_managed_etcd_conditions capi client s).1
        ≡ (conclude capi seen (inspected nodes s).1).1
  unfolding update_managed_etcd_conditions
  update-after nodes seen s listed known =
      body_session Error _
      ∙ ap
          (λ (r : Outcome Unit (List Node) × Session).
            (continue r (λ ns. inspect_etcd capi client nothing_known ns >>= conclude capi)).1)
          (handled-ok (get_control_plane_nodes client s) (etcd_nodes_unknown capi client) listed)
      ∙ ap (λ (r : Outcome Unit Unit × Session). r.1)
          (continue-ok (inspected nodes s) (conclude capi) known)

module _ (capi : Capi) (laws : CapiLaws capi) (client : Client) where
  -- Where updateManagedEtcdConditions makes EtcdClusterHealthy True that was not True before, and it
  -- could list the nodes and some member has answered with a list: every control plane node had a
  -- machine when it was inspected, or a machine without a node was there then, every machine with a
  -- node has a member of that list, and every member of the list has a machine.
  pub update_managed_etcd_conditions-IsConsistent :
      (nodes : List Node) (b : Baseline) (errs : List KcpError) (ms : List Member) (s : Session)
      → (get_control_plane_nodes client s).0 ≡ ok nodes
      → (inspected capi client nodes s).0 ≡ ok (b, errs)
      → b.known_members ≡ some ms
      → is_etcd_healthy capi s ≡ false
      → is_etcd_healthy capi (update_managed_etcd_conditions capi client s).1 ≡ true
      → AreMatched capi client nothing_known nodes (get_control_plane_nodes client s).1
        × IsConsistent (inspected capi client nodes s).1.plane.machines ms
  update_managed_etcd_conditions-IsConsistent nodes b errs ms s listed seen known was is =
      let (none_before, consistent) =
        conclude-IsConsistent capi laws b errs ms (inspected capi client nodes s).1 known
          (ap
              (λ (k : KThreesControlPlane).
                has_status condition_true
                  (capi.get_condition_v1beta1 k.conditions etcd_cluster_healthy_condition))
              (inspected-kcp capi client nodes s)
            ∙ was)
          (sym (ap (is_etcd_healthy capi) (update-after capi client nodes (b, errs) s listed seen))
            ∙ is) in
      (
        inspect_etcd-AreMatched capi client nodes nothing_known b
            (get_control_plane_nodes client s).1 (seen ∙ ap (λ es. ok (b, es)) none_before),
        consistent,
      )
