-- ===== src/Workload/Conditions/Coverage.antt =====
-- That the inspection of the members reports every control plane node that has no machine.
use cluster_api_k3s.Prelude.{
  append-nil_left, String, true, Option, none, some, List, [], ◌∷◌, ◌++◌, is_some, ◌≡◌, refl, ◌⊎◌,
  inl, inr, sym, ap, ◌∙◌, subst, Bool-cases,
}
use cluster_api_k3s.Prelude.Exec.{Outcome, err, ok, pure, ◌>>=◌}
use cluster_api_k3s.Prelude.Exec.Keeps.{split_at}
use cluster_api_k3s.Api.{Machine, Node, Capi, Client, Session}
use cluster_api_k3s.Workload.{find_last, is_on_node}
use cluster_api_k3s.Workload.Conditions.{KcpError, has_provisioning_machine, unmatched}
use cluster_api_k3s.Workload.Conditions.EtcdHealth.{Baseline, inspect_on, inspect_etcd}

-- The last machine that is on the node.
abbrev pub machine_for : Node → Session → Option Machine
machine_for n s = find_last (λ m. is_on_node m.node_ref n.name) s.plane.machines

abbrev errs_of : Outcome Unit (Baseline × List KcpError) → List KcpError
errs_of (ok x) = x.1
errs_of (err e) = []

abbrev base_of : Baseline → Outcome Unit (Baseline × List KcpError) → Baseline
base_of b (ok x) = x.0
base_of b (err e) = b

module _ (capi : Capi) (client : Client) where
  -- Each node had a machine when its turn came, or a machine without a node was there then.
  pub AreMatched : Baseline → List Node → Session → Type 0
  AreMatched b [] s = Unit
  AreMatched b (n ∷ ns) s =
      ((is_some (machine_for n s) ≡ true) ⊎ (has_provisioning_machine s.plane.machines ≡ true))
      × ((next : Baseline)
          → (inspect_on capi client b n.name (machine_for n s) s).0 ≡ ok (next, [])
          → AreMatched next ns (inspect_on capi client b n.name (machine_for n s) s).1)

  matched_one :
      (b next : Baseline) (name : String) (o : Option Machine) (s : Session)
      → (inspect_on capi client b name o s).0 ≡ ok (next, [])
      → (is_some o ≡ true) ⊎ (has_provisioning_machine s.plane.machines ≡ true)
  unfolding inspect_on unmatched
  matched_one b next name (some m) s h = inl refl
  matched_one b next name none s h = elim (Bool-cases (has_provisioning_machine s.plane.machines)) [
    | inl there ↦ inr there
    | inr none_there ↦ let never = rw none_there at h in cc
  ]

  pub inspect_etcd-AreMatched :
      (nodes : List Node) (b last : Baseline) (s : Session)
      → (inspect_etcd capi client b nodes s).0 ≡ ok (last, [])
      → AreMatched b nodes s
  unfolding inspect_etcd AreMatched
  inspect_etcd-AreMatched [] b last s h = tt
  inspect_etcd-AreMatched (n ∷ ns) b last s h =
      let one = inspect_on capi client b n.name (machine_for n s) s in
      let (seen, e1, q1) =
        split_at one (λ x. inspect_etcd capi client x.0 ns >>= λ y. pure (y.0, x.1 ++ y.1))
          (last, []) h in
      let (found, e2, q2) =
        split_at (inspect_etcd capi client seen.0 ns one.1) (λ y. pure (y.0, seen.1 ++ y.1))
          (last, [])
          (sym (ap (λ (r : Outcome Unit (Baseline × List KcpError) × Session). r.0) q1) ∙ h) in
      let all : Path (Outcome Unit (Baseline × List KcpError)) (ok (found.0, seen.1 ++ found.1))
          (ok (last, [])) =
        sym (ap (λ (r : Outcome Unit (Baseline × List KcpError) × Session). r.0) (q1 ∙ q2)) ∙ h in
      let none_left : seen.1 ++ found.1 ≡ [] = ap errs_of all in
      let (here, later) = append-nil_left seen.1 found.1 none_left in
      (
        matched_one b seen.0 n.name (machine_for n s) s (e1 ∙ ap (λ errs. ok (seen.0, errs)) here),
        λ next e.
            let same : seen.0 ≡ next = ap (base_of seen.0) (sym e1 ∙ e) in
            subst (λ x. AreMatched x ns one.1) same
              (inspect_etcd-AreMatched ns seen.0 found.0 one.1
                (e2 ∙ ap (λ errs. ok (found.0, errs)) later)),
      )
