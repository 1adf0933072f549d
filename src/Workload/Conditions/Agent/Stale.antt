-- ===== src/Workload/Conditions/Agent/Stale.antt =====
-- What UpdateAgentConditions leaves of the agent's condition when a node is not ready.
use cluster_api_k3s.Prelude.{
  Bool, false, List, [], ◌∷◌, any, if◌then◌else◌, ◌≡◌, refl, ap, ◌∙◌, arith, Bool-cases, inl, inr,
}
use cluster_api_k3s.Prelude.Exec.{Outcome, ok}
use cluster_api_k3s.Api.{Condition, Machine, Node, Capi, Client, Session, get_node, query}
use cluster_api_k3s.Workload.Conditions.{Body}
use cluster_api_k3s.Workload.Conditions.Agent.{
  is_ready, node_has_unreachable_taint, ready, inspected, inspect,
}

third :
    {A : Type 0} (b c : Bool) (x y z : A)
    → b ≡ false
    → c ≡ false
    → (if b then x else if c then y else z) ≡ z
third b c x y z hb hc = rw (hb, hc) refl

module _ (capi : Capi) (client : Client) where
  ready-none :
      (m : Machine) (cs : List Condition) (s : Session)
      → any is_ready cs ≡ false
      → ready capi client m cs s ≡ (ok tt, s)
  unfolding ready
  ready-none m [] s h = refl
  ready-none m (c ∷ cs) s h = elim (Bool-cases (is_ready c)) [
    | inl e ↦ ground arith
    | inr e ↦ rw e (ready-none m cs s (rw e at h))
  ]

  -- A machine that is not being deleted, whose node can be reached and read and is not Ready: the
  -- inspection leaves all the conditions as they were, also an AgentHealthy that is True.
  pub inspect-stale :
      (m : Machine) (n target : Node) (s : Session)
      → m.deleting ≡ false
      → node_has_unreachable_taint n ≡ false
      → client.get_node s.trace n.name ≡ ok target
      → any is_ready target.conditions ≡ false
      → (inspect capi client m n s).1.plane ≡ s.plane
  unfolding inspect inspected query
  inspect-stale m n target s alive reachable answer not_ready =
      ap (λ (body : Body Unit). ((body s).1).plane) (third _ _ _ _ _ alive reachable)
      ∙ ap
          (λ o.
            ((inspected capi client m o (record s { trace = get_node n.name ∷ s.trace })).1).plane)
          answer
      ∙ ap (λ (r : Outcome Unit Unit × Session). (r.1).plane)
          (ready-none m target.conditions (record s { trace = get_node n.name ∷ s.trace })
            not_ready)
