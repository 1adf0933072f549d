-- ===== src/Reconciliation/Status/Balance.antt =====
-- The numbers of a status agree with each other, however updateStatus ends.
use cluster_api_k3s.Prelude.{ℕ, Bool, true, false, List, length, ltb, ◌≡◌, ◌≢◌, refl, if◌then◌else◌}
use native.Mathlib.Omega.{arith}
use cluster_api_k3s.Prelude.Int.{ℤ, pos, ◌+ℤ◌, sub_ℕ}
use cluster_api_k3s.Prelude.Exec.{Exec, Outcome, ok, err, pure, ◌>>=◌, ◌>>◌}
use cluster_api_k3s.Prelude.Exec.Keeps.{Keeps, keeps_rules}
use cluster_api_k3s.Prelude.Exec.Post.{
  Holds, Ensures, Holds-continue, Holds-weaken, Ensures-bind, Keeps-any,
}
use cluster_api_k3s.Api.{Error, Machine, Capi, Client, Session}
use cluster_api_k3s.Workload.Conditions.Cluster.{ClusterStatus}
use cluster_api_k3s.Reconciliation.Status.{
  StatusError, StatusLibrary, Reported, with_status, reporting, unreachable, with_nodes,
  update_counts, update_nodes, update_last_remediation, update_live, update_status,
}

-- The numbers that updateStatus has to keep in step.
pub record Numbers : Type 0 where
  pub replicas : ℕ
  pub ready_replicas : ℕ
  pub unavailable_replicas : ℤ
  pub ready : Bool

abbrev pub numbers : Reported → Numbers
numbers w = record {
  replicas = w.status.replicas;
  ready_replicas = w.status.ready_replicas;
  unavailable_replicas = w.status.unavailable_replicas;
  ready = w.status.ready;
}

-- The replicas are the ready and the unavailable ones, and with a ready replica the status is ready.
abbrev pub IsBalanced : Numbers → Type 0
IsBalanced n =
    (pos n.replicas ≡ pos n.ready_replicas +ℤ n.unavailable_replicas)
    × (n.ready_replicas ≢ 0 → n.ready ≡ true)

abbrev HasReplicas : ℕ → Numbers → Type 0
HasReplicas k n = IsBalanced n × (n.replicas ≡ k)

abbrev Balanced : {E : Type 0} → E → Reported → Type 0
Balanced e w = IsBalanced (numbers w)

none_ready : (n : ℕ) → pos n ≡ pos 0 +ℤ pos n
unfolding ◌+ℤ◌
none_ready n = ground arith

some_ready : (n r : ℕ) → pos n ≡ pos r +ℤ sub_ℕ n r
unfolding ◌+ℤ◌
some_ready n r = ground arith

ready_if : (r : ℕ) (b : Bool) → r ≢ 0 → (if ltb 0 r then true else b) ≡ true
ready_if r b h = ground arith

Holds-any :
    {E A : Type 0} (r : Outcome E A × Reported) (F : Reported → Type 0)
    → Holds (λ a. F) (λ e. F) r
    → F r.1
Holds-any (ok a, w) F h = h
Holds-any (err e, w) F h = h

carry_bind :
    {A B : Type 0} (F : Numbers → Type 0) (m : Exec Reported StatusError A)
    (f : A → Exec Reported StatusError B) (R : B → Reported → Type 0)
    → Keeps numbers m
    → ((n : Numbers) → F n → IsBalanced n)
    → ((a : A) → Ensures (λ w. F (numbers w)) (f a) R Balanced)
    → Ensures (λ w. F (numbers w)) (m >>= f) R Balanced
carry_bind F m f R k weak ef = record {
  at = λ w p.
      Holds-continue (m w) f (λ a t. F (numbers t)) R Balanced
        (Holds-weaken (m w) (λ a t. F (numbers t)) (λ a t. F (numbers t)) (λ e t. F (numbers t))
          Balanced ((Keeps-any numbers F m k).at w p) (λ a t q. q) (λ e t x. weak (numbers t) x))
        (λ a t q. (ef a).at t q);
}

carry_balance :
    {A B : Type 0} (m : Exec Reported StatusError A) (f : A → Exec Reported StatusError B)
    (R : B → Reported → Type 0)
    → Keeps numbers m
    → ((a : A) → Ensures (λ w. IsBalanced (numbers w)) (f a) R Balanced)
    → Ensures (λ w. IsBalanced (numbers w)) (m >>= f) R Balanced
carry_balance m f R k ef = carry_bind IsBalanced m f R k (λ n b. b) ef

carry_replicas :
    {A B : Type 0} (k : ℕ) (m : Exec Reported StatusError A) (f : A → Exec Reported StatusError B)
    (R : B → Reported → Type 0)
    → Keeps numbers m
    → ((a : A) → Ensures (λ w. HasReplicas k (numbers w)) (f a) R Balanced)
    → Ensures (λ w. HasReplicas k (numbers w)) (m >>= f) R Balanced
carry_replicas k m f R km ef = carry_bind (HasReplicas k) m f R km (λ n h. h.0) ef

carried_to_end :
    {A : Type 0} (m : Exec Reported StatusError A)
    → Keeps numbers m
    → Ensures (λ w. IsBalanced (numbers w)) m (λ a w. IsBalanced (numbers w)) Balanced
carried_to_end m k = Keeps-any numbers IsBalanced m k

-- After an action that makes the numbers anew, either way.
step_bind :
    {A B : Type 0} (P : Numbers → Type 0) (Q : A → Numbers → Type 0)
    (m : Exec Reported StatusError A) (f : A → Exec Reported StatusError B)
    (R : B → Reported → Type 0)
    → Ensures (λ w. P (numbers w)) m (λ a w. Q a (numbers w)) Balanced
    → ((a : A) → Ensures (λ w. Q a (numbers w)) (f a) R Balanced)
    → Ensures (λ w. P (numbers w)) (m >>= f) R Balanced
step_bind P Q m f R em ef = Ensures-bind m f (λ a w. Q a (numbers w)) R em ef

module _ (capi : Capi) (lib : StatusLibrary) (client : Client) where
  reporting-Keeps :
      {A : Type 0} (kind : Error → StatusError) (m : Exec Session Error A)
      → Keeps numbers (reporting kind m)
  reporting-Keeps kind m = search keeps_rules

  unreachable-HasReplicas :
      (desired : ℕ) (owned : List Machine)
      → Ensures
          (λ w. IsBalanced (numbers w))
          (do with_status (unreachable (length owned)); pure (desired, owned))
          (λ (d, o) w. HasReplicas (length o) (numbers w))
          Balanced
  unreachable-HasReplicas desired owned = record {
    at = λ w p. ((none_ready (length owned), λ h. absurd (h refl)), refl);
  }

  nodes-Balanced :
      (owned : List Machine) (c : ClusterStatus)
      → Ensures
          (λ w. HasReplicas (length owned) (numbers w))
          (with_status (with_nodes (length owned) c))
          (λ t w. IsBalanced (numbers w))
          Balanced
  nodes-Balanced owned c = record {
    at = λ w (b, same).
        (rw same (some_ready (length owned) c.ready_nodes), ready_if c.ready_nodes w.status.ready);
  }

  ruleset balance_rules = (
    keeps_rules, reporting-Keeps, carry_balance, carry_replicas, carried_to_end,
    unreachable-HasReplicas,
  )

  update_counts-Balanced :
      Ensures
        (λ w. IsBalanced (numbers w))
        (update_counts capi lib client)
        (λ (d, owned) w. HasReplicas (length owned) (numbers w))
        Balanced
  unfolding update_counts
  update_counts-Balanced = search balance_rules depth 10

  nodes_bind :
      (owned : List Machine) (c : ClusterStatus) (f : Unit → Exec Reported StatusError Unit)
      → ((t : Unit) → Keeps numbers (f t))
      → Ensures
          (λ w. HasReplicas (length owned) (numbers w))
          (with_status (with_nodes (length owned) c) >>= f)
          (λ t w. IsBalanced (numbers w))
          Balanced
  nodes_bind owned c f k =
      step_bind (HasReplicas (length owned)) (λ t. IsBalanced)
        (with_status (with_nodes (length owned) c)) f (λ t w. IsBalanced (numbers w))
        (nodes-Balanced owned c) (λ t. carried_to_end (f t) (k t))

  update_nodes-Balanced :
      (owned : List Machine)
      → Ensures
          (λ w. HasReplicas (length owned) (numbers w))
          (update_nodes capi lib client owned)
          (λ t w. IsBalanced (numbers w))
          Balanced
  unfolding update_nodes
  update_nodes-Balanced owned = search (balance_rules, nodes_bind) depth 10

  update_last_remediation-Keeps : Keeps numbers (update_last_remediation capi lib client)
  unfolding update_last_remediation
  update_last_remediation-Keeps = search (keeps_rules, reporting-Keeps) depth 6

  nodes_then_remediation :
      (owned : List Machine)
      → Ensures
          (λ w. HasReplicas (length owned) (numbers w))
          (update_nodes capi lib client owned >>= λ t. update_last_remediation capi lib client)
          (λ t w. IsBalanced (numbers w))
          Balanced
  nodes_then_remediation owned =
      step_bind (HasReplicas (length owned)) (λ t. IsBalanced) (update_nodes capi lib client owned)
        (λ t. update_last_remediation capi lib client) (λ t w. IsBalanced (numbers w))
        (update_nodes-Balanced owned)
        (λ t.
          carried_to_end (update_last_remediation capi lib client) update_last_remediation-Keeps)

  update_live-Balanced :
      (desired : ℕ) (owned : List Machine)
      → Ensures
          (λ w. HasReplicas (length owned) (numbers w))
          (update_live capi lib client desired owned)
          (λ t w. IsBalanced (numbers w))
          Balanced
  unfolding update_live
  update_live-Balanced desired owned = search (balance_rules, nodes_then_remediation) depth 6

  unless_deleting :
      (desired : ℕ) (owned : List Machine) (deleting : Bool)
      → Ensures
          (λ w. HasReplicas (length owned) (numbers w))
          (if deleting then pure tt else update_live capi lib client desired owned)
          (λ t w. IsBalanced (numbers w))
          Balanced
  unless_deleting desired owned true = record { at = λ w p. p.0 }
  unless_deleting desired owned false = update_live-Balanced desired owned

  counts_before :
      (f : ℕ × List Machine → Exec Reported StatusError Unit)
      → ((x : ℕ × List Machine)
          → Ensures
              (λ w. HasReplicas (length x.1) (numbers w))
              (f x)
              (λ t w. IsBalanced (numbers w))
              Balanced)
      → Ensures
          (λ w. IsBalanced (numbers w))
          (update_counts capi lib client >>= f)
          (λ t w. IsBalanced (numbers w))
          Balanced
  counts_before f h =
      step_bind IsBalanced (λ x. HasReplicas (length x.1)) (update_counts capi lib client) f
        (λ t w. IsBalanced (numbers w)) update_counts-Balanced h

  update_status-Ensures :
      Ensures
        (λ w. IsBalanced (numbers w))
        (update_status capi lib client)
        (λ t w. IsBalanced (numbers w))
        Balanced
  unfolding update_status
  update_status-Ensures = search (balance_rules, counts_before, unless_deleting) depth 10

  -- updateStatus, from a status in which the replicas are the ready and the unavailable ones together
  -- and which is ready where a replica is, leaves such a status, and does so too when it stops with an
  -- error.
  pub update_status-IsBalanced :
      (w : Reported)
      → IsBalanced (numbers w)
      → IsBalanced (numbers (update_status capi lib client w).1)
  update_status-IsBalanced w b =
      Holds-any (update_status capi lib client w) (λ v. IsBalanced (numbers v))
        (update_status-Ensures.at w b)
