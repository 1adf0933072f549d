-- ===== src/Reconciliation/Resizing.antt =====
-- The choice of a reconciliation between a rollout and a change of size: what it deletes is surplus.
use cluster_api_k3s.Prelude.{
  ℕ, String, Bool, true, false, Option, none, some, List, [], ◌∷◌, ltb, ltb→lt, is_some, eqb,
  length, if◌then◌else◌, ◌&&◌, ◌≡◌, ◌≢◌, inl, inr, refl, ap, ◌∙◌, arith, Bool-cases,
}
use cluster_api_k3s.Prelude.Exec.{pure, modify, gets, continue, ◌>>=◌, ◌>>◌}
use cluster_api_k3s.Prelude.Exec.Keeps.{Keeps, keeps_rules}
use cluster_api_k3s.Api.{Machine, Status, condition_true, condition_false, Capi, Client, Session}
use cluster_api_k3s.Controllers.{zero_result, Handler, CtrlResult}
use cluster_api_k3s.Controllers.Deletions.{deleted}
use cluster_api_k3s.Workload.Conditions.{mark_kcp}
use cluster_api_k3s.Scale.Up.{initialize_control_plane, scale_up_control_plane}
use cluster_api_k3s.Scale.Down.{scale_down_control_plane}
use cluster_api_k3s.Scale.Quiet.{initialize_control_plane-Keeps, scale_up_control_plane-Keeps}
use cluster_api_k3s.Reconciliation.{
  available_condition, machines_spec_up_to_date_condition, dereferenced, desired_replicas,
  upgrade_control_plane, scale, mark_up_to_date, roll_out_or_scale,
}
use cluster_api_k3s.Reconciliation.Surplus.{
  RemovesSurplus, scale_down-RemovesSurplus, by_equation, desired_replicas-eq, upgrade_changed,
}

module _ {A : Type 0} where
  third_branch :
      (a b c : Bool) (w x y z : A)
      → a ≡ false
      → b ≡ false
      → c ≡ true
      → (if a then w else if b then x else if c then y else z) ≡ y
  third_branch a b c w x y z ha hb hc = rw (ha, hb, hc) refl

none_counted : (ms : List Machine) → ltb 0 (length ms) ≡ false → ms ≡ []
none_counted [] h = refl
none_counted (m ∷ ms) h = ground arith

module _ (capi : Capi) (client : Client) where
  starts : Handler CtrlResult
  unfolding mark_kcp
  starts = do
    modify (mark_kcp capi available_condition condition_false "WaitingForKthreesServer")
    initialize_control_plane capi client

  deleted-mark_kcp :
      (type : String) (status : Status) (reason : String) (s : Session)
      → deleted (mark_kcp capi type status reason s) ≡ deleted s
  unfolding mark_kcp
  deleted-mark_kcp type status reason s = refl

  grows-Keeps :
      (a b : Bool)
      → Keeps deleted
          (if a then starts else if b then scale_up_control_plane capi client else pure zero_result)
  unfolding starts
  grows-Keeps a b =
      search
        (
          keeps_rules, deleted-mark_kcp, initialize_control_plane-Keeps,
          scale_up_control_plane-Keeps,
        )
        depth 8

  enough-Keeps :
      (a b c : Bool)
      → c ≡ false
      → Keeps deleted (
          if a
          then starts
          else if b
          then scale_up_control_plane capi client
          else if c
          then scale_down_control_plane capi client []
          else pure zero_result)
  enough-Keeps a b c hc = rw hc (grows-Keeps a b)

  scale_changed :
      (desired : ℕ) (s : Session)
      → s.plane.kcp.replicas ≡ some desired
      → deleted (scale capi client (length s.plane.machines) desired s).1 ≢ deleted s
      → RemovesSurplus capi [] s (scale capi client (length s.plane.machines) desired s).1
  unfolding scale starts
  scale_changed desired s wanted = elim (Bool-cases (ltb desired (length s.plane.machines))) [
    | inl more ↦
        let number = length s.plane.machines in
        let over : ltb number desired ≡ false = ground arith in
        by_equation capi client _ _
          (ap (λ (h : Handler CtrlResult). h s)
            (third_branch (ltb number desired && eqb number 0) (ltb number desired && ltb 0 number)
              (ltb desired number) _ _ _ _ (rw over refl) (rw over refl) more))
          (scale_down-RemovesSurplus capi client [] desired s wanted (ltb→lt _ _ more))
    | inr enough ↦ λ changed. absurd (
        changed (
          (enough-Keeps (ltb (length s.plane.machines) desired && eqb (length s.plane.machines) 0)
              (ltb (length s.plane.machines) desired && ltb 0 (length s.plane.machines))
              (ltb desired (length s.plane.machines)) enough).at
            s))
  ]

  -- A mark on the control plane changes nothing of what a surplus is.
  unmarked :
      (need : List Machine) (type : String) (status : Status) (reason : String) (s t : Session)
      → RemovesSurplus capi need (mark_kcp capi type status reason s) t
      → RemovesSurplus capi need s t
  unfolding mark_kcp
  unmarked need type status reason s t (m, grown, x) = (
    m,
    grown,
    record {
      desired = x.desired;
      wanted = x.wanted;
      more = x.more;
      marks = x.marks;
      selected = x.selected;
      stable = x.stable;
    },
  )

  unmarked_up_to_date :
      (s t : Session)
      → RemovesSurplus capi [] (mark_up_to_date capi client s) t
      → RemovesSurplus capi [] s t
  unfolding mark_up_to_date
  unmarked_up_to_date s t =
      elim (Bool-cases (
        is_some
          (capi.get_condition_v1beta1 s.plane.kcp.conditions machines_spec_up_to_date_condition))) [
            | inl there ↦
                rw there (unmarked [] machines_spec_up_to_date_condition condition_true "" s t)
            | inr absent ↦ rw absent (λ r. r)
          ]

  deleted-mark_up_to_date : (s : Session) → deleted (mark_up_to_date capi client s) ≡ deleted s
  unfolding mark_up_to_date
  deleted-mark_up_to_date s =
      elim (Bool-cases (
        is_some
          (capi.get_condition_v1beta1 s.plane.kcp.conditions machines_spec_up_to_date_condition))) [
            | inl there ↦
                rw there (deleted-mark_kcp machines_spec_up_to_date_condition condition_true "" s)
            | inr absent ↦ rw absent refl
          ]

  scale_to : Handler CtrlResult
  scale_to = do
    desired ← desired_replicas capi client
    machines ← gets (λ s. s.plane.machines)
    scale capi client (length machines) desired

  scale_to_changed :
      (s : Session) (o : Option ℕ)
      → s.plane.kcp.replicas ≡ o
      → deleted (scale_to s).1 ≢ deleted s
      → RemovesSurplus capi [] s (scale_to s).1
  unfolding scale_to dereferenced
  scale_to_changed s none e =
      by_equation capi client _ _
        (ap (λ r. continue r (λ n s. scale capi client (length s.plane.machines) n s))
          (desired_replicas-eq capi client s none e))
        (λ changed. absurd (changed refl))
  scale_to_changed s (some n) e =
      by_equation capi client _ _
        (ap (λ r. continue r (λ n s. scale capi client (length s.plane.machines) n s))
          (desired_replicas-eq capi client s (some n) e))
        (scale_changed n s e)

  pub roll_out_changed :
      (need : List Machine) (s : Session)
      → deleted (roll_out_or_scale capi client need s).1 ≢ deleted s
      → RemovesSurplus capi need s (roll_out_or_scale capi client need s).1
  unfolding roll_out_or_scale scale_to
  roll_out_changed need s = elim (Bool-cases (ltb 0 (length need))) [
    | inl needed ↦ λ changed.
        let marked =
          mark_kcp capi machines_spec_up_to_date_condition condition_false "RollingUpdateInProgress"
            s in
        rw needed (
          unmarked need machines_spec_up_to_date_condition condition_false "RollingUpdateInProgress"
            s (upgrade_control_plane capi client need marked).1
            (upgrade_changed capi client need marked _ refl (λ e. changed (rw needed e))))
    | inr unneeded ↦ λ changed.
        rw (unneeded, none_counted need unneeded)
          (unmarked_up_to_date s (scale_to (mark_up_to_date capi client s)).1 (
            scale_to_changed (mark_up_to_date capi client s) _ refl
              (λ e. changed (rw unneeded (e ∙ deleted-mark_up_to_date s)))))
  ]
