-- ===== src/Reconciliation/Entry/Owned.antt =====
-- What the assembly of a control plane has found where it comes to its end.
use cluster_api_k3s.Prelude.{
  true, false, some, List, eqb, ltb, length, Mem, Bool-cases, inl, inr, ◌≡◌, refl, sym, ap, ◌∙◌,
  arith, all_kept, none_kept,
}
use cluster_api_k3s.Prelude.Exec.{Outcome, ok, err, stop, continue, handled, ◌>>=◌, ◌>>◌}
use cluster_api_k3s.Prelude.Exec.Keeps.{split_at}
use cluster_api_k3s.Api.{
  Error, Machine, Capi, CapiLaws, Client, ManagementClient, list_control_plane_machines, query,
}
use cluster_api_k3s.Controllers.{Return, zero_result}
use cluster_api_k3s.Reconciliation.Entry.{
  EntryLibrary, Whole, WholeHandler, on_session, or_error, reconcile_external_reference,
  reconcile_secrets, owned_machines, take_up, assemble,
}

returned_ok :
    {A : Type 0} (r : Outcome Error A × Whole) (h : Error → WholeHandler A) (a : A)
    → ((e : Error) (w : Whole) → (x : Return) × ((h e w).0 ≡ err x))
    → (handled r h).0 ≡ ok a
    → (r.0 ≡ ok a) × ((handled r h).1 ≡ r.1)
returned_ok (ok b, w) h a stops e = let same : b ≡ a = cc in (ap ok same, refl)
returned_ok (err x, w) h a stops e = let (y, never) = stops x w in cc

module _ (capi : Capi) (lib : EntryLibrary) (client : Client) (management : ManagementClient) where
  -- The machines of the control plane were listed in a state, none of them could be adopted, all
  -- were the control plane's, and these are the machines that were taken up.
  pub record HasTakenUp (w : Whole) : Type 0 where
    pub before : Whole
    pub listed : List Machine
    pub answer : client.control_plane_machines before.session.trace ≡ ok listed
    pub none_adoptable :
        (m : Machine) → Mem m listed → lib.is_adoptable before.session.plane.cluster m ≡ false
    pub all_owned : (m : Machine) → Mem m listed → capi.is_owned before.session.plane.kcp m ≡ true
    pub taken_up :
        assemble capi lib client management w
        ≡ take_up capi lib client management
            (capi.filter (capi.is_owned before.session.plane.kcp) listed)
            (on_session (query list_control_plane_machines client.control_plane_machines) before).1

  -- owned_machines lets the control plane through as it is.
  owned_machines-ok :
      (ms owned : List Machine) (w : Whole)
      → (owned_machines capi lib client management ms w).0 ≡ ok owned
      → (ltb 0 (length (capi.filter (lib.is_adoptable w.session.plane.cluster) ms)) ≡ false)
        × (eqb (length (capi.filter (capi.is_owned w.session.plane.kcp) ms)) (length ms) ≡ true)
        × (owned_machines capi lib client management ms w
            ≡ (ok (capi.filter (capi.is_owned w.session.plane.kcp) ms), w))
  unfolding owned_machines
  owned_machines-ok ms owned w h =
      elim (Bool-cases
        (ltb 0 (length (capi.filter (lib.is_adoptable w.session.plane.cluster) ms)))) [
          | inl adoptable ↦ let never = rw adoptable at h in cc
          | inr none_left ↦
              elim (Bool-cases
                (eqb (length (capi.filter (capi.is_owned w.session.plane.kcp) ms)) (length ms))) [
                  | inl all ↦ (none_left, all, rw (none_left, all) refl)
                  | inr foreign ↦ let never = rw (none_left, foreign) at h in cc
                ]
        ]

module _ (capi : Capi) (laws : CapiLaws capi) (lib : EntryLibrary) (client : Client)
    (management : ManagementClient) where
  abbrev listing : WholeHandler (List Machine)
  listing = or_error (on_session (query list_control_plane_machines client.control_plane_machines))

  abbrev after_listing : List Machine → WholeHandler Unit
  after_listing ms =
      owned_machines capi lib client management ms >>= take_up capi lib client management

  abbrev after_secrets : WholeHandler Unit
  after_secrets = listing >>= after_listing

  abbrev asked : Whole → Whole
  asked w = (on_session (query list_control_plane_machines client.control_plane_machines) w).1

  -- From the list of the machines on.
  listed_lem :
      (ms : List Machine) (w : Whole)
      → client.control_plane_machines w.session.trace ≡ ok ms
      → (after_listing ms (asked w)).0 ≡ ok tt
      → (assembled : Outcome Return Unit × Whole) → assembled ≡ after_listing ms (asked w)
      → ((m : Machine) → Mem m ms → lib.is_adoptable w.session.plane.cluster m ≡ false)
        × ((m : Machine) → Mem m ms → capi.is_owned w.session.plane.kcp m ≡ true)
        × (assembled
            ≡ take_up capi lib client management
                (capi.filter (capi.is_owned w.session.plane.kcp) ms)
                (asked w))
  unfolding query
  listed_lem ms w answer done assembled same =
      let (owned, e, _) =
        split_at (owned_machines capi lib client management ms (asked w))
          (take_up capi lib client management) tt done in
      let (none_left, all, let_through) =
        owned_machines-ok capi lib client management ms owned (asked w) e in
      (
        none_kept (lib.is_adoptable w.session.plane.cluster) ms
            (sym (laws.length_filter (lib.is_adoptable w.session.plane.cluster) ms) ∙ ground arith),
        all_kept (capi.is_owned w.session.plane.kcp) ms
            (sym (laws.length_filter (capi.is_owned w.session.plane.kcp) ms) ∙ ground arith),
        same ∙ ap (λ r. continue r (take_up capi lib client management)) let_through,
      )

  pub assemble-HasTakenUp :
      (w : Whole)
      → (assemble capi lib client management w).0 ≡ ok tt
      → HasTakenUp capi lib client management w
  unfolding assemble query
  assemble-HasTakenUp w done =
      let ref = w.session.plane.kcp.machine_template.infrastructure_ref in
      let start =
        or_error (on_session (reconcile_external_reference capi lib client management ref)) w in
      let (_, e1, q1) =
        split_at start (λ _. reconcile_secrets capi lib client management >> after_secrets) tt
          done in
      let (_, e2, q2) =
        split_at (reconcile_secrets capi lib client management start.1) (λ _. after_secrets) tt
          (sym (ap (λ (r : Outcome Return Unit × Whole). r.0) q1) ∙ done) in
      let before = (reconcile_secrets capi lib client management start.1).1 in
      let upto = q1 ∙ q2 in
      let (ms, e3, q3) =
        split_at (listing before) after_listing tt
          (sym (ap (λ (r : Outcome Return Unit × Whole). r.0) upto) ∙ done) in
      let (answer, state) =
        returned_ok
          (on_session (query list_control_plane_machines client.control_plane_machines) before)
          (λ e. stop (zero_result, some e)) ms (λ e w. (_, refl)) e3 in
      let same = upto ∙ q3 ∙ ap (after_listing ms) state in
      let (free, mine, whole) =
        listed_lem ms before answer
          (sym (ap (λ (r : Outcome Return Unit × Whole). r.0) same) ∙ done)
          (assemble capi lib client management w) same in
      record {
        before = before;
        listed = ms;
        answer = answer;
        none_adoptable = free;
        all_owned = mine;
        taken_up = whole;
      }
