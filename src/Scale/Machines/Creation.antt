-- ===== src/Scale/Machines/Creation.antt =====
-- What cloneConfigsAndGenerateMachine has done when it returns.
use cluster_api_k3s.Prelude.{
  String, Option, none, some, List, [], ◌∷◌, lookup, or_else, lookup-remove, ◌⊎◌, inl, inr, ◌≡◌,
  refl, ap, ◌∙◌,
}
use cluster_api_k3s.Prelude.Exec.{Exec, Outcome, ok, err, continue, stop, attempt, ◌>>=◌, ◌>>◌}
use cluster_api_k3s.Prelude.Exec.Keeps.{
  Keeps, Keeps-bind, Keeps-attempt, Keeps-pure, Keeps-stop, continue-Keeps, keeps_rules,
}
use cluster_api_k3s.Api.{
  Error, Machine, Ref, KThreesConfigSpec, Capi, ssa_patch_machine, create_from_template,
  ControlPlane, Client, Session, Trace, perform, query, remediation_in_progress_annotation,
  remediation_for_annotation,
}
use cluster_api_k3s.Workload.{annotation}
use cluster_api_k3s.Scale.Machines.{
  compute_desired_machine, generate_kthrees_config, without_annotation, create_machine,
  delete_reference, also, cleanup_from_generation, after_creation, with_config,
  clone_configs_and_generate_machine, seed_of,
}
use cluster_api_k3s.Scale.Machines.Desired.{compute_desired_machine-remediation}

abbrev pub plane_of : Session → ControlPlane
plane_of s = s.plane

-- A machine was created by the last call, which tracks the remediation that was in progress, unless the
-- template sets that annotation itself, and the control plane is free for the next one.
pub record IsHandedOver (before after : Session) : Type 0 where
  pub machine : Machine
  pub earlier : Trace
  pub created : after.trace ≡ ssa_patch_machine machine ∷ earlier
  pub tracked :
      annotation remediation_for_annotation machine.annotations
      ≡ or_else
          (lookup remediation_for_annotation before.plane.kcp.machine_template.annotations)
          (lookup remediation_in_progress_annotation before.plane.kcp.annotations)
  pub ended : lookup remediation_in_progress_annotation after.plane.kcp.annotations ≡ none

-- Nothing in memory changed, and the caller gets an error.
abbrev pub HasFailed : Outcome Error Unit → Session → Session → Type 0
HasFailed o before after = (e : Error) × (o ≡ err e) × (after.plane ≡ before.plane)

module _ (capi : Capi) (client : Client) where
  delete_reference-Keeps : (ref : Ref) → Keeps plane_of (delete_reference capi client ref)
  unfolding delete_reference
  delete_reference-Keeps ref = search keeps_rules

  cleanup_from_generation-Keeps :
      (refs : List Ref) → Keeps plane_of (cleanup_from_generation capi client refs)
  unfolding cleanup_from_generation
  cleanup_from_generation-Keeps [] = search keeps_rules
  cleanup_from_generation-Keeps (ref ∷ refs) =
      Keeps-bind _ _ (Keeps-attempt _ (delete_reference-Keeps ref)) (λ done.
        Keeps-bind _ _ (cleanup_from_generation-Keeps refs)
          (λ errs. Keeps-pure (also capi client done errs)))

  generate_kthrees_config-Keeps :
      (spec : KThreesConfigSpec) → Keeps plane_of (generate_kthrees_config capi client spec)
  unfolding generate_kthrees_config
  generate_kthrees_config-Keeps spec = search keeps_rules

  stopped :
      {A : Type 0} (r : Outcome Error A × Session) (e : Error)
      → (x : Error) × ((continue r (λ _. stop {A = Unit} e)).0 ≡ err x)
  stopped (ok a, s) e = (e, refl)
  stopped (err x, s) e = (x, refl)

  -- What cleans up and stops has failed.
  cleaned_up :
      (refs : List Ref) (e : Error) (s : Session)
      → let r = (cleanup_from_generation capi client refs >> stop {A = Unit} e) s in
        HasFailed r.0 s r.1
  cleaned_up refs e s =
      let r = cleanup_from_generation capi client refs s in
      let (x, same) = stopped r e in
      (
        x,
        same,
        continue-Keeps {view = plane_of} r (λ _. stop {A = Unit} e) (λ _. Keeps-stop e)
            ∙ (cleanup_from_generation-Keeps refs).at s,
      )

  -- The machine was created by the last call, and the annotation is gone.
  abbrev HasCreated : Machine → Outcome Error Unit × Session → Type 0
  HasCreated m r =
      (earlier : Trace) × (r.0 ≡ ok tt)
      × (r.1.trace ≡ ssa_patch_machine m ∷ earlier)
      × (lookup remediation_in_progress_annotation r.1.plane.kcp.annotations ≡ none)

  create_by :
      (refs : List Ref) (m : Machine) (s : Session) (o : Option Error)
      → client.ssa_patch_machine s.trace m ≡ o
      → let r =
          (attempt {F = Error} (create_machine capi client m) >>= after_creation capi client refs)
            s in
        HasCreated m r ⊎ HasFailed r.0 s r.1
  unfolding create_machine without_annotation after_creation perform
  create_by refs m s none e =
      let free =
        lookup-remove remediation_in_progress_annotation remediation_in_progress_annotation
          s.plane.kcp.annotations in
      inl (s.trace, rw e refl, rw e refl, rw e free)
  create_by refs m s (some x) e =
      inr (rw e (cleaned_up refs x (record s { trace = ssa_patch_machine m ∷ s.trace })))

  with_config_lem :
      (m : Machine) (infra : Ref) (o : Outcome Error Ref) (s : Session)
      → let r = with_config capi client m infra o s in
        ((ref : Ref) × HasCreated (record m { config_ref = some ref }) r) ⊎ HasFailed r.0 s r.1
  unfolding with_config
  with_config_lem m infra (err e) s = inr (cleaned_up (infra ∷ []) e s)
  with_config_lem m infra (ok ref) s =
      elim (create_by (infra ∷ ref ∷ []) (record m { config_ref = some ref }) s _ refl) [
        | inl created ↦ inl (ref, created)
        | inr failed ↦ inr failed
      ]

  -- From the cloned infrastructure object on.
  with_infra : KThreesConfigSpec → Machine → Ref → Exec Session Error Unit
  with_infra spec m infra = do
    config ← attempt (generate_kthrees_config capi client spec)
    with_config capi client (record m { infrastructure_ref = some infra }) infra config

  -- A machine with the annotations of the desired one was created.
  abbrev HasTracked : Machine → Outcome Error Unit × Session → Type 0
  HasTracked m r =
      (created : Machine) × (created.annotations ≡ m.annotations) × HasCreated created r

  with_infra_lem :
      (spec : KThreesConfigSpec) (m : Machine) (infra : Ref) (s : Session)
      → let r = with_infra spec m infra s in HasTracked m r ⊎ HasFailed r.0 s r.1
  unfolding with_infra
  with_infra_lem spec m infra s =
      let g = generate_kthrees_config capi client spec s in
      let same = (generate_kthrees_config-Keeps spec).at s in
      elim (with_config_lem (record m { infrastructure_ref = some infra }) infra g.0 g.1) [
        | inl (ref, created) ↦ inl (_, refl, created)
        | inr (e, failed, kept) ↦ inr (e, failed, kept ∙ same)
      ]

  from_template :
      (spec : KThreesConfigSpec) (m : Machine) (s : Session) (o : Outcome Error Ref)
      → let template = s.plane.kcp.machine_template.infrastructure_ref in
        client.create_from_template s.trace template ≡ o
        → let r =
            (query (create_from_template template) (λ t. client.create_from_template t template)
                >>= with_infra spec m)
              s in
          HasTracked m r ⊎ HasFailed r.0 s r.1
  unfolding query
  from_template spec m s (err x) e = inr (x, rw e refl, rw e refl)
  from_template spec m s (ok infra) e =
      let template = s.plane.kcp.machine_template.infrastructure_ref in
      rw e
        (with_infra_lem spec m infra (record s { trace = create_from_template template ∷ s.trace }))

  computed_by :
      (spec : KThreesConfigSpec) (failure_domain : String) (s : Session) (o : Outcome Error Machine)
      → compute_desired_machine capi (seed_of s) s.plane.kcp s.plane.cluster failure_domain none ≡ o
      → let r = clone_configs_and_generate_machine capi client spec failure_domain s in
        ((r.0 ≡ ok tt) × IsHandedOver s r.1) ⊎ HasFailed r.0 s r.1
  unfolding clone_configs_and_generate_machine with_infra
  computed_by spec failure_domain s (err x) e = inr (x, rw e refl, rw e refl)
  computed_by spec failure_domain s (ok m) e = rw e (elim (from_template spec m s _ refl) [
    | inl (created, same, (earlier, done, last, ended)) ↦ inl (
      done,
      record {
        machine = created;
        earlier = earlier;
        created = last;
        tracked =
            ap (λ d. annotation remediation_for_annotation d) same
            ∙ compute_desired_machine-remediation capi (seed_of s) s.plane.kcp s.plane.cluster
                failure_domain m e;
        ended = ended;
      },
    )
    | inr failed ↦ inr failed
  ])

  -- Creating a machine either returns, and then its last call created a machine whose remediation data
  -- is what the template of the control plane sets under that annotation or, where the template sets
  -- nothing, the remediation in progress, and no remediation is in progress any more; or it returns an
  -- error, with the objects in memory as they were, so that the remediation stays in progress.
  pub clone_configs_and_generate_machine-hand_over :
      (spec : KThreesConfigSpec) (failure_domain : String) (s : Session)
      → let r = clone_configs_and_generate_machine capi client spec failure_domain s in
        ((r.0 ≡ ok tt) × IsHandedOver s r.1) ⊎ HasFailed r.0 s r.1
  clone_configs_and_generate_machine-hand_over spec failure_domain s =
      computed_by spec failure_domain s _ refl
