-- ===== src/Scale/Machines/Desired.antt =====
-- What the desired machine keeps of an existing one, and what it takes from the control plane.
use cluster_api_k3s.Prelude.{
  ℕ, String, Option, none, some, [], ◌∷◌, Dict, lookup, put, or_else, lookup-put_all, ◌≡◌, refl,
  sym, ap, ◌∙◌, eq_refl, arith,
}
use cluster_api_k3s.Prelude.Exec.{Exec, Outcome, ok, err}
use cluster_api_k3s.Api.{
  Error, Machine, Cluster, KThreesControlPlane, Capi, remediation_in_progress_annotation,
  remediation_for_annotation, server_configuration_annotation,
}
use cluster_api_k3s.Workload.{annotation}
use cluster_api_k3s.Scale.Machines.{
  controller_ref, put_some, new_with, identity, desired, compute_desired_machine,
}

lookup-put_some :
    (k : String) (v : Option String) (d : Dict String)
    → lookup k (put_some k v d) ≡ or_else v (lookup k d)
unfolding lookup put
lookup-put_some k none d = refl
lookup-put_some k (some v) d = rw (eq_refl k) refl

or_else-none : (v : Option String) → or_else v none ≡ v
or_else-none none = refl
or_else-none (some v) = refl

abbrev annotations_of : Outcome Error Machine → Option (Dict String)
annotations_of (ok m) = m.annotations
annotations_of (err e) = none

-- What an update keeps of the existing machine: the name, the UID, the version, the references, the
-- place, and the data of the remediation that it stands for, unless the template sets that itself.
pub record IsUpdateOf (kcp : KThreesControlPlane) (e m : Machine) : Type 0 where
  pub same_name : m.name ≡ e.name
  pub same_uid : m.uid ≡ e.uid
  pub same_version : m.version ≡ e.version
  pub same_infrastructure : m.infrastructure_ref ≡ e.infrastructure_ref
  pub same_config : m.config_ref ≡ e.config_ref
  pub same_place : m.failure_domain ≡ e.failure_domain
  pub controlled : m.owners ≡ controller_ref kcp ∷ []
  pub tracked :
      annotation remediation_for_annotation m.annotations
      ≡ or_else
          (lookup remediation_for_annotation kcp.machine_template.annotations)
          (annotation remediation_for_annotation e.annotations)

module _ (capi : Capi) where
  new_annotation :
      (seed : ℕ) (kcp : KThreesControlPlane) (cluster : Cluster) (failure_domain : String)
      (m : Machine) (o : Option String)
      → capi.marshal_server_config kcp.kthrees_config_spec.server_config ≡ o
      → compute_desired_machine capi seed kcp cluster failure_domain none ≡ ok m
      → annotation remediation_for_annotation m.annotations
        ≡ or_else
            (lookup remediation_for_annotation kcp.machine_template.annotations)
            (lookup remediation_in_progress_annotation kcp.annotations)
  unfolding compute_desired_machine identity new_with desired
  new_annotation seed kcp cluster failure_domain m none e h = ground (arith, e)
  new_annotation seed kcp cluster failure_domain m (some config) e h =
      let same = ap (λ o. annotation remediation_for_annotation (annotations_of o)) h in
      let value = lookup remediation_in_progress_annotation kcp.annotations in
      let template = kcp.machine_template.annotations in
      let base = put server_configuration_annotation config [] in
      let other : lookup remediation_for_annotation base ≡ none = unfold put lookup in refl in
      sym same
      ∙ rw e (
          lookup-put_all remediation_for_annotation template
            (put_some remediation_for_annotation value base)
          ∙ ap (λ o. or_else (lookup remediation_for_annotation template) o)
              (lookup-put_some remediation_for_annotation value base
                ∙ ap (λ o. or_else value o) other
                ∙ or_else-none value))

  -- A new machine tracks the remediation that is in progress, unless the template of the control
  -- plane sets that annotation itself.
  pub compute_desired_machine-remediation :
      (seed : ℕ) (kcp : KThreesControlPlane) (cluster : Cluster) (failure_domain : String)
      (m : Machine)
      → compute_desired_machine capi seed kcp cluster failure_domain none ≡ ok m
      → annotation remediation_for_annotation m.annotations
        ≡ or_else
            (lookup remediation_for_annotation kcp.machine_template.annotations)
            (lookup remediation_in_progress_annotation kcp.annotations)
  compute_desired_machine-remediation seed kcp cluster failure_domain m h =
      new_annotation seed kcp cluster failure_domain m _ refl h
