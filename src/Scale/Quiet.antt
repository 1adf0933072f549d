-- ===== src/Scale/Quiet.antt =====
-- Adding a machine deletes none.
use cluster_api_k3s.Prelude.{String, List, [], ◌∷◌, ◌≡◌, refl}
use cluster_api_k3s.Prelude.Exec.{Outcome, ok, err}
use cluster_api_k3s.Prelude.Exec.Keeps.{Keeps, keeps_rules}
use cluster_api_k3s.Api.{Error, Machine, Ref, KThreesConfigSpec, Capi, Client, Session}
use cluster_api_k3s.Controllers.Deletions.{deleted}
use cluster_api_k3s.Scale.Machines.{
  generate_kthrees_config, without_annotation, create_machine, delete_reference,
  cleanup_from_generation, after_creation, with_config, clone_configs_and_generate_machine,
}
use cluster_api_k3s.Scale.Up.{add_machine, initialize_control_plane, scale_up_control_plane}

module _ (capi : Capi) (client : Client) where
  delete_reference-Keeps : (ref : Ref) → Keeps deleted (delete_reference capi client ref)
  unfolding delete_reference
  delete_reference-Keeps ref = search keeps_rules

  cleanup_from_generation-Keeps :
      (refs : List Ref) → Keeps deleted (cleanup_from_generation capi client refs)
  unfolding cleanup_from_generation
  cleanup_from_generation-Keeps [] = search keeps_rules
  cleanup_from_generation-Keeps (ref ∷ refs) =
      let rest = cleanup_from_generation-Keeps refs in
      search (keeps_rules, delete_reference-Keeps) depth 8

  generate_kthrees_config-Keeps :
      (spec : KThreesConfigSpec) → Keeps deleted (generate_kthrees_config capi client spec)
  unfolding generate_kthrees_config
  generate_kthrees_config-Keeps spec = search keeps_rules

  deleted-without_annotation :
      (s : Session) → deleted (without_annotation capi client s) ≡ deleted s
  unfolding without_annotation
  deleted-without_annotation s = refl

  create_machine-Keeps : (m : Machine) → Keeps deleted (create_machine capi client m)
  unfolding create_machine
  create_machine-Keeps m = search (keeps_rules, deleted-without_annotation)

  after_creation-Keeps :
      (refs : List Ref) (o : Outcome Error Unit) → Keeps deleted (after_creation capi client refs o)
  unfolding after_creation
  after_creation-Keeps refs (ok _) = search keeps_rules
  after_creation-Keeps refs (err e) = search (keeps_rules, cleanup_from_generation-Keeps)

  with_config-Keeps :
      (m : Machine) (infra : Ref) (o : Outcome Error Ref)
      → Keeps deleted (with_config capi client m infra o)
  unfolding with_config
  with_config-Keeps m infra (err e) = search (keeps_rules, cleanup_from_generation-Keeps)
  with_config-Keeps m infra (ok ref) =
      search (keeps_rules, create_machine-Keeps, after_creation-Keeps)

  clone-Keeps :
      (spec : KThreesConfigSpec) (domain : String)
      → Keeps deleted (clone_configs_and_generate_machine capi client spec domain)
  unfolding clone_configs_and_generate_machine
  clone-Keeps spec domain =
      search (keeps_rules, generate_kthrees_config-Keeps, with_config-Keeps) depth 12

  add_machine-Keeps : Keeps deleted (add_machine capi client)
  unfolding add_machine
  add_machine-Keeps = search (keeps_rules, clone-Keeps) depth 10

  pub initialize_control_plane-Keeps : Keeps deleted (initialize_control_plane capi client)
  unfolding initialize_control_plane
  initialize_control_plane-Keeps = search (keeps_rules, add_machine-Keeps) depth 10

  pub scale_up_control_plane-Keeps : Keeps deleted (scale_up_control_plane capi client)
  unfolding scale_up_control_plane
  scale_up_control_plane-Keeps = search (keeps_rules, add_machine-Keeps) depth 10
