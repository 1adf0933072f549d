-- ===== src/MachineFilters.antt =====
-- pkg/machinefilters/machine_filters.go: does a machine still match the control plane's
-- configuration? A filter is given a machine, never nil.
use cluster_api_k3s.Prelude.{
  String, Bool, true, false, Option, none, some, Dict, lookup, if◌then◌else◌, ◌==◌, ◌&&◌,
}
use cluster_api_k3s.Api.{Capi, Machine, KThreesControlPlane, KThreesConfigSpec, Ref}

-- The filter blanks the version on both sides: it is compared elsewhere. (It blanks it in the shared
-- object of the machine's configuration, which nothing but these filters reads afterwards.)
abbrev without_version : KThreesConfigSpec → KThreesConfigSpec
without_version spec = record spec { version = "" }

unfoldable pub matches_kubernetes_version : String → Machine → Bool
matches_kubernetes_version kubernetes_version machine =
    if machine.version == "" then false else machine.version == kubernetes_version

module _ (capi : Capi) where
  cloned_from : Option (Option String × Option String) → KThreesControlPlane → Bool
  cloned_from none kcp = true
  cloned_from (some (none, kind)) kcp = true
  cloned_from (some (some name, none)) kcp = true
  cloned_from (some (some name, some kind)) kcp =
      let ref = kcp.machine_template.infrastructure_ref in
      name == ref.name && kind == capi.group_kind ref

  unfoldable pub matches_template_cloned_from :
      Dict (Option String × Option String) → KThreesControlPlane → Machine → Bool
  unfolding cloned_from
  matches_template_cloned_from infra_configs kcp machine =
      cloned_from (lookup machine.name infra_configs) kcp

  same_config : Option Ref → Option KThreesConfigSpec → KThreesControlPlane → Bool
  same_config none config kcp = true
  same_config (some ref) none kcp = true
  same_config (some ref) (some spec) kcp =
      capi.deep_equal (without_version spec) (without_version kcp.kthrees_config_spec)

  unfoldable pub matches_kthrees_bootstrap_config :
      Dict KThreesConfigSpec → KThreesControlPlane → Machine → Bool
  unfolding same_config
  matches_kthrees_bootstrap_config machine_configs kcp machine =
      same_config machine.config_ref (lookup machine.name machine_configs) kcp

  unfoldable pub matches_kcp_configuration :
      Dict (Option String × Option String)
      → Dict KThreesConfigSpec
      → KThreesControlPlane
      → Machine
      → Bool
  unfolding matches_kubernetes_version matches_template_cloned_from matches_kthrees_bootstrap_config
  matches_kcp_configuration infra_configs machine_configs kcp machine =
      matches_kubernetes_version kcp.version machine
      && matches_kthrees_bootstrap_config machine_configs kcp machine
      && matches_template_cloned_from infra_configs kcp machine
