-- ===== src/Reconciliation/Syncing.antt =====
-- syncMachines: what may change in place is sent to the machines and to the objects that they
-- refer to.
use cluster_api_k3s.Prelude.{String, Option, none, some, List, [], ◌∷◌, lookup, if◌then◌else◌}
use cluster_api_k3s.Prelude.Exec.{Exec, pure, gets, modify, ◌>>=◌, ◌>>◌}
use cluster_api_k3s.Api.{
  Error, Ref, Machine, KThreesConfigSpec, Capi, Client, Session, new_patch_helper,
  clean_up_managed_fields, drop_managed_fields, get_api_version, perform,
}
use cluster_api_k3s.Controllers.{store}
use cluster_api_k3s.Scale.Machines.{update_machine, update_external_object}

-- A reference that is not set is one with empty fields.
unfoldable pub ref_value : Option Ref → Ref
ref_value none = record { api_group = ""; kind = ""; name = "" }
ref_value (some ref) = ref

module _ (capi : Capi) (client : Client) where
  unfoldable pub sync_external : Ref → Exec Session Error Unit
  unfolding perform
  sync_external ref = do
    perform (drop_managed_fields ref) (λ t. client.drop_managed_fields t ref)
    update_external_object capi client ref

  -- The infrastructure machine, if it was found.
  unfoldable pub sync_infrastructure :
      Machine → Option (Option String × Option String) → Exec Session Error Unit
  unfolding sync_external ref_value
  sync_infrastructure m none = pure tt
  sync_infrastructure m (some found) = sync_external (ref_value m.infrastructure_ref)

  -- The KThreesConfig, if it was found. The answer to the call for the version is an error also where
  -- the version cannot be parsed.
  unfoldable pub sync_config : Machine → Option KThreesConfigSpec → Exec Session Error Unit
  unfolding sync_external perform ref_value
  sync_config m none = pure tt
  sync_config m (some found) =
      let ref = ref_value m.config_ref in
      do perform (get_api_version ref) (λ t. client.get_api_version t ref); sync_external ref

  unfoldable pub sync_machine : Machine → Exec Session Error Unit
  unfolding perform store sync_infrastructure sync_config lookup
  sync_machine m = do
    perform (clean_up_managed_fields m.name) (λ t. client.clean_up_managed_fields t m)
    updated ← update_machine capi client m
    modify (store updated)
    perform (new_patch_helper updated.name) (λ t. client.new_patch_helper t updated)
    plane ← gets (λ s. s.plane)
    sync_infrastructure m (lookup m.name plane.infra_resources)
    sync_config m (lookup m.name plane.kthrees_configs)

  unfoldable pub sync_each : List Machine → Exec Session Error Unit
  unfolding sync_machine
  sync_each [] = pure tt
  sync_each (m ∷ ms) = do if m.deleting then pure tt else sync_machine m; sync_each ms

  unfoldable pub sync_machines : Exec Session Error Unit
  unfolding sync_each
  sync_machines = do machines ← gets (λ s. s.plane.machines); sync_each machines
