-- ===== src/ControlPlane/Assembly.antt =====
-- pkg/k3s/control_plane.go: NewControlPlane, which assembles a control plane from the servers.
use cluster_api_k3s.Prelude.{
  String, Bool, true, false, Option, List, [], ◌∷◌, Dict, is_some, if◌then◌else◌,
}
use cluster_api_k3s.Prelude.Exec.{Exec, Outcome, ok, err, pure, stop, modify, attempt, ◌>>=◌, ◌>>◌}
use cluster_api_k3s.Api.{
  Error, not_found, Machine, KThreesConfigSpec, Client, Session, new_patch_helper,
  get_infrastructure, get_config, get_etcd_secret, perform, query,
}

-- An object that is not found is left out of the map.
unfoldable pub unless_absent :
    {A : Type 0} → String → Dict A → Outcome Error A → Outcome Error (Dict A)
unless_absent name rest (ok a) = ok ((name, a) ∷ rest)
unless_absent name rest (err not_found) = ok rest
unless_absent name rest (err e) = err e

-- Whether the secret is there; any other error than not found is returned.
unfoldable pub is_present : Outcome Error Unit → Outcome Error Bool
is_present (ok _) = ok true
is_present (err not_found) = ok false
is_present (err e) = err e

abbrev pub raise : {A : Type 0} → Outcome Error A → Exec Session Error A
raise (ok a) = pure a
raise (err e) = stop e

module _ (client : Client) where
  unfoldable pub get_infra_resources :
      List Machine
      → Dict (Option String × Option String)
      → Exec Session Error (Dict (Option String × Option String))
  unfolding query unless_absent
  get_infra_resources [] found = pure found
  get_infra_resources (m ∷ ms) found = do
    answer ← attempt (query (get_infrastructure m.name) (λ t. client.get_infrastructure t m))
    next ← raise (unless_absent m.name found answer)
    get_infra_resources ms next

  unfoldable pub get_kthrees_configs :
      List Machine → Dict KThreesConfigSpec → Exec Session Error (Dict KThreesConfigSpec)
  unfolding query unless_absent
  get_kthrees_configs [] found = pure found
  get_kthrees_configs (m ∷ ms) found =
      if is_some m.config_ref
      then (do
        answer ← attempt (query (get_config m.name) (λ t. client.get_config t m))
        next ← raise (unless_absent m.name found answer)
        get_kthrees_configs ms next)
      else get_kthrees_configs ms found

  unfoldable pub new_patch_helpers : List Machine → Exec Session Error Unit
  unfolding perform
  new_patch_helpers [] = pure tt
  new_patch_helpers (m ∷ ms) = do
    perform (new_patch_helper m.name) (λ t. client.new_patch_helper t m)
    new_patch_helpers ms

  -- The control plane in memory is made anew; the object and the cluster are those of the session.
  unfoldable pub new_control_plane : List Machine → Exec Session Error Unit
  unfolding get_infra_resources get_kthrees_configs new_patch_helpers perform is_present
  new_control_plane owned = do
    infra ← get_infra_resources owned []
    configs ← get_kthrees_configs owned []
    new_patch_helpers owned
    secret ← attempt (perform get_etcd_secret client.get_etcd_secret)
    has_ca ← raise (is_present secret)
    modify (λ s. record s {
      plane = record s.plane {
        machines = owned;
        has_etcd_ca = has_ca;
        infra_resources = infra;
        kthrees_configs = configs;
        reconciliation_time = client.now s.trace;
      };
    })
