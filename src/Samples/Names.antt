-- ===== src/Samples/Names.antt =====
-- Names of members, configuration files and filtered objects.
use Prim.Native.String.{◌++◌}
use cluster_api_k3s.Prelude.{List, Bool, String, true, false, [], ◌∷◌, ◌&&◌, ◌≡◌, refl}
use cluster_api_k3s.Etcd.{node_name_from_name}
use cluster_api_k3s.Etcd.Names.{node_name_from_name-append}
use cluster_api_k3s.Samples.{server_config, agent_config}
use cluster_api_k3s.K3sConfig.{
  generate_init_control_plane_config, generate_join_control_plane_config,
}
use cluster_api_k3s.K3sConfig.Laws.{generate_join_control_plane_config-init}
use cluster_api_k3s.FilterIntent.Kept.{has, is_kept, has-filter_intent}
use cluster_api_k3s.FilterIntent.{
  filter_intent, Value, leaf, object, end, field, filter_object, is_path_allowed, is_path_ignored,
  overlaps,
}
use cluster_api_k3s.FilterIntent.Leaves.{holds, passes}
use cluster_api_k3s.FilterIntent.Paths.{holds-filter_object}

node_name_from_name-append_example :
    node_name_from_name ("node-a" ++ String.◌∷◌ "-" "1a2b") ≡ "node-a"
node_name_from_name-append_example = node_name_from_name-append "node-a" "1a2b" refl

generate_join_control_plane_config-init_example :
    let first = generate_init_control_plane_config "10.0.0.1" "token" server_config agent_config in
    (first.cluster_init ≡ true)
    × (first.agent.server ≡ "")
    × (generate_join_control_plane_config "https://10.0.0.1:6443" "token" "10.0.0.1" server_config
          agent_config
        ≡ record first {
          cluster_init = false;
          agent = record first.agent { server = "https://10.0.0.1:6443" };
        })
generate_join_control_plane_config-init_example =
    generate_join_control_plane_config-init "https://10.0.0.1:6443" "token" "10.0.0.1" server_config
      agent_config

abbrev content : Value
content = object (
    field "spec" (object (field "version" (leaf "v1") (field "paused" (leaf "true") end)))
      (field "status" (object (field "phase" (leaf "up") end)) end))

holds-filter_object_example :
    holds
      (filter_object (("spec" ∷ []) ∷ []) (("spec" ∷ "paused" ∷ []) ∷ []) content)
      ("spec" ∷ "version" ∷ [])
      "v1"
    ≡ (holds content ("spec" ∷ "version" ∷ []) "v1"
        && is_path_allowed (("spec" ∷ []) ∷ []) ("spec" ∷ "version" ∷ [])
        && passes (is_path_ignored (("spec" ∷ "paused" ∷ []) ∷ [])) [] ("spec" ∷ "version" ∷ []))
holds-filter_object_example =
    holds-filter_object ("spec" ∷ []) [] (("spec" ∷ "paused" ∷ []) ∷ []) content "spec"
      ("version" ∷ []) "v1"

-- The only field of `spec` is ignored, so that `spec` goes; `status` was empty and stays.
abbrev nested : Value
nested =
    object
      (field "spec" (object (field "paused" (leaf "true") end)) (field "status" (object end) end))

abbrev ignores_paused : List String → Bool
ignores_paused p = is_path_ignored (("spec" ∷ "paused" ∷ []) ∷ []) p

has-filter_intent_example :
    has (filter_intent ignores_paused [] nested).1 ("spec" ∷ [])
    ≡ is_kept ignores_paused [] nested ("spec" ∷ [])
has-filter_intent_example = has-filter_intent ignores_paused [] nested "spec" []

emptied_is_gone :
    (has (filter_intent ignores_paused [] nested).1 ("spec" ∷ []) ≡ false)
    × (has (filter_intent ignores_paused [] nested).1 ("status" ∷ []) ≡ true)
unfolding filter_intent has is_path_ignored
emptied_is_gone = (refl, refl)

kept :
    holds
      (filter_object (("spec" ∷ []) ∷ []) (("spec" ∷ "paused" ∷ []) ∷ []) content)
      ("spec" ∷ "version" ∷ [])
      "v1"
    ≡ true
unfolding filter_object holds overlaps is_path_allowed is_path_ignored
kept = refl
