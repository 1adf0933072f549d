-- ===== src/Samples/Releasing.antt =====
-- A machine that is being deleted is released by its hook.
use cluster_api_k3s.Prelude.{true, some, [], ◌∷◌, lookup, remove, ◌≡◌, ◌≢◌, refl, sym, ◌∙◌}
use cluster_api_k3s.Prelude.Exec.{ok}
use cluster_api_k3s.Api.{Machine, Session, Client, Node, get_machine}
use cluster_api_k3s.Controllers.{pre_terminate_hook}
use cluster_api_k3s.Controllers.Deletions.{patched}
use cluster_api_k3s.Samples.{one, with_machines, client, node}
use cluster_api_k3s.Samples.Library.{capi}
use cluster_api_k3s.MachineController.{
  without_hook, reconcile, reconcile_machine, resolve_hook, await_removal, unless_skipped,
  remove_hook, is_remove_etcd_member_needed,
}
use cluster_api_k3s.Workload.Leaving.{remove_etcd_member_for_machine}
use cluster_api_k3s.MachineController.Hook.{IsReleased, reconcile-patches}

abbrev leaving : Machine
leaving = record one { deleting = true; annotations = some ((pre_terminate_hook, "k3s") ∷ []) }

-- k3s reports the node's member as removed.
abbrev removed : Node
removed = record (node "m1") {
  annotations = some (("etcd.k3s.cattle.io/removed-node-name", "m1") ∷ []);
}

abbrev server : Client
server = record (client leaving) { list_nodes = λ t. ok (removed ∷ node "m2" ∷ node "m3" ∷ []) }

abbrev session : Session
session = with_machines []

releases : patched (reconcile capi server "m1" session).1 ≡ without_hook capi server leaving ∷ []
unfolding capi reconcile reconcile_machine resolve_hook await_removal unless_skipped remove_hook
    is_remove_etcd_member_needed lookup remove remove_etcd_member_for_machine
releases = refl

reconcile_changes : patched (reconcile capi server "m1" session).1 ≢ []
reconcile_changes h = let e = sym releases ∙ h in cc

reconcile-patches_example :
    (m : Machine) × (server.get_machine [] "m1" ≡ ok m)
    × (patched (reconcile capi server "m1" session).1 ≡ without_hook capi server m ∷ [])
    × IsReleased capi server m (record session { trace = get_machine "m1" ∷ [] })
reconcile-patches_example = reconcile-patches capi server "m1" session reconcile_changes
