-- ===== src/Remediation/Reconcile/Quiet.antt =====
-- The parts of reconcileUnhealthyMachines that delete no machine.
use cluster_api_k3s.Prelude.{String, Bool, Option, none, some, List, [], ◌∷◌, Dict, ◌≡◌, refl}
use cluster_api_k3s.Prelude.Exec.Keeps.{
  Keeps, Keeps-if, Keeps-pure, Keeps-bind, Keeps-attempt, keeps_rules,
}
use cluster_api_k3s.Api.{Error, Machine, Capi, Client, Session}
use cluster_api_k3s.Controllers.{set_condition}
use cluster_api_k3s.Controllers.Deletions.{deleted}
use cluster_api_k3s.Workload.Leaving.Quiet.{etcd_members-Keeps, forward_etcd_leadership-Keeps}
use cluster_api_k3s.Remediation.Quorum.{can_safely_remove_etcd_member}
use cluster_api_k3s.Remediation.Reconcile.{
  new_helper, patch, delete_condition, is_back, noted, forget, clean_up, unless_errors, mark, wait,
  fail_marked, require_quorum, require_stable, hooked, add_hook, leave_etcd, prepare, preflight,
}

module _ (capi : Capi) (client : Client) where
  pub new_helper-Keeps : (m : Machine) → Keeps deleted (new_helper capi client m)
  unfolding new_helper
  new_helper-Keeps m = record { at = λ s. refl }

  patch-Keeps : (m : Machine) → Keeps deleted (patch capi client m)
  unfolding patch
  patch-Keeps m = record { at = λ s. refl }

  deleted-delete_condition :
      (m : Machine) (s : Session) → deleted (delete_condition capi client m s) ≡ deleted s
  unfolding delete_condition
  deleted-delete_condition m s = refl

  forget-Keeps : (m : Machine) → Keeps deleted (forget capi client m)
  unfolding forget
  forget-Keeps m = search (keeps_rules, new_helper-Keeps, patch-Keeps, deleted-delete_condition)

  pub clean_up-Keeps : (ms : List Machine) → Keeps deleted (clean_up capi client ms)
  unfolding clean_up
  clean_up-Keeps [] = search keeps_rules
  clean_up-Keeps (m ∷ ms) =
      let rest = clean_up-Keeps ms in
      Keeps-if (is_back capi client m) _ _
        (Keeps-bind _ _ (Keeps-attempt _ (forget-Keeps m))
          (λ done. Keeps-bind _ _ rest (λ errs. Keeps-pure (noted capi client done errs))))
        rest

  pub unless_errors-Keeps : (errs : List Error) → Keeps deleted (unless_errors capi client errs)
  unfolding unless_errors
  unless_errors-Keeps [] = search keeps_rules
  unless_errors-Keeps (e ∷ errs) = search keeps_rules

  pub mark-Keeps : (m : Machine) (reason : String) → Keeps deleted (mark capi client m reason)
  unfolding mark set_condition
  mark-Keeps m reason = record { at = λ s. refl }

  pub wait-Keeps : (m : Machine) → Keeps deleted (wait capi client m)
  unfolding wait
  wait-Keeps m = search (keeps_rules, mark-Keeps)

  pub fail_marked-Keeps :
      {A : Type 0} (m : Machine) (e : Error) → Keeps deleted (fail_marked capi client {A = A} m e)
  unfolding fail_marked
  fail_marked-Keeps m e = search (keeps_rules, mark-Keeps)

  can_safely-Keeps : (m : Machine) → Keeps deleted (can_safely_remove_etcd_member capi client m)
  unfolding can_safely_remove_etcd_member
  can_safely-Keeps m = search (keeps_rules, etcd_members-Keeps)

  pub require_quorum-Keeps : (m : Machine) → Keeps deleted (require_quorum capi client m)
  unfolding require_quorum
  require_quorum-Keeps m =
      search (keeps_rules, can_safely-Keeps, wait-Keeps, fail_marked-Keeps {A = Bool})

  pub require_stable-Keeps : (m : Machine) → Keeps deleted (require_stable capi client m)
  unfolding require_stable
  require_stable-Keeps m = search (keeps_rules, wait-Keeps, require_quorum-Keeps) depth 8

  hooked-Keeps : (m : Machine) (d : Option (Dict String)) → Keeps deleted (hooked capi client m d)
  unfolding hooked
  hooked-Keeps m none = search keeps_rules
  hooked-Keeps m (some d) = search (keeps_rules, patch-Keeps)

  pub add_hook-Keeps : (m : Machine) → Keeps deleted (add_hook capi client m)
  unfolding add_hook
  add_hook-Keeps m = search (keeps_rules, new_helper-Keeps, hooked-Keeps)

  pub leave_etcd-Keeps :
      (m : Machine) (c : Option Machine) → Keeps deleted (leave_etcd capi client m c)
  unfolding leave_etcd
  leave_etcd-Keeps m none = search (keeps_rules, mark-Keeps)
  leave_etcd-Keeps m (some c) =
      search (
        keeps_rules,
        forward_etcd_leadership-Keeps,
        fail_marked-Keeps {A = Unit {0}},
        add_hook-Keeps,
      )

  pub prepare-Keeps : (m : Machine) → Keeps deleted (prepare capi client m)
  unfolding prepare
  prepare-Keeps m = search (keeps_rules, leave_etcd-Keeps)

  pub preflight-Keeps : (m : Machine) → Keeps deleted (preflight capi client m)
  unfolding preflight
  preflight-Keeps m = search (keeps_rules, require_stable-Keeps, prepare-Keeps)
