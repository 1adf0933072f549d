-- ===== src/Reconciliation/Deletion/Order.antt =====
-- The machines of a control plane that is being deleted go last, and all at once.
use cluster_api_k3s.Prelude.{
  String, Bool, true, false, List, [], ◌∷◌, Dict, Option, eqb, length, not, if◌then◌else◌, ◌≡◌, ◌≢◌,
  refl, sym, ap, ◌∙◌, Mem, all_kept, arith, Bool-cases, inl, inr,
}
use cluster_api_k3s.Prelude.Exec.{Outcome, ok, err, continue, handled, attempt, modify, ◌>>=◌, ◌>>◌}
use cluster_api_k3s.Prelude.Exec.Keeps.{
  Keeps, changed_after, continue-ok, continue-Keeps, handled-Keeps, Keeps-stop, Keeps-pure,
  keeps_rules,
}
use cluster_api_k3s.Api.{
  Error, Machine, KThreesConfigSpec, condition_false, Capi, CapiLaws, Client, Session,
  list_all_machines, delete_machine, query,
}
use cluster_api_k3s.Controllers.{
  Handler, CtrlResult, fail, finish, zero_result, or_fail, Return, requeued_after,
  delete_requeue_after,
}
use cluster_api_k3s.Controllers.Deletions.{deleted}
use cluster_api_k3s.ControlPlane.Assembly.{
  raise, get_infra_resources, get_kthrees_configs, new_patch_helpers, new_control_plane,
}
use cluster_api_k3s.Remediation.Reconcile.{delete}
use cluster_api_k3s.Reconciliation.{reconcile_control_plane_conditions}
use cluster_api_k3s.Reconciliation.Quiet.{conditions-Keeps}
use cluster_api_k3s.Workload.Conditions.{mark_kcp}
use cluster_api_k3s.Reconciliation.Deletion.Names.{
  names, machine_names, machines-assembled, names-assembled,
}
use cluster_api_k3s.Reconciliation.Deletion.{
  delete_each, first_or_wait, delete_machines, delete_owned, reconcile_delete, aggregated_ready,
  resized_condition, without_finalizer,
}

-- The names in front of others, the last machine's first.
abbrev pub names_onto : List Machine → List String → List String
names_onto [] names = names
names_onto (m ∷ ms) names = names_onto ms (m.name ∷ names)

raise-Keeps : {A : Type 0} (o : Outcome Error A) → Keeps deleted (raise o)
raise-Keeps (ok a) = search keeps_rules
raise-Keeps (err e) = search keeps_rules

module _ (client : Client) where
  infra-Keeps :
      (ms : List Machine) (d : Dict (Option String × Option String))
      → Keeps deleted (get_infra_resources client ms d)
  unfolding get_infra_resources
  infra-Keeps [] d = search keeps_rules
  infra-Keeps (m ∷ ms) d =
      let rest : (next : Dict (Option String × Option String))
          → Keeps deleted (get_infra_resources client ms next) =
        λ next. infra-Keeps ms next in
      search (keeps_rules, raise-Keeps) depth 8

  configs-Keeps :
      (ms : List Machine) (d : Dict KThreesConfigSpec)
      → Keeps deleted (get_kthrees_configs client ms d)
  unfolding get_kthrees_configs
  configs-Keeps [] d = search keeps_rules
  configs-Keeps (m ∷ ms) d =
      let rest : (next : Dict KThreesConfigSpec)
          → Keeps deleted (get_kthrees_configs client ms next) =
        λ next. configs-Keeps ms next in
      search (keeps_rules, raise-Keeps) depth 8

  helpers-Keeps : (ms : List Machine) → Keeps deleted (new_patch_helpers client ms)
  unfolding new_patch_helpers
  helpers-Keeps [] = search keeps_rules
  helpers-Keeps (m ∷ ms) = let rest = helpers-Keeps ms in search keeps_rules

  pub new_control_plane-Keeps : (ms : List Machine) → Keeps deleted (new_control_plane client ms)
  unfolding new_control_plane
  new_control_plane-Keeps ms =
      search (keeps_rules, infra-Keeps, configs-Keeps, helpers-Keeps, raise-Keeps) depth 12

module _ (capi : Capi) (client : Client) where
  deleted-delete_each :
      (ms : List Machine) (s : Session)
      → deleted (delete_each capi client ms s).1 ≡ names_onto ms (deleted s)
  unfolding delete_each delete
  deleted-delete_each [] s = refl
  deleted-delete_each (m ∷ ms) s =
      let next = record s { trace = delete_machine m.name ∷ s.trace } in
      continue-Keeps {view = deleted} (delete_each capi client ms next) _ (λ errs. Keeps-pure _)
      ∙ deleted-delete_each ms next

  first_or_wait-Keeps : (errs : List Error) → Keeps deleted (first_or_wait capi client errs)
  unfolding first_or_wait mark_kcp
  first_or_wait-Keeps [] = record { at = λ s. refl }
  first_or_wait-Keeps (e ∷ errs) = search keeps_rules

  deleted-delete_machines :
      (s : Session)
      → deleted (delete_machines capi client s).1
        ≡ names_onto
            (capi.filter (λ m. not (capi.has_deletion_timestamp m)) s.plane.machines)
            (deleted s)
  unfolding delete_machines
  deleted-delete_machines s =
      let going = capi.filter (λ m. not (capi.has_deletion_timestamp m)) s.plane.machines in
      continue-Keeps {view = deleted} (or_fail (delete_each capi client going) s)
        (first_or_wait capi client) first_or_wait-Keeps
      ∙ handled-Keeps {view = deleted} (delete_each capi client going s) fail (λ e. Keeps-stop _)
      ∙ deleted-delete_each going s

  -- The session when the machines of a control plane are looked at: it was assembled, and its
  -- conditions were updated as far as that could be done.
  abbrev pub assembled : List Machine → Session → Session
  assembled owned s =
      (attempt {F = Return} (reconcile_control_plane_conditions capi client)
        (or_fail (new_control_plane client owned) s).1).1

  -- What is done once the conditions are seen to.
  finish_owned : Bool → Handler CtrlResult
  finish_owned alone = if alone then delete_machines capi client else (do
    modify (mark_kcp capi resized_condition condition_false "Deleting")
    finish (requeued_after delete_requeue_after))

  finish_owned_changed :
      (alone : Bool) (s : Session)
      → deleted (finish_owned alone s).1 ≢ deleted s
      → (alone ≡ true)
        × (deleted (finish_owned alone s).1
            ≡ names_onto
                (capi.filter (λ m. not (capi.has_deletion_timestamp m)) s.plane.machines)
                (deleted s))
  unfolding finish_owned mark_kcp
  finish_owned_changed true s changed = (refl, deleted-delete_machines s)
  finish_owned_changed false s changed = absurd (changed refl)

  delete_owned_changed :
      (all owned : List Machine) (s : Session)
      → deleted (delete_owned capi client all owned s).1 ≢ deleted s
      → (eqb (length all) (length owned) ≡ true)
        × ((or_fail (new_control_plane client owned) s).1.plane.machines ≡ owned)
        × (machine_names (assembled owned s) ≡ names owned)
        × (deleted (delete_owned capi client all owned s).1
            ≡ names_onto
                (capi.filter
                  (λ m. not (capi.has_deletion_timestamp m))
                  (assembled owned s).plane.machines)
                (deleted s))
  unfolding delete_owned aggregated_ready finish_owned
  delete_owned_changed all owned s changed =
      let start : Handler Unit = or_fail (new_control_plane client owned) in
      let look : Handler (Outcome Error Unit) =
        attempt (reconcile_control_plane_conditions capi client) in
      let last : Handler CtrlResult = modify (aggregated_ready capi client) >>= λ _.
      finish_owned (eqb (length all) (length owned)) in
      let rest : Handler CtrlResult = look >>= λ _. last in
      let start_keeps : Keeps deleted start =
        search (keeps_rules, new_control_plane-Keeps client) in
      let look_keeps : Keeps deleted look = search (keeps_rules, conditions-Keeps capi client) in
      let (u, e1, changed1) =
        changed_after {view = deleted} start (λ _. rest) s start_keeps changed in
      let (o, e2, changed2) =
        changed_after {view = deleted} look (λ _. last) (start s).1 look_keeps changed1 in
      let (alone, gone) =
        finish_owned_changed (eqb (length all) (length owned))
          (aggregated_ready capi client (assembled owned s)) changed2 in
      (
        alone,
        machines-assembled capi client owned s e1,
        names-assembled capi client owned s e1,
        ap (λ (r : Outcome Return CtrlResult × Session). deleted r.1)
              (continue-ok (start s) (λ _. rest) e1 ∙ continue-ok (look (start s).1) (λ _. last) e2)
            ∙ gone
            ∙ ap
                (names_onto (
                  capi.filter (λ m. not (capi.has_deletion_timestamp m))
                    (assembled owned s).plane.machines))
                (look_keeps.at (start s).1 ∙ start_keeps.at s),
      )

  -- The handler once the machines of the cluster are listed.
  listed : List Machine → Handler CtrlResult
  listed all t =
      let owned = capi.filter (capi.is_owned t.plane.kcp) all in
      (if eqb (length owned) 0
          then (do modify (without_finalizer capi client); finish zero_result)
          else delete_owned capi client all owned)
        t

  listed_changed :
      (all : List Machine) (t : Session)
      → deleted (listed all t).1 ≢ deleted t
      → let owned = capi.filter (capi.is_owned t.plane.kcp) all in
        (length all ≡ length owned)
        × ((or_fail (new_control_plane client owned) t).1.plane.machines ≡ owned)
        × (machine_names (assembled owned t) ≡ names owned)
        × (deleted (listed all t).1
            ≡ names_onto
                (capi.filter
                  (λ m. not (capi.has_deletion_timestamp m))
                  (assembled owned t).plane.machines)
                (deleted t))
  unfolding listed without_finalizer
  listed_changed all t changed =
      let owned = capi.filter (capi.is_owned t.plane.kcp) all in
      elim (Bool-cases (eqb (length owned) 0)) [
        | inl none_owned ↦ absurd (changed (rw none_owned refl))
        | inr some_owned ↦
            let (alone, taken, same, gone) =
              delete_owned_changed all owned t (λ e. changed (rw some_owned e)) in
            (ground arith, taken, same, rw some_owned gone)
      ]

module _ (capi : Capi) (laws : CapiLaws capi) (client : Client) where
  -- A reconciliation of a control plane that is being deleted, in which the machines of the cluster
  -- could be listed, and that calls for a deletion at all: every machine of the list is the control
  -- plane's, so that no worker is left; the control plane is assembled from just these machines, and
  -- has them, by name, when their conditions are updated; and one deletion is called for of each of
  -- them that has no deletion timestamp then, whether the others succeed or fail.
  pub reconcile_delete-deletes :
      (all : List Machine) (s : Session)
      → client.all_machines s.trace ≡ ok all
      → deleted (reconcile_delete capi client s).1 ≢ deleted s
      → let owned = capi.filter (capi.is_owned s.plane.kcp) all in
        let asked = record s { trace = list_all_machines ∷ s.trace } in
        ((m : Machine) → Mem m all → capi.is_owned s.plane.kcp m ≡ true)
        × (length owned ≡ length all)
        × ((or_fail (new_control_plane client owned) asked).1.plane.machines ≡ owned)
        × (machine_names (assembled capi client owned asked) ≡ names owned)
        × (deleted (reconcile_delete capi client s).1
            ≡ names_onto
                (capi.filter
                  (λ m. not (capi.has_deletion_timestamp m))
                  (assembled capi client owned asked).plane.machines)
                (deleted s))
  unfolding reconcile_delete query listed
  reconcile_delete-deletes all s answer changed =
      let asked = record s { trace = list_all_machines ∷ s.trace } in
      let same : reconcile_delete capi client s ≡ listed capi client all asked =
        ap
          (λ (a : Outcome Error (List Machine)).
            continue (handled (a, asked) fail) (listed capi client))
          answer in
      let (alone, taken, kept, gone) =
        listed_changed capi client all asked
          (λ e. changed (ap (λ (r : Outcome Return CtrlResult × Session). deleted r.1) same ∙ e)) in
      (
        all_kept (capi.is_owned s.plane.kcp) all
            (sym (laws.length_filter (capi.is_owned s.plane.kcp) all) ∙ sym alone),
        sym alone,
        taken,
        kept,
        ap (λ (r : Outcome Return CtrlResult × Session). deleted r.1) same ∙ gone,
      )
