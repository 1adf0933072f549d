-- ===== src/Remediation/Quorum/Majority.antt =====
-- canSafelyRemoveEtcdMember keeps a majority; getMachineToBeRemediated chooses one that is there.
use cluster_api_k3s.Prelude.{
  ℕ, suc, ◌+◌, ◌-◌, ◌*◌, ◌/◌, ◌≤◌, String, false, Option, none, some, List, [], ◌∷◌, Mem, count_if,
  leb, ltb, not, ◌&&◌, ◌≡◌, refl, arith, subst,
}
use mathlib.Core.List.{not-mem-nil}
use cluster_api_k3s.Prelude.Exec.{ok}
use cluster_api_k3s.Api.{Machine, Capi, CapiLaws, Client, Session, perform, get_workload_cluster}
use cluster_api_k3s.Workload.Leaving.{etcd_members}
use cluster_api_k3s.Workload.{is_on_node}
use cluster_api_k3s.Remediation.Quorum.{
  or_oldest, member_is_healthy, project, keeps_quorum, get_machine_to_be_remediated,
  can_safely_remove_etcd_member,
}

-- The members of the target cluster, and those of them that have a healthy machine.
abbrev pub remaining : Option String → List String → ℕ
remaining leaving members = count_if (λ n. not (is_on_node leaving n)) members

abbrev pub remaining_healthy : Capi → List Machine → Option String → List String → ℕ
remaining_healthy capi machines leaving members =
    count_if (λ n. not (is_on_node leaving n) && member_is_healthy capi machines n) members

module _ (capi : Capi) (machines : List Machine) (leaving : Option String) where
  project_lem :
      (members : List String) (t u : ℕ)
      → let (total, unhealthy) = project capi machines leaving members t u in
        (total ≡ t + remaining leaving members)
        × (unhealthy + remaining_healthy capi machines leaving members
            ≡ u + remaining leaving members)
  unfolding project
  project_lem [] t u = (omega arith, omega arith)
  project_lem (n ∷ ns) t u =
      ground (arith, project_lem ns t u, project_lem ns (suc t) u, project_lem ns (suc t) (suc u))

  pub keeps_quorum-project :
      (members : List String)
      → keeps_quorum (project capi machines leaving members 0 0)
        ≡ ltb (remaining leaving members) (2 * remaining_healthy capi machines leaving members)
  unfolding keeps_quorum
  keeps_quorum-project members = ground (arith, project_lem members 0 0)

-- The fault tolerance of etcd: of n members that stay, n > 0, the removal allows (n - 1) / 2 to be
-- unhealthy, and no more. Where none stays it is never allowed.
pub keeps_quorum_tolerance :
    (n unhealthy : ℕ)
    → unhealthy ≤ n
    → keeps_quorum (n, unhealthy) ≡ (ltb 0 n && leb unhealthy ((n - 1) / 2))
unfolding keeps_quorum
keeps_quorum_tolerance n unhealthy h = ground arith

module _ (capi : Capi) (client : Client) where
  -- Where etcd answers, the removal is found safe exactly if the members that stay and have a machine
  -- that reports them healthy are a strict majority of the members that stay.
  pub can_safely_remove_etcd_member-majority :
      (m : Machine) (s s1 s2 : Session) (members : List String)
      → perform get_workload_cluster client.get_workload_cluster s ≡ (ok tt, s1)
      → etcd_members client s1 ≡ (ok members, s2)
      → can_safely_remove_etcd_member capi client m s ≡ (
        ok (
            ltb
              (remaining m.node_ref members)
              (2 * remaining_healthy capi s2.plane.machines m.node_ref members)),
        s2,
      )
  unfolding can_safely_remove_etcd_member
  can_safely_remove_etcd_member-majority m s s1 s2 members reached answered =
      rw reached (rw answered (rw keeps_quorum-project))

module _ (capi : Capi) (laws : CapiLaws capi) where
  without_node : List Machine → List Machine
  without_node machines = capi.filter (λ m. not (capi.has_node m)) machines

  chosen_mem :
      (machines : List Machine) (o : Option Machine) (m : Machine)
      → capi.oldest (without_node machines) ≡ o
      → or_oldest capi o machines ≡ some m
      → Mem m machines
        × ((other : Machine)
            → Mem other machines
            → capi.has_node other ≡ false
            → capi.has_node m ≡ false)
  unfolding or_oldest without_node
  chosen_mem machines (some x) m found h =
      let same : x ≡ m = cc in
      let (present, free) =
        (laws.mem_filter (λ m. not (capi.has_node m)) machines x).0 (laws.oldest_mem _ x found) in
      (
        subst (λ y. Mem y machines) same present,
        λ other _ _. subst (λ y. capi.has_node y ≡ false) same (ground arith),
      )
  chosen_mem machines none m found h = (
    laws.oldest_mem machines m h,
    λ other there free. absurd (
        not-mem-nil (
          subst (λ ms. Mem other ms) (laws.oldest_none _ found)
            ((laws.mem_filter (λ m. not (capi.has_node m)) machines other).1 (there, rw free)))),
  )

  -- The machine to be remediated is one of the unhealthy ones, and it has no node if any of them has
  -- none.
  pub get_machine_to_be_remediated-mem :
      (machines : List Machine) (m : Machine)
      → get_machine_to_be_remediated capi machines ≡ some m
      → Mem m machines
        × ((other : Machine)
            → Mem other machines
            → capi.has_node other ≡ false
            → capi.has_node m ≡ false)
  unfolding get_machine_to_be_remediated without_node
  get_machine_to_be_remediated-mem machines m h = chosen_mem machines _ m refl h

  pub get_machine_to_be_remediated-none :
      (machines : List Machine) → get_machine_to_be_remediated capi machines ≡ none → machines ≡ []
  unfolding get_machine_to_be_remediated or_oldest
  get_machine_to_be_remediated-none machines h = ground (arith, laws.oldest_none machines)
