-- ===== src/ControlPlane/Domains.antt =====
-- The machine that is picked from the failure domain with the most machines.
use cluster_api_k3s.Prelude.{
  String, Option, none, some, List, [], ◌∷◌, Mem, ◌≡◌, refl, ap, ◌∙◌, arith,
}
use cluster_api_k3s.Prelude.Exec.{Outcome, ok, err}
use cluster_api_k3s.Api.{Error, Machine, Capi, CapiLaws, ControlPlane}
use cluster_api_k3s.ControlPlane.{
  failure_domain_with_most_machines, picked, oldest_in,
  machine_in_failure_domain_with_most_machines,
}

abbrev oldest_of : Outcome Error Machine → Option Machine
oldest_of (ok m) = some m
oldest_of (err e) = none

module _ (capi : Capi) (laws : CapiLaws capi) where
  picked_mem :
      (fd : String) (ms : List Machine) (m : Machine) (o : Option Machine)
      → capi.oldest (capi.filter (capi.in_failure_domains (fd ∷ [])) ms) ≡ o
      → picked capi o ≡ ok m
      → Mem m ms
  unfolding picked
  picked_mem fd ms m none e h = ground arith
  picked_mem fd ms m (some x) e h =
      let same : some x ≡ some m = ap oldest_of h in
      ((laws.mem_filter (capi.in_failure_domains (fd ∷ [])) ms m).0
        (laws.oldest_mem (capi.filter (capi.in_failure_domains (fd ∷ [])) ms) m (e ∙ same))).0

  by_domain :
      (ms : List Machine) (m : Machine) (o : Outcome Error String)
      → oldest_in capi o ms ≡ ok m
      → Mem m ms
  unfolding oldest_in
  by_domain ms m (ok fd) h = picked_mem fd ms m _ refl h
  by_domain ms m (err e) h = ground arith

  -- What is picked is one of the machines to pick from.
  pub machine_in_failure_domain_with_most_machines-mem :
      (c : ControlPlane) (ms : List Machine) (m : Machine)
      → machine_in_failure_domain_with_most_machines capi c ms ≡ ok m
      → Mem m ms
  unfolding machine_in_failure_domain_with_most_machines
  machine_in_failure_domain_with_most_machines-mem c ms m h =
      by_domain ms m (failure_domain_with_most_machines capi c ms) h
