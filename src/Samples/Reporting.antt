-- ===== src/Samples/Reporting.antt =====
-- A status written from the machines and the nodes of the samples.
use cluster_api_k3s.Prelude.{true, false, none, [], ◌∷◌, ◌≡◌, refl}
use cluster_api_k3s.Prelude.Int.{pos, ◌+ℤ◌}
use cluster_api_k3s.Prelude.Exec.{ok}
use cluster_api_k3s.Reconciliation.Status.{StatusLibrary, Reported, update_status}
use cluster_api_k3s.Reconciliation.Status.Balance.{IsBalanced, numbers, update_status-IsBalanced}
use cluster_api_k3s.Samples.{one, two, three, with_machines, client}
use cluster_api_k3s.Samples.Library.{capi}

abbrev reporter : StatusLibrary
reporter = record {
  selector = λ cluster. cluster;
  owned_machines = λ t. ok (one ∷ two ∷ three ∷ []);
  lowest_version = λ ms. "v1.30.2+k3s2";
  is_ready = λ m. true;
}

abbrev fresh : Reported
fresh = record {
  session = with_machines [];
  status = record {
    selector = "";
    replicas = 0;
    updated_replicas = 0;
    ready_replicas = 0;
    unavailable_replicas = pos 0;
    version = none;
    ready = false;
    last_remediation = none;
  };
}

fresh-IsBalanced : IsBalanced (numbers fresh)
unfolding ◌+ℤ◌
fresh-IsBalanced = (refl, λ h. absurd (h refl))

update_status-IsBalanced_example :
    IsBalanced (numbers (update_status capi reporter (client one) fresh).1)
update_status-IsBalanced_example =
    update_status-IsBalanced capi reporter (client one) fresh fresh-IsBalanced

updated_replicas_three : (update_status capi reporter (client one) fresh).1.status.replicas ≡ 3
unfolding update_status capi
updated_replicas_three = refl
