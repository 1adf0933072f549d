-- ===== src/Locking/Server.antt =====
-- The API server as the lock of one cluster sees it: one slot for the config map, and which machines
-- there are. A call may fail at any time, with or without its effect.
use cluster_api_k3s.Prelude.{String, Bool, true, false, Option, none, some, ◌≡◌, ◌⊎◌}
use cluster_api_k3s.Prelude.Exec.{Outcome, ok, err}
use cluster_api_k3s.Api.{Error, not_found, already_exists}
use cluster_api_k3s.Locking.{
  ConfigMap, Request, get_config_map, get_machine, create_config_map, delete_config_map, Answer,
}

abbrev pub Slot : Type 0
Slot = Option ConfigMap

abbrev Fetches : Slot → Outcome Error ConfigMap → Type 0
Fetches slot (ok c) = slot ≡ some c
Fetches slot (err not_found) = slot ≡ none
Fetches slot (err e) = Unit {0}

abbrev Finds : Bool → Outcome Error Unit → Type 0
Finds there (ok _) = there ≡ true
Finds there (err not_found) = there ≡ false
Finds there (err e) = Unit {0}

abbrev Creates : Slot → ConfigMap → Outcome Error Unit → Slot → Type 0
Creates before c (ok _) after = (before ≡ none) × (after ≡ some c)
Creates before c (err already_exists) after = after ≡ before
Creates before c (err e) after = (after ≡ before) ⊎ ((before ≡ none) × (after ≡ some c))

abbrev Deletes : Slot → Outcome Error Unit → Slot → Type 0
Deletes before (ok _) after = after ≡ none
Deletes before (err not_found) after = (before ≡ none) × (after ≡ none)
Deletes before (err e) after = (after ≡ before) ⊎ (after ≡ none)

-- The server may answer a request in this way and leave the slot so.
abbrev pub Serves :
    (String → Bool) → Slot → (r : Request) → Outcome Error (Answer r) → Slot → Type 0
Serves alive before (get_config_map namespace name) a after = (after ≡ before) × Fetches before a
Serves alive before (get_machine namespace name) a after = (after ≡ before) × Finds (alive name) a
Serves alive before (create_config_map c) a after = Creates before c a after
Serves alive before (delete_config_map c) a after = Deletes before a after
