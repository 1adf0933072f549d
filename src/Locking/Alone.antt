-- ===== src/Locking/Alone.antt =====
-- What Lock and Unlock do where one run is alone with a server that answers well.
use cluster_api_k3s.Prelude.{
  String, Bool, true, false, Option, none, some, Bool-cases, lookup, if◌then◌else◌, ◌==◌, inl, inr,
  ◌≡◌, refl, ◌∙◌, ap,
}
use cluster_api_k3s.Prelude.Exec.{Outcome, ok, err}
use cluster_api_k3s.Api.{Error, not_found, already_exists, Cluster}
use cluster_api_k3s.Locking.{
  ConfigMap, Request, get_config_map, get_machine, create_config_map, delete_config_map, Answer,
  Program, return, call, Json, JsonLaws, information, semaphore, deleted, release, unlock, created,
  create, looked_up, held_by, fetched, lock,
}
use cluster_api_k3s.Locking.Server.{Slot}

abbrev fetch : Slot → Outcome Error ConfigMap
fetch none = err not_found
fetch (some c) = ok c

abbrev create_answer : Slot → Outcome Error Unit
create_answer none = ok tt
create_answer (some c) = err already_exists

abbrev create_after : ConfigMap → Slot → Slot
create_after c none = some c
create_after c (some d) = some d

abbrev delete_answer : Slot → Outcome Error Unit
delete_answer none = err not_found
delete_answer (some c) = ok tt

abbrev pub respond : (String → Bool) → Slot → (r : Request) → Outcome Error (Answer r) × Slot
respond alive slot (get_config_map namespace name) = (fetch slot, slot)
respond alive slot (get_machine namespace name) =
    (if alive name then ok tt else err not_found, slot)
respond alive slot (create_config_map c) = (create_answer slot, create_after c slot)
respond alive slot (delete_config_map c) = (delete_answer slot, none)

-- A whole run of a program against that server.
abbrev pub run : (String → Bool) → Program → Slot → Bool × Slot
run alive (return b) slot = (b, slot)
run alive (call r k) slot = let (a, after) = respond alive slot r in run alive (k a) after

-- Who is named in the config map, as far as one can read it.
abbrev pub after_lock : (String → Bool) → String → Slot → Option String → Bool × Slot
after_lock alive m slot none = (false, slot)
after_lock alive m slot (some owner) =
    if owner == m then (true, slot) else if alive owner then (false, slot) else (false, none)

abbrev pub taken : Json → Cluster → Option String → Bool × Slot
taken json cluster none = (false, none)
taken json cluster (some text) = (true, some (semaphore json cluster text))

-- What a run of Lock comes to: a free lock is taken; a lock that is held is kept by the machine that
-- holds it, and taken from a holder that is gone, though not yet given to the machine that asks.
abbrev pub lock_outcome : Json → Cluster → (String → Bool) → String → Slot → Bool × Slot
lock_outcome json cluster alive m none = taken json cluster (json.marshal m)
lock_outcome json cluster alive m (some c) = after_lock alive m (some c) (information json c)

module _ (json : Json) (cluster : Cluster) (alive : String → Bool) where
  create_lem : (o : Option String) → run alive (create json cluster o) none ≡ taken json cluster o
  unfolding create created
  create_lem none = refl
  create_lem (some text) = refl

  looked_up_lem :
      (c : ConfigMap) (there : Bool)
      → run alive (looked_up json cluster (if there then ok tt else err not_found)) (some c)
        ≡ (if there then (false, some c) else (false, none))
  unfolding looked_up unlock release deleted
  looked_up_lem c true = refl
  looked_up_lem c false = refl

  held_by_lem :
      (m : String) (c : ConfigMap) (o : Option String)
      → run alive (held_by json cluster m o) (some c) ≡ after_lock alive m (some c) o
  unfolding held_by
  held_by_lem m c none = refl
  held_by_lem m c (some owner) = elim (Bool-cases (owner == m)) [
    | inl own ↦ rw own
    | inr foreign ↦ rw foreign (looked_up_lem c (alive owner))
  ]

  -- Alone, Lock takes a free lock for the machine, returns true again to the machine that holds it,
  -- returns false and changes nothing while another machine that is there holds it, and returns
  -- false and frees it where the holder is gone. A lock that cannot be read or written is not taken.
  pub lock_lem :
      (m : String) (slot : Slot)
      → run alive (lock json cluster m) slot ≡ lock_outcome json cluster alive m slot
  unfolding lock fetched
  lock_lem m none = create_lem (json.marshal m)
  lock_lem m (some c) = held_by_lem m c (information json c)

  -- Alone, Unlock returns true and leaves the lock free, whoever held it.
  pub unlock_lem : (slot : Slot) → run alive (unlock json cluster) slot ≡ (true, none)
  unfolding unlock release deleted
  unlock_lem none = refl
  unlock_lem (some c) = refl

  module _ (laws : JsonLaws json) where
    -- Where the lock is free and the name can be written, Lock returns true to the machine, then
    -- false to every other machine as long as the first one is there, and the lock stays as it is.
    pub lock-lock :
        (m n text : String)
        → json.marshal m ≡ some text
        → (m == n) ≡ false
        → alive m ≡ true
        → let (first, slot) = run alive (lock json cluster m) none in
          (first ≡ true) × (run alive (lock json cluster n) slot ≡ (false, slot))
    lock-lock m n text e other there =
        let held : run alive (lock json cluster m) none
            ≡ (true, some (semaphore json cluster text)) =
          lock_lem m none ∙ ap (taken json cluster) e in
        let named : information json (semaphore json cluster text) ≡ some m =
          unfold information semaphore lookup in laws.unmarshal_marshal m text e in
        rw held (
          refl,
          lock_lem n (some (semaphore json cluster text)) ∙ rw named (rw (other, there) refl),
        )
