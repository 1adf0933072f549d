-- ===== src/Locking/Exclusion.antt =====
-- At most one machine holds the lock, whatever runs of Lock are interleaved and whatever calls fail.
use cluster_api_k3s.Prelude.{
  String, Bool, lookup, true, Option, none, some, Bool-cases, if◌then◌else◌, ◌==◌, eq_iff, inl, inr,
  ◌⊎◌, ◌≡◌, refl, sym, ◌∙◌, ap, subst,
}
use cluster_api_k3s.Prelude.Exec.{Outcome, ok, err}
use cluster_api_k3s.Api.{Error, not_found, already_exists, Cluster}
use cluster_api_k3s.Locking.{
  ConfigMap, Request, create_config_map, get_config_map, get_machine, config_map_name, Answer,
  Program, return, call, Json, JsonLaws, information, semaphore, created, create, looked_up,
  held_by, fetched, lock,
}
use cluster_api_k3s.Locking.Server.{Slot, Serves}

-- What a config map says, it says from then on.
abbrev pub Evolves : Slot → Slot → Type 0
Evolves before after = (c : ConfigMap) → before ≡ some c → after ≡ some c

-- The config map is there and names the machine.
abbrev pub IsOwner : Json → String → Slot → Type 0
IsOwner json m slot = (c : ConfigMap) × (slot ≡ some c) × (information json c ≡ some m)

-- The slot and the latest run of Lock of every machine.
pub record System : Type 0 where
  pub slot : Slot
  pub runs : String → Option Program

-- No run is going on.
pub data IsResting : Option Program → Type 0 where
  never : IsResting none
  returned : (b : Bool) → IsResting (some (return b))

abbrev pub update : String → Program → (String → Option Program) → String → Option Program
update m p runs n = if n == m then some p else runs n

module _ (json : Json) (cluster : Cluster) (alive : String → Bool) where
  -- A machine calls Lock, or the server answers the call that a run is waiting for.
  pub data Step (s : System) : System → Type 0 where
    begin :
        (m : String)
        → IsResting (s.runs m)
        → Step s (record s { runs = update m (lock json cluster m) s.runs })
    answer :
        (m : String) (r : Request) (k : Outcome Error (Answer r) → Program)
        (a : Outcome Error (Answer r)) (after : Slot)
        → s.runs m ≡ some (call r k)
        → Serves alive s.slot r a after
        → Step s (record { slot = after; runs = update m (k a) s.runs })

  -- No machine has called Lock yet; an earlier config map may be there.
  pub data Reach (first : Slot) : System → Type 0 where
    start : Reach first (record { slot = first; runs = λ _. none })
    next : {s t : System} → Reach first s → Step s t → Reach first t

  -- Whatever the others do in between, the program changes the slot only as it may, and returns true
  -- only where the machine is named in it.
  abbrev Safe : String → Program → Slot → Type 0
  Safe m (return b) slot = b ≡ true → IsOwner json m slot
  Safe m (call r k) slot =
      (now : Slot)
      → Evolves slot now
      → (a : Outcome Error (Answer r)) (after : Slot) → Serves alive now r a after
      → Evolves now after × Safe m (k a) after

  Safe-Evolves :
      (m : String) (p : Program) (slot later : Slot)
      → Evolves slot later
      → Safe m p slot
      → Safe m p later
  Safe-Evolves m (return b) slot later e h =
      λ t. let (c, there, named) = h t in (c, e c there, named)
  Safe-Evolves m (call r k) slot later e h = λ now f. h now (λ c there. f c (e c there))

  same-Evolves : (before after : Slot) → after ≡ before → Evolves before after
  same-Evolves before after e c there = e ∙ there

  none-Evolves : (before after : Slot) → before ≡ none → Evolves before after
  none-Evolves before after e c there = cc

  module _ (laws : JsonLaws json) (all_alive : (n : String) → alive n ≡ true) where
    either-Evolves :
        (c : ConfigMap) (before after : Slot)
        → (after ≡ before) ⊎ ((before ≡ none) × (after ≡ some c))
        → Evolves before after
    either-Evolves c before after (inl e) = same-Evolves before after e
    either-Evolves c before after (inr (e, f)) = none-Evolves before after e

    information-semaphore :
        (m text : String)
        → json.marshal m ≡ some text
        → information json (semaphore json cluster text) ≡ some m
    unfolding information semaphore lookup
    information-semaphore m text e = laws.unmarshal_marshal m text e

    created-Safe :
        (m text : String) (now after : Slot) (a : Outcome Error Unit)
        → json.marshal m ≡ some text
        → Serves alive now (create_config_map (semaphore json cluster text)) a after
        → Evolves now after × Safe m (created json a) after
    unfolding created
    created-Safe m text now after (ok u) e served = (
      none-Evolves now after served.0,
      λ t. (semaphore json cluster text, served.1, information-semaphore m text e),
    )
    created-Safe m text now after (err already_exists) e served =
        (same-Evolves now after served, λ t. cc)
    created-Safe m text now after (err _) e served =
        (either-Evolves (semaphore json cluster text) now after served, λ t. cc)

    create-Safe :
        (m : String) (o : Option String) (slot : Slot)
        → json.marshal m ≡ o
        → Safe m (create json cluster o) slot
    unfolding create
    create-Safe m none slot e = λ t. cc
    create-Safe m (some text) slot e =
        λ now f a after served. created-Safe m text now after a e served

    -- The holder is there, so the lock is not taken from it.
    looked_up-Safe :
        (m owner : String) (now after : Slot) (a : Outcome Error Unit)
        → Serves alive now (get_machine cluster.namespace owner) a after
        → Evolves now after × Safe m (looked_up json cluster a) after
    unfolding looked_up
    looked_up-Safe m owner now after (ok u) served = (same-Evolves now after served.0, λ t. cc)
    looked_up-Safe m owner now after (err not_found) served =
        let there = all_alive owner in absurd (cc)
    looked_up-Safe m owner now after (err _) served = (same-Evolves now after served.0, λ t. cc)

    held_by-Safe :
        (m : String) (c : ConfigMap) (o : Option String) (slot : Slot)
        → slot ≡ some c
        → information json c ≡ o
        → Safe m (held_by json cluster m o) slot
    unfolding held_by
    held_by-Safe m c none slot e h = λ t. cc
    held_by-Safe m c (some owner) slot e h = elim (Bool-cases (owner == m)) [
      | inl own ↦
          let same : owner ≡ m = (eq_iff owner m).0 own in rw own (λ t. (c, e, h ∙ ap some same))
      | inr foreign ↦ rw foreign (λ now f a after served. looked_up-Safe m owner now after a served)
    ]

    fetched-Safe :
        (m : String) (now after : Slot) (a : Outcome Error ConfigMap)
        → Serves alive now (get_config_map cluster.namespace (config_map_name cluster.name)) a after
        → Evolves now after × Safe m (fetched json cluster m a) after
    unfolding fetched
    fetched-Safe m now after (ok c) served =
        (same-Evolves now after served.0, held_by-Safe m c _ after (served.0 ∙ served.1) refl)
    fetched-Safe m now after (err not_found) served =
        (same-Evolves now after served.0, create-Safe m _ after refl)
    fetched-Safe m now after (err _) served = (same-Evolves now after served.0, λ t. cc)

    lock-Safe : (m : String) (slot : Slot) → Safe m (lock json cluster m) slot
    unfolding lock
    lock-Safe m slot = λ now f a after served. fetched-Safe m now after a served

    -- What every run still has to do is safe in the present slot.
    abbrev AllSafe : System → Type 0
    AllSafe s = (m : String) (p : Program) → s.runs m ≡ some p → Safe m p s.slot

    update-Safe :
        (s : System) (m : String) (q : Program) (after : Slot)
        → AllSafe s
        → Evolves s.slot after
        → Safe m q after
        → AllSafe (record { slot = after; runs = update m q s.runs })
    update-Safe s m q after inv e safe n p h = elim (Bool-cases (n == m)) [
      | inl same ↦
          let same' : m ≡ n = sym ((eq_iff n m).0 same) in
          let this : some q ≡ some p = rw same at h in
          let whole : q ≡ p = cc in
          subst (λ k. Safe k p after) same' (subst (λ r. Safe m r after) whole safe)
      | inr other ↦
          let old : s.runs n ≡ some p = rw other at h in
          Safe-Evolves n p s.slot after e (inv n p old)
    ]

    Step-AllSafe : {s t : System} → Step s t → AllSafe s → AllSafe t
    Step-AllSafe {s} (begin m rest) inv =
        update-Safe s m (lock json cluster m) s.slot inv (λ c e. e) (lock-Safe m s.slot)
    Step-AllSafe {s} (answer m r k a after waits served) inv =
        let (evolved, safe) = inv m (call r k) waits s.slot (λ c e. e) a after served in
        update-Safe s m (k a) after inv evolved safe

    Reach-AllSafe : {first : Slot} {s : System} → Reach first s → AllSafe s
    Reach-AllSafe start = λ m p h. absurd (cc)
    Reach-AllSafe (next r st) = Step-AllSafe st (Reach-AllSafe r)

    owner_unique : (m n : String) (slot : Slot) → IsOwner json m slot → IsOwner json n slot → m ≡ n
    owner_unique m n slot (c, e, f) (d, g, h) =
        let same : c ≡ d = cc in
        let named : some m ≡ some n = sym f ∙ ap (information json) same ∙ h in cc

    -- While no machine is deleted, two machines whose latest runs of Lock both returned true are one
    -- machine, in whatever order the calls of all the runs reach the server and whichever of them
    -- fail; and the config map is there and names it.
    pub lock_exclusive :
        (first : Slot) (s : System) (m n : String)
        → Reach first s
        → s.runs m ≡ some (return true)
        → s.runs n ≡ some (return true)
        → (m ≡ n) × IsOwner json m s.slot
    lock_exclusive first s m n reached by_m by_n =
        let safe = Reach-AllSafe reached in
        let own = safe m (return true) by_m refl in
        (owner_unique m n s.slot own (safe n (return true) by_n refl), own)
