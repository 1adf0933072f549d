-- ===== src/Locking/Mutex.antt =====
-- The lock as its clients see it: a variable that holds the name of a machine or nothing. Whole runs
-- of Lock and Unlock, one after the other, refine it, while machines come and go between the runs.
use cluster_api_k3s.Prelude.{
  String, Bool, true, false, Option, none, some, List, [], ◌∷◌, any, lookup, if◌then◌else◌, ◌==◌,
  Bool-cases, inl, inr, ◌⊎◌, ◌≡◌, refl, sym, ap, ◌∙◌, subst,
}
use cluster_api_k3s.Api.{Cluster}
use cluster_api_k3s.Locking.{ConfigMap, Json, JsonLaws, information, semaphore, lock, unlock}
use cluster_api_k3s.Locking.Server.{Slot}
use cluster_api_k3s.Locking.Alone.{run, after_lock, taken, lock_lem, unlock_lem}

-- A run of Lock by a machine, with the machines that there are at that time, or a run of Unlock.
pub data LockOp : Type 0 where
  acquire : (String → Bool) → String → LockOp
  release : (String → Bool) → LockOp

abbrev pub followed : {A : Type 0} → Bool → List Bool × A → List Bool × A
followed b (bs, end) = (b ∷ bs, end)

-- The abstract lock.
abbrev pub acquired : (String → Bool) → String → Option String → Bool × Option String
acquired alive m none = (true, some m)
acquired alive m (some owner) =
    if owner == m
    then (true, some owner)
    else if alive owner
    then (false, some owner)
    else (false, none)

unfoldable pub replay : List LockOp → Option String → List Bool × Option String
replay [] holder = ([], holder)
replay (acquire alive m ∷ ops) holder =
    let (b, after) = acquired alive m holder in followed b (replay ops after)
replay (release alive ∷ ops) holder = followed true (replay ops none)

module _ (json : Json) (cluster : Cluster) where
  -- The code's lock.
  unfoldable pub run_all : List LockOp → Slot → List Bool × Slot
  run_all [] slot = ([], slot)
  run_all (acquire alive m ∷ ops) slot =
      let (b, after) = run alive (lock json cluster m) slot in followed b (run_all ops after)
  run_all (release alive ∷ ops) slot =
      let (b, after) = run alive (unlock json cluster) slot in followed b (run_all ops after)

  -- The config map names the holder, and there is none where nobody holds the lock.
  abbrev pub Represents : Slot → Option String → Type 0
  Represents none none = Unit
  Represents none (some owner) = ⊥
  Represents (some c) none = ⊥
  Represents (some c) (some owner) = information json c ≡ some owner

  abbrev pub Agrees : {R : Type 0} → R × Slot → R × Option String → Type 0
  Agrees (x, slot) (y, holder) = (x ≡ y) × Represents slot holder

  module _ (laws : JsonLaws json)
      (writable : (n : String) → (t : String) × (json.marshal n ≡ some t)) where
    lock-acquired :
        (alive : String → Bool) (m : String) (slot : Slot) (holder : Option String)
        → Represents slot holder
        → Agrees (run alive (lock json cluster m) slot) (acquired alive m holder)
    lock-acquired alive m none none r =
        let (text, e) = writable m in
        let held : run alive (lock json cluster m) none
            ≡ (true, some (semaphore json cluster text)) =
          lock_lem json cluster alive m none ∙ ap (taken json cluster) e in
        let named : information json (semaphore json cluster text) ≡ some m =
          unfold information semaphore lookup in laws.unmarshal_marshal m text e in
        subst (λ x. Agrees x (true, some m)) (sym held) (refl, named)
    lock-acquired alive m none (some owner) r = absurd r
    lock-acquired alive m (some c) none r = absurd r
    lock-acquired alive m (some c) (some owner) r =
        let outcome : run alive (lock json cluster m) (some c)
            ≡ after_lock alive m (some c) (some owner) =
          lock_lem json cluster alive m (some c) ∙ ap (after_lock alive m (some c)) r in
        subst (λ x. Agrees x (acquired alive m (some owner))) (sym outcome)
          (branch alive m c owner (owner == m) (alive owner) r)
      where
        branch :
            (alive : String → Bool) (m : String) (c : ConfigMap) (owner : String) (own there : Bool)
            → information json c ≡ some owner
            → Agrees
                (if own then (true, some c) else if there then (false, some c) else (false, none))
                (if own
                  then (true, some owner)
                  else if there
                  then (false, some owner)
                  else (false, none))
        branch alive m c owner true there r = (refl, r)
        branch alive m c owner false true r = (refl, r)
        branch alive m c owner false false r = (refl, tt)

    agree-followed :
        (b : Bool) (x : List Bool × Slot) (y : List Bool × Option String)
        → Agrees x y
        → Agrees (followed b x) (followed b y)
    agree-followed b (bs, slot) (cs, holder) (e, r) = (ap (λ z. b ∷ z) e, r)

    next-Agrees :
        (ops : List LockOp) (x : Bool × Slot) (y : Bool × Option String)
        → ((slot : Slot) (holder : Option String)
            → Represents slot holder
            → Agrees (run_all ops slot) (replay ops holder))
        → Agrees x y
        → Agrees (followed x.0 (run_all ops x.1)) (followed y.0 (replay ops y.1))
    next-Agrees ops (b, slot) (b', holder) rest (e, r) =
        subst (λ z. Agrees (followed b (run_all ops slot)) (followed z (replay ops holder))) e
          (agree-followed b (run_all ops slot) (replay ops holder) (rest slot holder r))

    -- Where every name can be written as JSON and read back: over any sequence of whole runs of Lock
    -- and Unlock, from a config map that represents the holder, every run returns what the abstract
    -- lock answers, and the config map represents its holder again.
    pub run_all-replay :
        (ops : List LockOp) (slot : Slot) (holder : Option String)
        → Represents slot holder
        → Agrees (run_all ops slot) (replay ops holder)
    unfolding run_all replay
    run_all-replay [] slot holder r = (refl, r)
    run_all-replay (acquire alive m ∷ ops) slot holder r =
        next-Agrees ops _ _ (run_all-replay ops) (lock-acquired alive m slot holder r)
    run_all-replay (release alive ∷ ops) slot holder r =
        next-Agrees ops _ (true, none) (run_all-replay ops)
          (subst (λ x. Agrees x (true, none)) (sym (unlock_lem json cluster alive slot)) (refl, tt))

-- The machine may have the lock: it holds it, nobody does, or the one that does is gone.
abbrev pub Available : (String → Bool) → String → Option String → Type 0
Available alive m none = Unit
Available alive m (some owner) = ((owner == m) ≡ true) ⊎ (alive owner ≡ false)

abbrev pub twice : (String → Bool) → String → List LockOp
twice alive m = acquire alive m ∷ acquire alive m ∷ []

replay-twice :
    (alive : String → Bool) (m : String) (holder : Option String)
    → Available alive m holder
    → any (λ b. b) (replay (twice alive m) holder).0 ≡ true
unfolding replay
replay-twice alive m none a = refl
replay-twice alive m (some owner) a = elim (Bool-cases (owner == m)) [
  | inl own ↦ rw own refl
  | inr foreign ↦ elim a [ inl own ↦ absurd cc | inr gone ↦ rw (foreign, gone) refl ]
]

-- A machine that may have the lock gets it within two whole runs of Lock, where nobody else calls Lock
-- or Unlock meanwhile and every name can be written as JSON and read back.
pub lock_progress :
    (json : Json) (cluster : Cluster)
    → JsonLaws json
    → ((n : String) → (t : String) × (json.marshal n ≡ some t))
    → (alive : String → Bool) (m : String) (slot : Slot) (holder : Option String)
    → Represents json cluster slot holder
    → Available alive m holder
    → any (λ b. b) (run_all json cluster (twice alive m) slot).0 ≡ true
lock_progress json cluster laws writable alive m slot holder r a =
    ap (any (λ b. b)) (run_all-replay json cluster laws writable (twice alive m) slot holder r).0
    ∙ replay-twice alive m holder a
