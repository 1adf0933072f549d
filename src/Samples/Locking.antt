-- ===== src/Samples/Locking.antt =====
-- Three machines of a cluster call Lock.
use cluster_api_k3s.Prelude.{
  String, Bool, true, false, none, some, List, [], ◌∷◌, any, inr, lookup, if◌then◌else◌, ◌==◌, ◌≡◌,
  refl, sym,
}
use cluster_api_k3s.Prelude.Exec.{ok, err}
use cluster_api_k3s.Api.{not_found}
use cluster_api_k3s.Samples.{cluster}
use cluster_api_k3s.Locking.{Json, JsonLaws, return, information, semaphore, lock, unlock}
use cluster_api_k3s.Locking.Server.{Slot}
use cluster_api_k3s.Locking.Exclusion.{
  IsOwner, System, never, begin, answer, Reach, start, next, lock_exclusive,
}
use cluster_api_k3s.Locking.Schedule.{play, play-Reach}
use cluster_api_k3s.Locking.Mutex.{
  LockOp, acquire, release, replay, run_all, Agrees, Represents, run_all-replay, twice,
  lock_progress,
}
use cluster_api_k3s.Locking.Alone.{run, lock_outcome, lock_lem, unlock_lem, lock-lock}

abbrev plain : Json
plain = record { marshal = λ n. some n; unmarshal = λ t. some t }

plain_laws : JsonLaws plain
plain_laws = record { unmarshal_marshal = λ n t e. sym e }

abbrev everyone : String → Bool
everyone m = true

abbrev held : Slot
held = some (semaphore plain cluster "m1")

one_holder : (s : System) × Reach plain cluster everyone none s × (s.runs "m1" ≡ some (return true))
unfolding lock
one_holder = (
  _,
  next
      (next (next start (begin "m1" never))
        (answer "m1" _ _ (err not_found) none refl (refl, refl)))
      (answer "m1" _ _ (ok tt) held refl (refl, refl)),
  refl,
)

lock_exclusive_example : ◌≡◌ {A = String} "m1" "m1" × IsOwner plain "m1" one_holder.0.slot
lock_exclusive_example =
    lock_exclusive plain cluster everyone plain_laws (λ n. refl) none one_holder.0 "m1" "m1"
      one_holder.1 one_holder.2 one_holder.2

lock_lem_example :
    run everyone (lock plain cluster "m2") held ≡ lock_outcome plain cluster everyone "m2" held
lock_lem_example = lock_lem plain cluster everyone "m2" held

unlock_lem_example : run everyone (unlock plain cluster) held ≡ (true, none)
unlock_lem_example = unlock_lem plain cluster everyone held

lock-lock_example :
    let (first, slot) = run everyone (lock plain cluster "m1") none in
    (first ≡ true) × (run everyone (lock plain cluster "m2") slot ≡ (false, slot))
lock-lock_example = lock-lock plain cluster everyone plain_laws "m1" "m2" "m1" refl refl refl

-- "m1" is gone.
abbrev others : String → Bool
others m = if m == "m1" then false else true

abbrev held_by : String → Slot
held_by m = some (semaphore plain cluster m)

-- Whose turn it is.
abbrev race : List String
race =
    "m2" ∷ "m2" ∷ "m2" ∷ "m2" ∷ "m4" ∷ "m4" ∷ "m4" ∷ "m4" ∷ "m4" ∷ "m3" ∷ "m3" ∷ "m3" ∷ "m2" ∷ "m4"
    ∷ "m4" ∷ "m4" ∷ []

-- Two machines hold the lock at once: "m2" and "m4" both find that the holder "m1" is gone, "m4"
-- deletes its config map, "m3" takes the free lock, "m2" deletes the config map of "m3", and "m4"
-- takes the lock that "m3" holds.
two_holders :
    (s : System) × Reach plain cluster others held s
    × (s.runs "m3" ≡ some (return true))
    × (s.runs "m4" ≡ some (return true))
unfolding play lock unlock information semaphore lookup
two_holders = (
  play plain cluster others (record { slot = held; runs = λ _. none }) race,
  play-Reach plain cluster others held _ race start,
  refl,
  refl,
)

named : Represents plain cluster held (some "m1")
unfolding semaphore information lookup
named = refl

abbrev ops : List LockOp
ops = acquire others "m2" ∷ release everyone ∷ acquire everyone "m1" ∷ []

run_all-replay_example :
    Agrees plain cluster (run_all plain cluster ops held) (replay ops (some "m1"))
run_all-replay_example =
    run_all-replay plain cluster plain_laws (λ n. (n, refl)) ops held (some "m1") named

lock_progress_example : any (λ b. b) (run_all plain cluster (twice others "m2") held).0 ≡ true
lock_progress_example =
    lock_progress plain cluster plain_laws (λ n. (n, refl)) others "m2" held (some "m1") named
      (inr refl)
