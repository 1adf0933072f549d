-- ===== src/Bootstrap/Initializing/Locked.antt =====
-- The initialisation lock during handleClusterNotInitialized: what is written while it is held, and
-- who has it afterwards.
use cluster_api_k3s.Prelude.{
  Bool, true, false, none, some, [], ◌∷◌, inl, inr, ◌⊎◌, ◌≡◌, refl, not, if◌then◌else◌, ◌||◌, arith,
}
use cluster_api_k3s.Prelude.Exec.{Outcome, ok, err, pure, stop, catch, lift}
use cluster_api_k3s.Prelude.Exec.Keeps.{Keeps, keeps_rules}
use cluster_api_k3s.Prelude.Exec.Post.{
  Holds, Ensures, Ensures-bind, Ensures-catch, Only-Ensures, Keeps-any, Ensures-if, Ensures-weaken,
}
use cluster_api_k3s.Api.{
  Error, failed_unlock, aggregate, Cluster, ConfigOwner, OwnerMachine, Request, Requests,
  create_secret, update_secret, lock, unlock, ManagementClient,
}
use cluster_api_k3s.Controllers.{CtrlResult, zero_result, requeued_after, Return}
use cluster_api_k3s.Bootstrap.{BootstrapLibrary, mark_false, BootstrapSession, BootstrapHandler}
use cluster_api_k3s.Bootstrap.Effects.{lockless, made, initialize-Only}
use cluster_api_k3s.Bootstrap.Initializing.{
  initialize, unlock_after, with_lock, mark_waiting, take_lock, finish_after, or_return_error,
  handle_cluster_not_initialized,
}

module _ (client : ManagementClient) (cluster : Cluster) where
  -- Whether a Lock has returned true that no Unlock since then has released.
  abbrev pub holder : Requests → Bool
  holder [] = false
  holder (lock n ∷ rs) = client.lock rs cluster n || holder rs
  holder (unlock ∷ rs) = if client.unlock rs cluster then false else holder rs
  holder (r ∷ rs) = holder rs

  -- Every secret was written while the lock was held.
  abbrev pub WritesUnderLock : Requests → Type 0
  WritesUnderLock [] = Unit
  WritesUnderLock (create_secret x ∷ rs) = (holder rs ≡ true) × WritesUnderLock rs
  WritesUnderLock (update_secret x ∷ rs) = (holder rs ≡ true) × WritesUnderLock rs
  WritesUnderLock (r ∷ rs) = WritesUnderLock rs

  abbrev pub IsHeld : Requests → Type 0
  IsHeld rs = (holder rs ≡ true) × WritesUnderLock rs

  IsHeld-stable : (r : Request) (rs : Requests) → lockless r ≡ true → IsHeld rs → IsHeld (r ∷ rs)
  IsHeld-stable (create_secret x) rs l (h, w) = (h, (h, w))
  IsHeld-stable (update_secret x) rs l (h, w) = (h, (h, w))
  IsHeld-stable (lock n) rs l (h, w) = absurd cc
  IsHeld-stable unlock rs l (h, w) = absurd cc
  IsHeld-stable r rs l (h, w) = (h, w)

  abbrev pub IsFree : Requests → Type 0
  IsFree rs = (holder rs ≡ false) × WritesUnderLock rs

  -- released, or the release itself failed
  abbrev pub IsReleased : Error → Requests → Type 0
  IsReleased e rs =
      WritesUnderLock rs
      × ((holder rs ≡ false) ⊎ ((first : Error) × (e ≡ aggregate first failed_unlock)))

  abbrev pub AfterReturn : Return → Requests → Type 0
  AfterReturn (r, none) rs = IsFree rs
  AfterReturn (r, some e) rs = IsReleased e rs

  IsFree-AfterReturn : (r : Return) (rs : Requests) → IsFree rs → AfterReturn r rs
  IsFree-AfterReturn (r, none) rs f = f
  IsFree-AfterReturn (r, some e) rs (free, w) = (w, inl free)

  -- What requests nothing leaves the lock free.
  Keeps-IsFree :
      {A : Type 0} (m : BootstrapHandler A)
      → Keeps made m
      → Ensures
          (λ s. IsFree s.requests)
          m
          (λ a s. IsFree s.requests)
          (λ r s. AfterReturn r s.requests)
  Keeps-IsFree m k =
      Ensures-weaken m (λ a s. IsFree s.requests) (λ a s. IsFree s.requests)
        (λ r s. IsFree s.requests) (λ r s. AfterReturn r s.requests) (Keeps-any made IsFree m k)
        (λ s f. f) (λ a s f. f) (λ r s f. IsFree-AfterReturn r s.requests f)

  module _ (lib : BootstrapLibrary) where
    unlocked-IsReleased :
        (s : BootstrapSession) (e : Error) (b : Bool)
        → client.unlock s.requests cluster ≡ b
        → IsHeld s.requests
        → Holds
            (λ (u : Unit) t. IsHeld t.requests)
            (λ e' t. IsReleased e' t.requests)
            ((if b then stop e else stop (aggregate e failed_unlock))
              (record s { requests = unlock ∷ s.requests }))
    unlocked-IsReleased s e true h (held, w) = (w, inl (rw h refl))
    unlocked-IsReleased s e false h (held, w) = (w, inr (e, refl))

    unlock_after-Ensures :
        (e : Error)
        → Ensures
            (λ s. IsHeld s.requests)
            (unlock_after lib client cluster e)
            (λ u s. IsHeld s.requests)
            (λ e' s. IsReleased e' s.requests)
    unfolding unlock_after
    unlock_after-Ensures e = record { at = λ s h. unlocked-IsReleased s e _ refl h }

    with_lock-Ensures :
        (machine : OwnerMachine)
        → Ensures
            (λ s. IsHeld s.requests)
            (with_lock lib client cluster machine)
            (λ r s. IsHeld s.requests)
            (λ r s. AfterReturn r s.requests)
    unfolding with_lock
    with_lock-Ensures machine =
        Ensures-bind _ (λ u. pure zero_result) (λ u s. IsHeld s.requests) (λ r s. IsHeld s.requests)
          (Ensures-catch
            (catch (initialize lib client cluster machine) (unlock_after lib client cluster)) _
            (λ e s. IsReleased e s.requests) (λ r s. AfterReturn r s.requests)
            (Ensures-catch (initialize lib client cluster machine) _ (λ e s. IsHeld s.requests)
              (λ e s. IsReleased e s.requests)
              (Only-Ensures made lockless IsHeld _ IsHeld-stable
                (initialize-Only lib client cluster machine))
              unlock_after-Ensures)
            (λ e. record { at = λ s x. x }))
          (λ u. record { at = λ s h. h })

    after_lock :
        (machine : OwnerMachine) (s : BootstrapSession) (b : Bool)
        → client.lock s.requests cluster machine.name ≡ b
        → IsFree s.requests
        → Holds
            (λ (r : CtrlResult) t. IsHeld t.requests)
            (λ r t. AfterReturn r t.requests)
            ((if not b
                then finish_after (requeued_after 30)
                else with_lock lib client cluster machine)
              (record s { requests = lock machine.name ∷ s.requests }))
    after_lock machine s true h (free, w) =
        (with_lock-Ensures machine).at (record s { requests = lock machine.name ∷ s.requests })
          (ground arith, w)
    after_lock machine s false h (free, w) = (ground arith, w)

    mark_waiting-Keeps : {E : Type 0} → Keeps made (mark_waiting lib client {E = E})
    unfolding mark_waiting mark_false
    mark_waiting-Keeps = search keeps_rules depth 6

    handle-Ensures :
        (owner : ConfigOwner)
        → Ensures
            (λ s. IsFree s.requests)
            (handle_cluster_not_initialized lib client cluster owner)
            (λ r s. IsHeld s.requests)
            (λ r s. AfterReturn r s.requests)
    unfolding handle_cluster_not_initialized take_lock
    handle-Ensures owner =
        Ensures-bind (mark_waiting lib client) _ (λ u s. IsFree s.requests)
          (λ r s. IsHeld s.requests) (Keeps-IsFree _ mark_waiting-Keeps)
          λ u.
            Ensures-if (not owner.is_control_plane_machine) _ _ (λ h. record { at = λ s f. f })
              λ h.
                Ensures-bind (or_return_error (lift (lib.to_machine owner))) _
                  (λ m s. IsFree s.requests) (λ r s. IsHeld s.requests)
                  (Keeps-IsFree _ (search keeps_rules depth 4))
                  λ machine. record { at = λ s f. after_lock machine s _ refl f }

    -- What a run to the end and an early return say of the lock.
    abbrev pub AfterHandling : Outcome Return CtrlResult → Requests → Type 0
    AfterHandling (ok r) rs = IsHeld rs
    AfterHandling (err r) rs = AfterReturn r rs

    Holds-AfterHandling :
        (r : Outcome Return CtrlResult × BootstrapSession)
        → Holds (λ a s. IsHeld s.requests) (λ r s. AfterReturn r s.requests) r
        → AfterHandling r.0 r.1.requests
    Holds-AfterHandling (ok r, s) h = h
    Holds-AfterHandling (err r, s) h = h

    -- Let the lock not be held and no secret written without it before. Then, whatever the calls
    -- answer, handleClusterNotInitialized writes secrets only while it holds the lock. If it runs to
    -- its end, the lock is still held; if it returns early without an error, the lock is not held;
    -- and if it returns an error, the lock is not held, or the error says that its release failed.
    pub handle_cluster_not_initialized-WritesUnderLock :
        (owner : ConfigOwner) (s : BootstrapSession)
        → holder s.requests ≡ false
        → WritesUnderLock s.requests
        → AfterHandling
            (handle_cluster_not_initialized lib client cluster owner s).0
            (handle_cluster_not_initialized lib client cluster owner s).1.requests
    handle_cluster_not_initialized-WritesUnderLock owner s free w =
        Holds-AfterHandling (handle_cluster_not_initialized lib client cluster owner s)
          ((handle-Ensures owner).at s (free, w))
