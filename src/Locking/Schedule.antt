-- ===== src/Locking/Schedule.antt =====
-- Reachable states by evaluation: the machines of a list take a turn each, with a server that answers
-- well. A turn is the start of a run of Lock or one call of it.
use cluster_api_k3s.Prelude.{
  String, Bool, true, false, Option, none, some, List, [], ◌∷◌, if◌then◌else◌, ◌≡◌, refl,
}
use cluster_api_k3s.Prelude.Exec.{ok, err}
use cluster_api_k3s.Api.{not_found, Cluster}
use cluster_api_k3s.Locking.{
  Request, get_config_map, get_machine, create_config_map, delete_config_map, Program, return, call,
  Json, lock,
}
use cluster_api_k3s.Locking.Server.{Slot, Serves}
use cluster_api_k3s.Locking.Exclusion.{
  System, never, returned, update, Step, begin, answer, Reach, next,
}
use cluster_api_k3s.Locking.Alone.{respond}

module _ (json : Json) (cluster : Cluster) (alive : String → Bool) where
  get_machine-Serves :
      (slot : Slot) (namespace name : String) (there : Bool)
      → alive name ≡ there
      → Serves alive slot (get_machine namespace name) (if there then ok tt else err not_found) slot
  get_machine-Serves slot namespace name true e = (refl, e)
  get_machine-Serves slot namespace name false e = (refl, e)

  respond-Serves :
      (slot : Slot) (r : Request)
      → Serves alive slot r (respond alive slot r).0 (respond alive slot r).1
  respond-Serves none (get_config_map namespace name) = (refl, refl)
  respond-Serves (some c) (get_config_map namespace name) = (refl, refl)
  respond-Serves slot (get_machine namespace name) =
      get_machine-Serves slot namespace name (alive name) refl
  respond-Serves none (create_config_map c) = (refl, refl)
  respond-Serves (some d) (create_config_map c) = refl
  respond-Serves none (delete_config_map c) = (refl, refl)
  respond-Serves (some d) (delete_config_map c) = refl

  move : System → String → Option Program → System
  move s m none = record s { runs = update m (lock json cluster m) s.runs }
  move s m (some (return b)) = record s { runs = update m (lock json cluster m) s.runs }
  move s m (some (call r k)) =
      let (a, after) = respond alive s.slot r in
      record { slot = after; runs = update m (k a) s.runs }

  move-Step :
      (s : System) (m : String) (o : Option Program)
      → s.runs m ≡ o
      → Step json cluster alive s (move s m o)
  unfolding move
  move-Step s m none e = begin m (rw e never)
  move-Step s m (some (return b)) e = begin m (rw e (returned b))
  move-Step s m (some (call r k)) e =
      answer m r k (respond alive s.slot r).0 (respond alive s.slot r).1 e (respond-Serves s.slot r)

  unfoldable pub play : System → List String → System
  unfolding move
  play s [] = s
  play s (m ∷ ms) = play (move s m (s.runs m)) ms

  pub play-Reach :
      (first : Slot) (s : System) (ms : List String)
      → Reach json cluster alive first s
      → Reach json cluster alive first (play s ms)
  unfolding play
  play-Reach first s [] r = r
  play-Reach first s (m ∷ ms) r =
      play-Reach first (move s m (s.runs m)) ms (next r (move-Step s m (s.runs m) refl))
