-- ===== src/Secrets/Certificates/Loops.antt =====
-- Rules for loops whose steps only make requests, and none that updates a secret: what is stored
-- stays stored while the loop goes on.
use cluster_api_k3s.Prelude.{Bool, true, false, List, [], ◌∷◌, ◌≡◌}
use cluster_api_k3s.Prelude.Exec.{Outcome, ok, err, map_each, for_each}
use cluster_api_k3s.Prelude.Exec.Post.{Holds, Ensures, Holds-continue, Holds-weaken, Anyhow}
use cluster_api_k3s.Api.{Error, Request, Requests, update_secret, Io, ask}

abbrev pub is_update : Request → Bool
is_update (update_secret s) = true
is_update r = false

-- What no request but an update can make false.
pub record Stable (F : Requests → Type 0) : Type 0 where
  pub at : (r : Request) (rs : Requests) → is_update r ≡ false → F rs → F (r ∷ rs)

pub Stable-× : (F G : Requests → Type 0) → Stable F → Stable G → Stable (λ rs. F rs × G rs)
Stable-× F G f g = record { at = λ r rs u (a, b). (f.at r rs u a, g.at r rs u b) }

answer-Holds :
    {A : Type 0} (F : Requests → Type 0) (a : Outcome Error A) (rs : Requests)
    → F rs
    → Holds (λ x. F) Anyhow (a, rs)
answer-Holds F (ok x) rs f = f
answer-Holds F (err e) rs f = tt

pub ask-Ensures :
    {A : Type 0} (F : Requests → Type 0)
    → Stable F
    → (r : Request) (answer : Requests → Outcome Error A) → is_update r ≡ false
    → Ensures F (ask r answer) (λ x. F) Anyhow
unfolding ask
ask-Ensures F stable r answer u = record {
  at = λ rs f. answer-Holds F (answer rs) (r ∷ rs) (stable.at r rs u f);
}

-- Of each element of a list.
abbrev pub Each : {A : Type 0} → (A → Requests → Type 0) → List A → Requests → Type 0
Each P [] rs = Unit
Each P (x ∷ xs) rs = P x rs × Each P xs rs

-- Of the elements of two lists, one by one.
abbrev pub Both : {A B : Type 0} → (A → B → Requests → Type 0) → List A → List B → Requests → Type 0
Both Q [] [] rs = Unit
Both Q [] (y ∷ ys) rs = ⊥
Both Q (x ∷ xs) [] rs = ⊥
Both Q (x ∷ xs) (y ∷ ys) rs = Q x y rs × Both Q xs ys rs

module _ {A : Type 0} (P : A → Requests → Type 0) (stable : (a : A) → Stable (P a)) where
  pub Stable-Each : (xs : List A) → Stable (Each P xs)
  Stable-Each [] = record { at = λ r rs u e. tt }
  Stable-Each (x ∷ xs) = Stable-× (P x) (Each P xs) (stable x) (Stable-Each xs)

  module _ {B : Type 0} (Q : A → B → Requests → Type 0) (f : A → Io B)
      (kept : (a : A) (b : B) → Stable (Q a b))
      (step : (F : Requests → Type 0)
        → Stable F
        → (a : A) → Ensures (λ rs. F rs × P a rs) (f a) (λ b rs. F rs × Q a b rs) Anyhow) where
    pub map_each-Ensures :
        (F : Requests → Type 0)
        → Stable F
        → (xs : List A)
        → Ensures
            (λ rs. F rs × Each P xs rs)
            (map_each f xs)
            (λ ys rs. F rs × Both Q xs ys rs)
            Anyhow
    unfolding map_each
    map_each-Ensures F sf [] = record { at = λ rs h. h }
    map_each-Ensures F sf (x ∷ xs) = record {
      at = λ rs (h, (p, ps)).
          let first =
            step (λ t. F t × Each P xs t) (Stable-× F (Each P xs) sf (Stable-Each xs)) x in
          Holds-continue (f x rs) (λ y. _) _ _ Anyhow (first.at rs ((h, ps), p))
            λ y rs1 ((h1, ps1), q).
              let rest =
                map_each-Ensures (λ t. F t × Q x y t) (Stable-× F (Q x y) sf (kept x y)) xs in
              Holds-continue (map_each f xs rs1) (λ ys. _) _ _ Anyhow (rest.at rs1 ((h1, q), ps1))
                λ ys rs2 ((h2, q2), qs). (h2, (q2, qs));
    }

  module _ (R : A → Requests → Type 0) (f : A → Io Unit) (kept : (a : A) → Stable (R a))
      (step : (F : Requests → Type 0)
        → Stable F
        → (a : A) → Ensures (λ rs. F rs × P a rs) (f a) (λ u rs. F rs × R a rs) Anyhow) where
    pub for_each-Ensures :
        (F : Requests → Type 0)
        → Stable F
        → (xs : List A)
        → Ensures (λ rs. F rs × Each P xs rs) (for_each f xs) (λ u rs. F rs × Each R xs rs) Anyhow
    unfolding for_each
    for_each-Ensures F sf [] = record { at = λ rs h. h }
    for_each-Ensures F sf (x ∷ xs) = record {
      at = λ rs (h, (p, ps)).
          let first =
            step (λ t. F t × Each P xs t) (Stable-× F (Each P xs) sf (Stable-Each xs)) x in
          Holds-continue (f x rs) (λ u. _) _ _ Anyhow (first.at rs ((h, ps), p))
            λ u rs1 ((h1, ps1), q).
              let rest = for_each-Ensures (λ t. F t × R x t) (Stable-× F (R x) sf (kept x)) xs in
              Holds-weaken (for_each f xs rs1) (λ v t. (F t × R x t) × Each R xs t)
                (λ v t. F t × (R x t × Each R xs t)) Anyhow Anyhow (rest.at rs1 ((h1, q), ps1))
                (λ v rs2 ((h2, q2), qs). (h2, (q2, qs))) (λ e rs2 u. u);
    }
