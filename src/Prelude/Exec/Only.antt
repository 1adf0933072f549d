-- ===== src/Prelude/Exec/Only.antt =====
-- Actions that record what they call: `Only calls C m` says that every call that `m` makes is in the
-- class `C`. So what no such call makes false holds after `m`, whether it returns or stops. One rule
-- for each way to build an action.
use mathlib.Core.Path.{◌≡◌}
use mathlib.Core.Bool.{Bool, true, false}
use mathlib.Core.List.{List, [], ◌∷◌}
use cluster_api_k3s.Prelude.Tests.{if◌then◌else◌}
use cluster_api_k3s.Prelude.Exec.{
  Outcome, ok, err, Exec, pure, stop, gets, lift, continue, ◌>>=◌, handled, catch, attempt,
  map_each, for_each,
}

pub record Only {S R E A : Type 0} (calls : S → List R) (C : R → Bool) (m : Exec S E A)
    : Type 1 where
  pub at :
      (F : List R → Type 0)
      → ((r : R) (rs : List R) → C r ≡ true → F rs → F (r ∷ rs))
      → (s : S) → F (calls s)
      → F (calls (m s).1)

module _ {S R E A : Type 0} {calls : S → List R} {C : R → Bool} where
  pub Only-pure : (a : A) → Only calls C (pure {S = S} {E = E} a)
  Only-pure a = record { at = λ F stable s f. f }

  pub Only-stop : (e : E) → Only calls C (stop {S = S} {A = A} e)
  Only-stop e = record { at = λ F stable s f. f }

  pub Only-gets : (g : S → A) → Only calls C (gets {E = E} g)
  Only-gets g = record { at = λ F stable s f. f }

  pub Only-lift : (r : Outcome E A) → Only calls C (lift {S = S} r)
  Only-lift r = record { at = λ F stable s f. f }

  pub Only-if :
      (b : Bool) (m n : Exec S E A)
      → Only calls C m
      → Only calls C n
      → Only calls C (if b then m else n)
  Only-if true m n om on = om
  Only-if false m n om on = on

module _ {S R E A B : Type 0} {calls : S → List R} {C : R → Bool} where
  continue-Only :
      (F : List R → Type 0)
      → ((r : R) (rs : List R) → C r ≡ true → F rs → F (r ∷ rs))
      → (r : Outcome E A × S) (f : A → Exec S E B) → ((a : A) → Only calls C (f a))
      → F (calls r.1)
      → F (calls (continue r f).1)
  continue-Only F stable (ok a, s) f of h = (of a).at F stable s h
  continue-Only F stable (err e, s) f of h = h

  pub Only-bind :
      (m : Exec S E A) (f : A → Exec S E B)
      → Only calls C m
      → ((a : A) → Only calls C (f a))
      → Only calls C (m >>= f)
  Only-bind m f om of = record {
    at = λ F stable s h. continue-Only F stable (m s) f of (om.at F stable s h);
  }

module _ {S R E F A : Type 0} {calls : S → List R} {C : R → Bool} where
  handled-Only :
      (P : List R → Type 0)
      → ((r : R) (rs : List R) → C r ≡ true → P rs → P (r ∷ rs))
      → (r : Outcome E A × S) (h : E → Exec S F A) → ((e : E) → Only calls C (h e))
      → P (calls r.1)
      → P (calls (handled r h).1)
  handled-Only P stable (ok a, s) h oh p = p
  handled-Only P stable (err e, s) h oh p = (oh e).at P stable s p

  pub Only-catch :
      (m : Exec S E A) (h : E → Exec S F A)
      → Only calls C m
      → ((e : E) → Only calls C (h e))
      → Only calls C (catch m h)
  Only-catch m h om oh = record {
    at = λ P stable s p. handled-Only P stable (m s) h oh (om.at P stable s p);
  }

  pub Only-attempt : (m : Exec S E A) → Only calls C m → Only calls C (attempt {F = F} m)
  Only-attempt m om = record { at = om.at }

module _ {S R E A B : Type 0} {calls : S → List R} {C : R → Bool} where
  pub Only-map_each :
      (f : A → Exec S E B) (xs : List A)
      → ((a : A) → Only calls C (f a))
      → Only calls C (map_each f xs)
  unfolding map_each
  Only-map_each f [] of = Only-pure []
  Only-map_each f (x ∷ xs) of =
      Only-bind (f x) _ (of x)
        (λ y. Only-bind (map_each f xs) _ (Only-map_each f xs of) (λ ys. Only-pure _))

module _ {S R E A : Type 0} {calls : S → List R} {C : R → Bool} where
  pub Only-for_each :
      (f : A → Exec S E Unit) (xs : List A)
      → ((a : A) → Only calls C (f a))
      → Only calls C (for_each f xs)
  unfolding for_each
  Only-for_each f [] of = Only-pure tt
  Only-for_each f (x ∷ xs) of = Only-bind (f x) _ (of x) (λ u. Only-for_each f xs of)

pub ruleset only_rules = (
  Only-pure, Only-stop, Only-gets, Only-lift, Only-if, Only-bind, Only-catch, Only-attempt,
  Only-map_each, Only-for_each,
)
