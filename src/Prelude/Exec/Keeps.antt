-- ===== src/Prelude/Exec/Keeps.antt =====
-- What an action leaves as it was, whether it returns or stops: one rule for each way to build an
-- action. And what follows where an action did change something.
use mathlib.Core.Path.{◌≡◌, refl, ◌∙◌, ap}
use mathlib.Core.Logic.{◌≢◌}
use mathlib.Core.Bool.{Bool, true, false}
use cluster_api_k3s.Prelude.Tests.{if◌then◌else◌}
use cluster_api_k3s.Prelude.Exec.{
  Outcome, ok, err, Exec, pure, stop, gets, lift, modify, continue, ◌>>=◌, handled, catch, attempt,
}

-- `m` leaves what `view` shows of the state.
pub record Keeps {S E A X : Type 0} (view : S → X) (m : Exec S E A) : Type 0 where
  pub at : (s : S) → view (m s).1 ≡ view s

module _ {S E A X : Type 0} {view : S → X} where
  pub Keeps-pure : (a : A) → Keeps view (pure {S = S} {E = E} a)
  Keeps-pure a = record { at = λ s. refl }

  pub Keeps-stop : (e : E) → Keeps view (stop {S = S} {A = A} e)
  Keeps-stop e = record { at = λ s. refl }

  pub Keeps-gets : (f : S → A) → Keeps view (gets {E = E} f)
  Keeps-gets f = record { at = λ s. refl }

  pub Keeps-lift : (r : Outcome E A) → Keeps view (lift {S = S} r)
  Keeps-lift r = record { at = λ s. refl }

  pub Keeps-if :
      (b : Bool) (m n : Exec S E A) → Keeps view m → Keeps view n → Keeps view (if b then m else n)
  Keeps-if true m n km kn = km
  Keeps-if false m n km kn = kn

module _ {S E X : Type 0} {view : S → X} where
  pub Keeps-modify : (f : S → S) → ((s : S) → view (f s) ≡ view s) → Keeps view (modify {E = E} f)
  Keeps-modify f h = record { at = h }

continue-changed :
    {S E A B X : Type 0} (view : S → X) (x : X) (r : Outcome E A × S) (f : A → Exec S E B)
    → view r.1 ≡ x
    → view (continue r f).1 ≢ x
    → (a : A) × (r.0 ≡ ok a) × (view (f a r.1).1 ≢ view r.1)
continue-changed view x (ok a, s) f same changed = (a, refl, λ e. changed (e ∙ same))
continue-changed view x (err e, s) f same changed = absurd (changed same)

module _ {S E A B X : Type 0} {view : S → X} where
  pub continue-Keeps :
      (r : Outcome E A × S) (f : A → Exec S E B)
      → ((a : A) → Keeps view (f a))
      → view (continue r f).1 ≡ view r.1
  continue-Keeps (ok a, s) f kf = (kf a).at s
  continue-Keeps (err e, s) f kf = refl

  pub Keeps-bind :
      (m : Exec S E A) (f : A → Exec S E B)
      → Keeps view m
      → ((a : A) → Keeps view (f a))
      → Keeps view (m >>= f)
  Keeps-bind m f km kf = record { at = λ s. continue-Keeps (m s) f kf ∙ km.at s }

  -- Where the whole changed the view and the first part does not, the first part returned and the
  -- rest changed it.
  pub changed_after :
      (m : Exec S E A) (f : A → Exec S E B) (s : S)
      → Keeps view m
      → view ((m >>= f) s).1 ≢ view s
      → (a : A) × ((m s).0 ≡ ok a) × (view (f a (m s).1).1 ≢ view (m s).1)
  changed_after m f s km changed = continue-changed view (view s) (m s) f (km.at s) changed

-- What runs after a first part that returned.
-- An action that goes on to another has returned, and comes to what the other comes to.
pub split_at :
    {S E A B : Type 0} (r : Outcome E A × S) (f : A → Exec S E B) (b : B)
    → (continue r f).0 ≡ ok b
    → (a : A) × (r.0 ≡ ok a) × (continue r f ≡ f a r.1)
split_at (ok a, s) f b h = (a, refl, refl)
split_at (err e, s) f b h = cc

pub continue-ok :
    {S E A B : Type 0} (r : Outcome E A × S) (f : A → Exec S E B) {a : A}
    → r.0 ≡ ok a
    → continue r f ≡ f a r.1
continue-ok (ok b, s) f {a} h = let same : b ≡ a = cc in ap (λ x. f x s) same
continue-ok (err e, s) f h = cc

module _ {S E F A X : Type 0} {view : S → X} where
  pub handled-Keeps :
      (r : Outcome E A × S) (h : E → Exec S F A)
      → ((e : E) → Keeps view (h e))
      → view (handled r h).1 ≡ view r.1
  handled-Keeps (ok a, s) h kh = refl
  handled-Keeps (err e, s) h kh = (kh e).at s

  pub Keeps-catch :
      (m : Exec S E A) (h : E → Exec S F A)
      → Keeps view m
      → ((e : E) → Keeps view (h e))
      → Keeps view (catch m h)
  Keeps-catch m h km kh = record { at = λ s. handled-Keeps (m s) h kh ∙ km.at s }

  pub Keeps-attempt : (m : Exec S E A) → Keeps view m → Keeps view (attempt {F = F} m)
  Keeps-attempt m km = record { at = km.at }

pub ruleset keeps_rules = (
  Keeps-pure, Keeps-stop, Keeps-gets, Keeps-lift, Keeps-if, Keeps-modify, Keeps-bind, Keeps-catch,
  Keeps-attempt,
)
