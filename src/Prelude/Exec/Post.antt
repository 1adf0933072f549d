-- ===== src/Prelude/Exec/Post.antt =====
-- What holds after an action that starts where `P` holds: `Q` of its value and the state where it
-- returns, and `X` of the error and the state where it stops. One rule for each way to build an action.
use mathlib.Core.Path.{◌≡◌, refl, sym, subst, ◌∙◌}
use mathlib.Core.List.{List, ◌∷◌}
use mathlib.Core.Bool.{Bool, true, false}
use cluster_api_k3s.Prelude.Tests.{if◌then◌else◌}
use cluster_api_k3s.Prelude.Exec.Keeps.{Keeps}
use cluster_api_k3s.Prelude.Exec.Only.{Only}
use cluster_api_k3s.Prelude.Exec.{Outcome, ok, err, Exec, continue, ◌>>=◌, handled, catch}

abbrev pub Holds : {S E A : Type 0} → (A → S → Type 0) → (E → S → Type 0) → Outcome E A × S → Type 0
Holds Q X (ok a, s) = Q a s
Holds Q X (err e, s) = X e s

abbrev pub Always : {S : Type 0} → S → Type 0
Always s = Unit

abbrev pub Anyhow : {S E : Type 0} → E → S → Type 0
Anyhow e s = Unit

pub record Ensures {S E A : Type 0} (P : S → Type 0) (m : Exec S E A) (Q : A → S → Type 0)
    (X : E → S → Type 0) : Type 0 where
  pub at : (s : S) → P s → Holds Q X (m s)

pub Holds-continue :
    {S E A B : Type 0} (r : Outcome E A × S) (f : A → Exec S E B) (Q : A → S → Type 0)
    (R : B → S → Type 0) (X : E → S → Type 0)
    → Holds Q X r
    → ((a : A) (s : S) → Q a s → Holds R X (f a s))
    → Holds R X (continue r f)
Holds-continue (ok a, s) f Q R X q h = h a s q
Holds-continue (err e, s) f Q R X x h = x

pub Holds-handled :
    {S E F A : Type 0} (r : Outcome E A × S) (h : E → Exec S F A) (Q : A → S → Type 0)
    (X : E → S → Type 0) (Y : F → S → Type 0)
    → Holds Q X r
    → ((e : E) (s : S) → X e s → Holds Q Y (h e s))
    → Holds Q Y (handled r h)
Holds-handled (ok a, s) h Q X Y q f = q
Holds-handled (err e, s) h Q X Y x f = f e s x

pub Holds-weaken :
    {S E A : Type 0} (r : Outcome E A × S) (Q R : A → S → Type 0) (X Y : E → S → Type 0)
    → Holds Q X r
    → ((a : A) (s : S) → Q a s → R a s)
    → ((e : E) (s : S) → X e s → Y e s)
    → Holds R Y r
Holds-weaken (ok a, s) Q R X Y q f g = f a s q
Holds-weaken (err e, s) Q R X Y x f g = g e s x

pub Holds-ok :
    {S E A : Type 0} (r : Outcome E A × S) (Q : A → S → Type 0) (X : E → S → Type 0) (a : A)
    → Holds Q X r
    → r.0 ≡ ok a
    → Q a r.1
Holds-ok (ok b, s) Q X a q h = let same : b ≡ a = cc in subst (λ x. Q x s) same q
Holds-ok (err e, s) Q X a q h = cc

pub Holds-err :
    {S E A : Type 0} (r : Outcome E A × S) (Q : A → S → Type 0) (X : E → S → Type 0) (e : E)
    → Holds Q X r
    → r.0 ≡ err e
    → X e r.1
Holds-err (ok b, s) Q X e q h = cc
Holds-err (err d, s) Q X e q h = let same : d ≡ e = cc in subst (λ x. X x s) same q

module _ {S E A B : Type 0} {P : S → Type 0} {X : E → S → Type 0} where
  pub Ensures-bind :
      (m : Exec S E A) (f : A → Exec S E B) (Q : A → S → Type 0) (R : B → S → Type 0)
      → Ensures P m Q X
      → ((a : A) → Ensures (Q a) (f a) R X)
      → Ensures P (m >>= f) R X
  Ensures-bind m f Q R em ef = record {
    at = λ s p. Holds-continue (m s) f Q R X (em.at s p) (λ a t q. (ef a).at t q);
  }

module _ {S E F A : Type 0} {P : S → Type 0} {Q : A → S → Type 0} where
  pub Ensures-catch :
      (m : Exec S E A) (h : E → Exec S F A) (X : E → S → Type 0) (Y : F → S → Type 0)
      → Ensures P m Q X
      → ((e : E) → Ensures (X e) (h e) Q Y)
      → Ensures P (catch m h) Q Y
  Ensures-catch m h X Y em eh = record {
    at = λ s p. Holds-handled (m s) h Q X Y (em.at s p) (λ e t x. (eh e).at t x);
  }

module _ {S E A : Type 0} where
  pub Holds-if :
      (Q : A → S → Type 0) (X : E → S → Type 0) (b : Bool) (m n : Exec S E A) (s : S)
      → (b ≡ true → Holds Q X (m s))
      → (b ≡ false → Holds Q X (n s))
      → Holds Q X ((if b then m else n) s)
  Holds-if Q X true m n s hm hn = hm refl
  Holds-if Q X false m n s hm hn = hn refl

  pub Ensures-if :
      {P : S → Type 0} {Q : A → S → Type 0} {X : E → S → Type 0} (b : Bool) (m n : Exec S E A)
      → (b ≡ true → Ensures P m Q X)
      → (b ≡ false → Ensures P n Q X)
      → Ensures P (if b then m else n) Q X
  Ensures-if true m n em en = em refl
  Ensures-if false m n em en = en refl

  pub Ensures-weaken :
      {P P' : S → Type 0} (m : Exec S E A) (Q R : A → S → Type 0) (X Y : E → S → Type 0)
      → Ensures P m Q X
      → ((s : S) → P' s → P s)
      → ((a : A) (s : S) → Q a s → R a s)
      → ((e : E) (s : S) → X e s → Y e s)
      → Ensures P' m R Y
  Ensures-weaken m Q R X Y em p f g = record {
    at = λ s p'. Holds-weaken (m s) Q R X Y (em.at s (p s p')) f g;
  }

Holds-and :
    {S E A : Type 0} (r : Outcome E A × S) (Q R : A → S → Type 0) (X Y : E → S → Type 0)
    → Holds Q X r
    → Holds R Y r
    → Holds (λ a s. Q a s × R a s) (λ e s. X e s × Y e s) r
Holds-and (ok a, s) Q R X Y q r = (q, r)
Holds-and (err e, s) Q R X Y x y = (x, y)

Holds-always :
    {S E A : Type 0} (F : S → Type 0) (r : Outcome E A × S) → F r.1 → Holds (λ a. F) (λ e. F) r
Holds-always F (ok a, s) f = f
Holds-always F (err e, s) f = f

module _ {S E A : Type 0} where
  pub Ensures-and :
      {P P' : S → Type 0} (m : Exec S E A) (Q R : A → S → Type 0) (X Y : E → S → Type 0)
      → Ensures P m Q X
      → Ensures P' m R Y
      → Ensures (λ s. P s × P' s) m (λ a s. Q a s × R a s) (λ e s. X e s × Y e s)
  Ensures-and m Q R X Y em en = record {
    at = λ s (p, p'). Holds-and (m s) Q R X Y (em.at s p) (en.at s p');
  }

  -- what the action leaves, as a condition before and after it
  pub Keeps-Ensures :
      {V : Type 0} (view : S → V) (v : V) (m : Exec S E A)
      → Keeps view m
      → Ensures (λ s. view s ≡ v) m (λ a s. view s ≡ v) (λ e s. view s ≡ v)
  Keeps-Ensures view v m k = record {
    at = λ s p. Holds-always (λ t. view t ≡ v) (m s) (k.at s ∙ p);
  }

  pub Only-Ensures :
      {R : Type 0} (calls : S → List R) (C : R → Bool) (F : List R → Type 0) (m : Exec S E A)
      → ((r : R) (rs : List R) → C r ≡ true → F rs → F (r ∷ rs))
      → Only calls C m
      → Ensures (λ s. F (calls s)) m (λ a s. F (calls s)) (λ e s. F (calls s))
  Only-Ensures calls C F m stable o = record {
    at = λ s f. Holds-always (λ t. F (calls t)) (m s) (o.at F stable s f);
  }

  pub Keeps-any :
      {V : Type 0} (view : S → V) (F : V → Type 0) (m : Exec S E A)
      → Keeps view m
      → Ensures (λ s. F (view s)) m (λ a s. F (view s)) (λ e s. F (view s))
  Keeps-any view F m k = record {
    at = λ s f. Holds-always (λ t. F (view t)) (m s) (subst F (sym (k.at s)) f);
  }
