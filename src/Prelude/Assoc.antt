-- ===== src/Prelude/Assoc.antt =====
-- Go's `map[string]T` with string keys, as an association list: a later write shadows, a delete
-- removes every entry of the key. The code never depends on the order of such a map.
use Prim.Native.String.{String}
use mathlib.Core.Path.{◌≡◌, refl}
use mathlib.Core.Option.{Option, none, some}
use mathlib.Core.List.{List, [], ◌∷◌}
use native.Mathlib.Omega.{arith}
use text.Mathlib.Text.{◌==◌}
use text.Mathlib.TextEquality.{eq_iff}
use cluster_api_k3s.Prelude.Tests.{if◌then◌else◌}

abbrev pub Dict {ℓ} : Type ℓ → Type ℓ
Dict V = List (String × V)

module _ {ℓ} {V : Type ℓ} where
  unfoldable pub lookup : String → Dict V → Option V
  lookup k [] = none
  lookup k ((j, v) ∷ d) = if j == k then some v else lookup k d

  -- `d[k] = v`
  unfoldable pub put : String → V → Dict V → Dict V
  put k v d = (k, v) ∷ d

  -- `delete(d, k)`
  unfoldable pub remove : String → Dict V → Dict V
  remove k [] = []
  remove k ((j, v) ∷ d) = let rest = remove k d in if j == k then rest else (j, v) ∷ rest

  -- `for k, v := range more { d[k] = v }`
  unfoldable pub put_all : Dict V → Dict V → Dict V
  put_all [] d = d
  put_all ((k, v) ∷ more) d = (k, v) ∷ put_all more d

  pub lookup-put :
      (k j : String) (v : V) (d : Dict V)
      → lookup j (put k v d) ≡ (if k == j then some v else lookup j d)
  unfolding lookup put
  lookup-put k j v d = refl

  pub lookup-remove :
      (k j : String) (d : Dict V) → lookup j (remove k d) ≡ (if k == j then none else lookup j d)
  unfolding lookup remove
  lookup-remove k j [] = ground arith
  lookup-remove k j ((i, v) ∷ d) =
      ground (arith, lookup-remove k j d, eq_iff i k, eq_iff i j, eq_iff k j)

  abbrev pub or_else : Option V → Option V → Option V
  or_else (some v) o = some v
  or_else none o = o

  pub lookup-put_all :
      (j : String) (more d : Dict V)
      → lookup j (put_all more d) ≡ or_else (lookup j more) (lookup j d)
  unfolding lookup put_all
  lookup-put_all j [] d = refl
  lookup-put_all j ((k, v) ∷ more) d = ground (arith, lookup-put_all j more d)

pub ruleset dict_laws = (lookup-put, lookup-remove, lookup-put_all)
