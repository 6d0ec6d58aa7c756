-- ===== src/Base/Assoc.antt =====
-- Go's maps with text keys, as association lists; a later write replaces the value of its key.
-- The order of the entries is never read.
use Prim.Native.String.{String}
use mathlib.Core.Path.{◌≡◌, refl}
use mathlib.Core.Bool.{Bool, true, false}
use mathlib.Core.Option.{Option, none, some}
use mathlib.Core.List.{List, [], ◌∷◌}
use native.Mathlib.Omega.{arith}
use text.Mathlib.Text.{◌==◌}
use text.Mathlib.TextEquality.{eq_iff}
use opa_openshift.Base.Tests.{if◌then◌else◌}

abbrev pub Assoc {ℓ} : Type ℓ → Type ℓ
Assoc V = List (String × V)

module _ {ℓ} {V : Type ℓ} where
  -- `v, ok := m[k]`
  unfoldable pub lookup : String → Assoc V → Option V
  lookup k [] = none
  lookup k ((j, v) ∷ m) = if j == k then some v else lookup k m

  -- `m[k] = v`
  unfoldable pub put : String → V → Assoc V → Assoc V
  put k v [] = (k, v) ∷ []
  put k v ((j, w) ∷ m) = if j == k then (k, v) ∷ m else (j, w) ∷ put k v m

  pub lookup-put :
      (k j : String) (v : V) (m : Assoc V)
      → lookup j (put k v m) ≡ (if k == j then some v else lookup j m)
  unfolding lookup put
  lookup-put k j v [] = refl
  lookup-put k j v ((i, w) ∷ m) =
      ground (arith, eq_iff k j, eq_iff i k, eq_iff i j, lookup-put k j v m)

-- `_, ok := m[k]`
unfoldable pub has {ℓ} : {V : Type ℓ} → String → Assoc V → Bool
unfolding lookup
has k m = elim (lookup k m) [ none ↦ false | some v ↦ true ]

pub has-put {ℓ} :
    {V : Type ℓ} (k j : String) (v : V) (m : Assoc V)
    → has j (put k v m) ≡ (if k == j then true else has j m)
unfolding has
has-put k j v m = ground (arith, lookup-put k j v m)

pub has-nil {ℓ} : (V : Type ℓ) (k : String) → has k (let m : Assoc V = [] in m) ≡ false
unfolding has lookup
has-nil V k = refl
