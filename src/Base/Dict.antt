-- ===== src/Base/Dict.antt =====
-- A Go map as an association list under a test of its keys.
use mathlib.Core.Path.{◌≡◌, refl}
use mathlib.Core.Bool.{Bool, true}
use mathlib.Core.Option.{Option, none, some}
use mathlib.Core.List.{List, [], ◌∷◌}
use native.Mathlib.Omega.{arith}
use ngm.Base.Tests.{if◌then◌else◌}

module _ {ℓ κ} {K : Type ℓ} {V : Type κ} (eq : K → K → Bool) where
  -- `m[k]`
  unfoldable pub lookup : K → List (K × V) → Option V
  lookup k [] = none
  lookup k ((k', v) ∷ m) = let rest = lookup k m in if eq k k' then some v else rest

  -- `delete(m, k)`
  unfoldable pub delete : K → List (K × V) → List (K × V)
  delete k [] = []
  delete k ((k', v) ∷ m) = let rest = delete k m in if eq k k' then rest else (k', v) ∷ rest

  -- `m[k] = v`
  unfoldable pub insert : K → V → List (K × V) → List (K × V)
  insert k v m = (k, v) ∷ delete k m

  pub lookup-delete_same : (k : K) (m : List (K × V)) → lookup k (delete k m) ≡ none
  unfolding lookup delete
  lookup-delete_same k [] = refl
  lookup-delete_same k ((k', v) ∷ m) = ground (arith, lookup-delete_same k m)

  pub lookup-insert_same :
      (k : K) (v : V) (m : List (K × V)) → eq k k ≡ true → lookup k (insert k v m) ≡ some v
  unfolding lookup insert
  lookup-insert_same k v m h = rw h refl
