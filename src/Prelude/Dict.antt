-- ===== src/Prelude/Dict.antt =====
-- A JavaScript `Map` or object keyed by identifiers, in insertion order.
use Prim.Native.Nat.{ℕ}
use mathlib.Core.Path.{◌≡◌}
use mathlib.Core.Option.{Option, none, some}
use mathlib.Core.List.{List, [], ◌∷◌}
use native.Mathlib.Omega.{arith}
use vaelmour_game.Prelude.Tests.{◌==◌, if◌then◌else◌}
use vaelmour_game.Prelude.Int.{ℤ, pos, ◌+ℤ◌, int_laws}

abbrev pub Dict {ℓ} : Type ℓ → Type ℓ
Dict V = List (ℕ × V)

module _ {ℓ} {V : Type ℓ} where
  -- `map.get(k)`
  abbrev pub lookup : ℕ → Dict V → Option V
  lookup k [] = none
  lookup k ((j, v) ∷ d) = if k == j then some v else lookup k d

  -- `map.set(k, v)`: a key that is there keeps its place.
  abbrev pub insert : ℕ → V → Dict V → Dict V
  insert k v [] = (k, v) ∷ []
  insert k v ((j, w) ∷ d) = if k == j then (j, v) ∷ d else (j, w) ∷ insert k v d

  -- `map.delete(k)`
  abbrev pub erase : ℕ → Dict V → Dict V
  erase k [] = []
  erase k ((j, w) ∷ d) = if k == j then d else (j, w) ∷ erase k d

  -- `map.values()`
  abbrev pub values : Dict V → List V
  values [] = []
  values ((_, v) ∷ d) = v ∷ values d

  pub lookup-insert :
      (k j : ℕ) (v : V) (d : Dict V)
      → lookup j (insert k v d) ≡ (if j == k then some v else lookup j d)
  lookup-insert k j v [] = ground arith
  lookup-insert k j v ((i, w) ∷ d) = ground (arith, lookup-insert k j v d)

  -- The sum of a quantity over the entries.
  abbrev pub sum_by : (ℕ → V → ℤ) → Dict V → ℤ
  sum_by f [] = pos 0
  sum_by f ((k, v) ∷ d) = f k v +ℤ sum_by f d

  pub sum_by-insert :
      (f : ℕ → V → ℤ) (k : ℕ) (v old : V) (d : Dict V)
      → lookup k d ≡ some old
      → sum_by f (insert k v d) +ℤ f k old ≡ sum_by f d +ℤ f k v
  sum_by-insert f k v old [] e = cc
  sum_by-insert f k v old ((j, w) ∷ d) e = grind (int_laws, sum_by-insert f k v old d)

  pub sum_by-insert_new :
      (f : ℕ → V → ℤ) (k : ℕ) (v : V) (d : Dict V)
      → lookup k d ≡ none
      → sum_by f (insert k v d) ≡ sum_by f d +ℤ f k v
  sum_by-insert_new f k v [] e = omega int_laws
  sum_by-insert_new f k v ((j, w) ∷ d) e = grind (int_laws, sum_by-insert_new f k v d)
