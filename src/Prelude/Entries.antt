-- ===== src/Prelude/Entries.antt =====
-- What holds of every entry of a map.
use Prim.Native.Nat.{ℕ}
use mathlib.Core.Path.{◌≡◌}
use mathlib.Core.Logic.{inl, inr}
use mathlib.Core.Bool.{Bool}
use mathlib.Core.List.{[], ◌∷◌}
use mathlib.Core.Option.{some}
use vaelmour_game.Prelude.Tests.{◌==◌, Bool-cases, ==_iff}
use vaelmour_game.Prelude.Lists.{find}
use vaelmour_game.Prelude.Dict.{Dict, lookup, insert, erase, values}

-- What holds of every entry.
abbrev pub AllEntries : {V : Type 0} → (ℕ → V → Type 0) → Dict V → Type 0
AllEntries P [] = Unit
AllEntries P ((k, v) ∷ d) = P k v × AllEntries P d

module _ {V : Type 0} (P : ℕ → V → Type 0) where
  pub AllEntries-insert :
      (k : ℕ) (v : V) (d : Dict V) → P k v → AllEntries P d → AllEntries P (insert k v d)
  AllEntries-insert k v [] p all = (p, tt)
  AllEntries-insert k v ((j, w) ∷ d) p all = elim (Bool-cases (k == j)) [
    | inl hit ↦ let same : k ≡ j = (==_iff k j).0 hit in rw hit (rw (← same) p, all.1)
    | inr miss ↦ rw miss (all.0, AllEntries-insert k v d p all.1)
  ]

  pub AllEntries-erase : (k : ℕ) (d : Dict V) → AllEntries P d → AllEntries P (erase k d)
  AllEntries-erase k [] all = tt
  AllEntries-erase k ((j, w) ∷ d) all = elim (Bool-cases (k == j)) [
    | inl hit ↦ rw hit all.1
    | inr miss ↦ rw miss (all.0, AllEntries-erase k d all.1)
  ]

  pub AllEntries-find :
      (p : V → Bool) (d : Dict V) (v : V)
      → AllEntries P d
      → find p (values d) ≡ some v
      → (k : ℕ) × P k v
  AllEntries-find p [] v all h = cc
  AllEntries-find p ((j, w) ∷ d) v all h = elim (Bool-cases (p w)) [
    | inl hit ↦
        let found : some w ≡ some v = rw hit at h in let eq : w ≡ v = cc in (j, rw (← eq) all.0)
    | inr miss ↦ AllEntries-find p d v all.1 (rw miss at h)
  ]

pub AllEntries-map :
    {V : Type 0} {P Q : ℕ → V → Type 0} (f : (k : ℕ) (v : V) → P k v → Q k v) (d : Dict V)
    → AllEntries P d
    → AllEntries Q d
AllEntries-map f [] h = tt
AllEntries-map f ((k, v) ∷ d) h = (f k v h.0, AllEntries-map f d h.1)

pub AllEntries-zip :
    {V : Type 0} {P Q R : ℕ → V → Type 0} (f : (k : ℕ) (v : V) → P k v → Q k v → R k v) (d : Dict V)
    → AllEntries P d
    → AllEntries Q d
    → AllEntries R d
AllEntries-zip f [] g h = tt
AllEntries-zip f ((k, v) ∷ d) g h = (f k v g.0 h.0, AllEntries-zip f d g.1 h.1)

pub AllEntries-lookup :
    {V : Type 0} (P : ℕ → V → Type 0) (k : ℕ) (d : Dict V) (v : V)
    → AllEntries P d
    → lookup k d ≡ some v
    → P k v
AllEntries-lookup P k [] v h e = cc
AllEntries-lookup P k ((j, w) ∷ d) v h e = elim (Bool-cases (k == j)) [
  | inl hit ↦
      let same : k ≡ j = (==_iff k j).0 hit in
      let found : some w ≡ some v = rw hit at e in let eq : w ≡ v = cc in rw (same, ← eq) h.0
  | inr miss ↦ AllEntries-lookup P k d v h.1 (rw miss at e)
]
