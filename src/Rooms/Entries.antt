-- ===== src/Rooms/Entries.antt =====
-- What holds of every entry of a map, through the writes of server/rooms/RoomManager.ts to an entry.
use vaelmour_game.Prelude.{ℕ, ◌≡◌, [], ◌∷◌, ◌==◌, Bool-cases, inl, inr, ==_iff}
use vaelmour_game.Prelude.Dict.{Dict}
use vaelmour_game.Prelude.Entries.{AllEntries}
use vaelmour_game.Rooms.Store.{change_at}

module _ {V : Type 0} (P : ℕ → V → Type 0) where
  pub AllEntries-change_at :
      (k : ℕ) (f : V → V) (d : Dict V)
      → ((j : ℕ) (v : V) → P j v → P j (f v))
      → AllEntries P d
      → AllEntries P (change_at k f d)
  AllEntries-change_at k f [] h all = tt
  AllEntries-change_at k f ((j, v) ∷ d) h all = elim (Bool-cases (k == j)) [
    | inl hit ↦ rw hit (h j v all.0, all.1)
    | inr miss ↦ rw miss (all.0, AllEntries-change_at k f d h all.1)
  ]

  -- A write under one key.
  pub AllEntries-change_one :
      (k : ℕ) (f : V → V) (d : Dict V)
      → ((v : V) → P k v → P k (f v))
      → AllEntries P d
      → AllEntries P (change_at k f d)
  AllEntries-change_one k f [] h all = tt
  AllEntries-change_one k f ((j, v) ∷ d) h all = elim (Bool-cases (k == j)) [
    | inl hit ↦
        let same : k ≡ j = (==_iff k j).0 hit in rw hit (rw (← same) (h v (rw same all.0)), all.1)
    | inr miss ↦ rw miss (all.0, AllEntries-change_one k f d h all.1)
  ]
