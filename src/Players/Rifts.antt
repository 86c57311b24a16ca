-- ===== src/Players/Rifts.antt =====
-- The progress in the rifts: shared/game-data/rifts/index.ts, and completeRiftFloor and adminResetRift
-- of server/players/PlayerStateService.ts.
use vaelmour_game.Prelude.{
  ℕ, ◌+◌, min, max, Bool, true, false, not, ◌&&◌, Option, none, some, List, [], ◌∷◌, ltb, leb, ◌==◌,
  if◌then◌else◌, find, length,
}
use vaelmour_game.Prelude.Dict.{Dict, lookup, insert}
use vaelmour_game.Data.{PlayerRiftProgress, StoredPlayerProfile, includes}
use vaelmour_game.Players.Attempt.{
  Attempt, done, ◌>>=◌, ◌>>◌, or_refuse, refuse_if, invalid_rift_floor, rift_floor_locked,
}

-- The floors stand for their `floorNumber`, the requirement for its `riftId` and `floorNumber`.
pub record RiftDefinition : Type 0 where
  pub id : ℕ
  pub floors : List ℕ
  pub unlock_requires : Option (ℕ × ℕ)

abbrev pub no_progress : ℕ → ℕ → PlayerRiftProgress
no_progress rift_id unlocked = record {
  rift_id = rift_id;
  highest_unlocked_floor = unlocked;
  highest_completed_floor = 0;
  completion_count = [];
}

abbrev pub completed_in : Option PlayerRiftProgress → ℕ
completed_in none = 0
completed_in (some p) = p.highest_completed_floor

abbrev pub unlocked_in : Option PlayerRiftProgress → ℕ
unlocked_in none = 0
unlocked_in (some p) = p.highest_unlocked_floor

abbrev pub requirement : Option RiftDefinition → Option (ℕ × ℕ)
requirement none = none
requirement (some r) = r.unlock_requires

-- `{ ...count, [floor]: (count[floor] ?? 0) + 1 }`
abbrev pub count_floor : ℕ → Dict ℕ → Dict ℕ
count_floor floor d = elim (lookup floor d) [
  | none ↦ insert floor 1 d
  | some n ↦ insert floor (n + 1) d
]

-- `RIFT_CATALOG`, by its values
module _ (rifts : List RiftDefinition) where
  abbrev pub rift_definition : ℕ → Option RiftDefinition
  rift_definition id = find (λ r. r.id == id) rifts

  unfoldable pub default_rift_progress : ℕ → PlayerRiftProgress
  default_rift_progress id = elim (requirement (rift_definition id)) [
    | none ↦ no_progress id 1
    | some _ ↦ no_progress id 0
  ]

  unfoldable pub prerequisite_met : ℕ → Dict PlayerRiftProgress → Bool
  prerequisite_met id progress = elim (requirement (rift_definition id)) [
    | none ↦ true
    | some (rift, floor) ↦ leb floor (completed_in (lookup rift progress))
  ]

  -- `stored`, or the default with the first floor open where the prerequisite is met
  unfoldable pub current_progress : ℕ → Dict PlayerRiftProgress → PlayerRiftProgress
  current_progress id progress = elim (lookup id progress) [
    | some p ↦ p
    | none ↦
        if prerequisite_met id progress
        then record (default_rift_progress id) { highest_unlocked_floor = 1 }
        else default_rift_progress id
  ]

  abbrev pub completed_floor : RiftDefinition → ℕ → PlayerRiftProgress → PlayerRiftProgress
  completed_floor definition floor current = record {
    rift_id = definition.id;
    highest_completed_floor = max current.highest_completed_floor floor;
    highest_unlocked_floor =
        max current.highest_unlocked_floor (min (length definition.floors) (floor + 1));
    completion_count = count_floor floor current.completion_count;
  }

  -- `candidate.unlockRequires?.riftId !== riftId || candidate.unlockRequires.floorNumber > floor`,
  -- negated
  abbrev pub opens : ℕ → ℕ → RiftDefinition → Bool
  opens id floor candidate = elim candidate.unlock_requires [
    | none ↦ false
    | some (rift, n) ↦ rift == id && not (ltb floor n)
  ]

  abbrev pub opened : ℕ → Dict PlayerRiftProgress → PlayerRiftProgress
  opened id progress = elim (lookup id progress) [
    | none ↦
        let next = default_rift_progress id in
        record next { highest_unlocked_floor = max 1 next.highest_unlocked_floor }
    | some next ↦ record next { highest_unlocked_floor = max 1 next.highest_unlocked_floor }
  ]

  -- The loop over the candidates.
  unfoldable pub open_rifts :
      ℕ → ℕ → List RiftDefinition → Dict PlayerRiftProgress → Dict PlayerRiftProgress
  open_rifts id floor [] d = d
  open_rifts id floor (c ∷ cs) d =
      open_rifts id floor cs (if opens id floor c then insert c.id (opened c.id d) d else d)

  unfoldable pub complete_rift_floor : ℕ → ℕ → StoredPlayerProfile → Attempt StoredPlayerProfile
  complete_rift_floor id floor p = do
    definition ← or_refuse (rift_definition id) invalid_rift_floor
    refuse_if (not (includes definition.floors floor)) invalid_rift_floor
    let current = current_progress id p.rift_progress
    refuse_if (ltb current.highest_unlocked_floor floor) rift_floor_locked
    done (record p {
      rift_progress =
          open_rifts id floor rifts
            (insert id (completed_floor definition floor current) p.rift_progress);
    })

-- `first_rift` is given.
unfoldable pub admin_reset_rift : ℕ → StoredPlayerProfile → StoredPlayerProfile
admin_reset_rift first_rift p = record p {
  rift_progress = (first_rift, no_progress first_rift 1) ∷ [];
}
