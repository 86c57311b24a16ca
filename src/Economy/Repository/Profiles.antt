-- ===== src/Economy/Repository/Profiles.antt =====
-- `transact` and `read` of server/repositories/InMemoryPlayerRepository.ts: the change of one profile
-- under an operation key.
use vaelmour_game.Prelude.{ℕ, suc, Option, none, some, [], ◌∷◌, ◌++◌, if◌then◌else◌}
use vaelmour_game.Prelude.Int.{ℤ}
use vaelmour_game.Prelude.Dict.{lookup, insert}
use vaelmour_game.Data.{StoredPlayerProfile, includes}
use vaelmour_game.Economy.Types.{Env, CoinLedgerRecord, LedgerReason}
use vaelmour_game.Economy.Repository.{Database}
use vaelmour_game.Players.Attempt.{Attempt, done, refused, Code}
use vaelmour_game.Players.Inventory.{Working}

-- `{ profile, applied: true }`, `{ profile, applied: false }`, or a throw.
pub data Change : Type 0 where
  changed : StoredPlayerProfile → Change
  unchanged : StoredPlayerProfile → Change
  refused_with : Code → Change
  missing_player : Change

-- `operation.ledger`, the amount and the reason
abbrev pub LedgerEntry : Type 0
LedgerEntry = ℤ × LedgerReason

abbrev pub read_profile : Database → ℕ → Option StoredPlayerProfile
read_profile db player_id = lookup player_id db.state.players

module _ (env : Env) where
  abbrev pub ledger_record : ℕ → LedgerEntry → StoredPlayerProfile → Database → CoinLedgerRecord
  ledger_record player_id (amount, reason) p db = record {
    id = env.random_uuid db.draws;
    player_id = player_id;
    amount = amount;
    reason = reason;
    resulting_balance = p.coins;
    created_at = env.now db.ticks;
  }

  -- `if (operation.ledger) this.database.ledger.push(...)`
  unfoldable pub push_entry : ℕ → Option LedgerEntry → StoredPlayerProfile → Database → Database
  push_entry player_id none p db = db
  push_entry player_id (some entry) p db = record db {
    state = record db.state { ledger = db.state.ledger ++ ledger_record player_id entry p db ∷ [] };
    draws = suc db.draws;
    ticks = suc db.ticks;
  }

  -- The profile and the key, written.
  abbrev pub write_profile : ℕ → ℕ → Working → Database → Database
  write_profile player_id key w db = record db {
    state = record db.state { players = insert player_id w.profile db.state.players };
    operations = key ∷ db.operations;
    draws = w.draws;
  }

  unfoldable pub conclude_change :
      ℕ → ℕ → Option LedgerEntry → Attempt Working → Database → Change × Database
  conclude_change player_id key entry (done w) db =
      (changed w.profile, push_entry player_id entry w.profile (write_profile player_id key w db))
  conclude_change player_id key entry (refused c) db = (refused_with c, db)

  unfoldable pub transact :
      ℕ → ℕ → Option LedgerEntry → (Working → Attempt Working) → Database → Change × Database
  transact player_id key entry mutate db = elim (read_profile db player_id) [
    | none ↦ (missing_player, db)
    | some stored ↦
        if includes db.operations key
        then (unchanged stored, db)
        else conclude_change player_id key entry
            (mutate (record { profile = stored; draws = db.draws })) db
  ]
