-- ===== src/Economy/Repository.antt =====
-- server/repositories/InMemoryPlayerRepository.ts: transactions under operation keys. `exclusive` runs
-- them one at a time, so the database goes through them in sequence.
pub mod Keys
pub mod Retries
pub mod Profiles
use vaelmour_game.Prelude.{
  ℕ, suc, Bool, true, false, Option, none, some, List, [], ◌∷◌, ◌==◌, if◌then◌else◌, find,
}
use vaelmour_game.Prelude.Dict.{Dict, lookup, insert, values}
use vaelmour_game.Data.{includes}
use vaelmour_game.Economy.Types.{EconomyState}
use vaelmour_game.Economy.Monad.{World, Action, Result, ok, err, Error, Void}

pub record DurableExpeditionStart : Type 0 where
  pub expedition_id : ℕ
  pub play_session_id : ℕ
  pub room_id : ℕ
  pub rift_id : ℕ
  pub floor : ℕ
  pub player_ids : List ℕ

-- The tables that the economy uses, and how many answers of `randomUUID` and `now` have been used.
-- A failed transaction stores none of the answers that it drew, so the next may draw them again.
pub record Database : Type 0 where
  pub state : EconomyState
  pub operations : List ℕ
  pub operation_references : Dict ℕ
  pub active_expeditions : Dict DurableExpeditionStart
  pub draws : ℕ
  pub ticks : ℕ

-- `{ value, applied: true }`, `{ applied: false, referenceId }`, or a throw.
pub data Outcome (A : Type 0) : Type 0 where
  applied : A → Outcome A
  repeated : Option ℕ → Outcome A
  failed : Error → Outcome A

abbrev pub begin : Database → World
begin db = record { state = db.state; draws = db.draws; ticks = db.ticks }

-- The writes of the clone's tables, and the key.
abbrev pub commit : ℕ → World → Database → Database
commit key w db = record db {
  state = w.state;
  operations = key ∷ db.operations;
  draws = w.draws;
  ticks = w.ticks;
}

-- `operationReferences.set(operationKey, referenceId)`, where the result names one
abbrev pub note_reference : ℕ → Option ℕ → Database → Database
note_reference key none db = db
note_reference key (some r) db = record db {
  operation_references = insert key r db.operation_references;
}

module _ {A : Type 0} where
  abbrev pub conclude : ℕ → (A → Option ℕ) → Database → Result (A × World) → Outcome A × Database
  conclude key reference db (ok (a, w)) =
      (applied a, note_reference key (reference a) (commit key w db))
  conclude key reference db (err e) = (failed e, db)

  unfoldable pub economy_transact : ℕ → Action A → (A → Option ℕ) → Database → Outcome A × Database
  economy_transact key mutate reference db =
      if includes db.operations key
      then (repeated (lookup key db.operation_references), db)
      else conclude key reference db (mutate (begin db))

-- A repeated start answers with the marker of the room, or throws if there is none.
pub data StartOutcome : Type 0 where
  started already : DurableExpeditionStart → StartOutcome
  marker_missing : StartOutcome
  refused : Error → StartOutcome

abbrev pub found_marker : Option DurableExpeditionStart → StartOutcome
found_marker none = marker_missing
found_marker (some m) = already m

-- `activeExpeditions.set(marker.expeditionId, marker)`, with the rest of the commit
abbrev pub conclude_start :
    ℕ → DurableExpeditionStart → Database → Result (Void × World) → StartOutcome × Database
conclude_start key marker db (ok (_, w)) = (
  started marker,
  record db {
    state = w.state;
    active_expeditions = insert marker.expedition_id marker db.active_expeditions;
    operations = key ∷ db.operations;
    draws = w.draws;
    ticks = w.ticks;
  },
)
conclude_start key marker db (err e) = (refused e, db)

unfoldable pub start_expedition_transact :
    ℕ → DurableExpeditionStart → Action Void → Database → StartOutcome × Database
start_expedition_transact key marker mutate db =
    if includes db.operations key
    then (found_marker (find (λ m. m.room_id == marker.room_id) (values db.active_expeditions)), db)
    else conclude_start key marker db (mutate (begin db))
