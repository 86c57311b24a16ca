-- ===== src/Rooms/Types.antt =====
-- server/types/room.ts, the state of server/rooms/RoomManager.ts, and what the manager is given.
-- Chat, logs, timers, rewards shown to the client and the telemetry are left out of the room.
use vaelmour_game.Prelude.{ℕ, Bool, Option, List}
use vaelmour_game.Prelude.Int.{ℤ}
use vaelmour_game.Prelude.Dict.{Dict}
use vaelmour_game.Data.{PersonalLoot}
use vaelmour_game.Combat.Types.{Character, CombatAction, Enemy}
use vaelmour_game.Combat.Enemies.{EnemyDefinition, ScalingTables}
use vaelmour_game.Economy.Types.{Env}
use vaelmour_game.Economy.Trades.{Availability}
use vaelmour_game.Economy.Repository.{Database}
use vaelmour_game.Players.Rifts.{RiftDefinition}
use vaelmour_game.Loot.{LootOptions}

pub data RoomPhase : Type 0 where
  lobby combat post_encounter finished failed_run : RoomPhase

pub data ExpeditionVote : Type 0 where
  continue_run exit_run : ExpeditionVote

pub data PresenceStatus : Type 0 where
  offline city party_lobby rift : PresenceStatus

-- `peer` is the identifier of the connection.
pub record RoomMember : Type 0 where
  pub character : Character
  pub connected : Bool
  pub peer : Option ℕ
  pub ready : Bool
  pub auto_battle : Bool
  pub potion_cooldown : ℕ
  pub expedition_potions : ℤ
  pub expedition_potion_quantities : Dict ℕ
  pub disconnected_at : Option ℕ

pub record RoomState (F : Type 0) : Type 0 where
  pub id : ℕ
  pub expedition_id : Option ℕ
  pub phase : RoomPhase
  pub leader_id : ℕ
  pub rift_id : ℕ
  pub floor_number : ℕ
  pub members : Dict RoomMember
  pub applications : Dict Character
  pub slot_offers : Dict ℤ
  pub encounter_index : ℕ
  pub enemy : Option (Enemy F)
  pub round : ℕ
  pub round_ends_at : Option ℕ
  pub actions : Dict CombatAction
  pub expedition_loot : Dict PersonalLoot
  pub extracted : Bool
  pub votes : Dict ExpeditionVote
  pub resolving : Bool

-- The maps of the manager and of its services. `moments`, `randoms` and `draws` count the answers of
-- `now`, `random` and `randomUUID` that the manager has used.
pub record Manager (F : Type 0) : Type 0 where
  pub rooms : Dict (RoomState F)
  pub identities : Dict Character
  pub peers : Dict ℕ
  pub presence : Dict PresenceStatus
  pub availability : Availability
  pub accepting : Bool
  pub database : Database
  pub moments : ℕ
  pub randoms : ℕ
  pub draws : ℕ

-- shared/game-data/rifts/types.ts
pub record FloorDefinition : Type 0 where
  pub floor_number : ℕ
  pub encounter_enemy_ids : List ℕ
  pub boss_id : ℕ
  pub resource_tier : ℕ

-- Why a party slot is refunded: the texts that begin the operation's identifier.
pub data RefundReason : Type 0 where
  disconnect_application cancel_application reject leave leader_left disband : RefundReason
  accepted_elsewhere start_reject expired : RefundReason

-- The texts of the operation keys, by their parts.
pub record OperationKeys : Type 0 where
  pub reserve : ℕ → ℕ → ℕ
  pub accept : ℕ → ℕ → ℕ → ℕ
  pub refund : RefundReason → ℕ → ℕ → ℕ
  pub start : ℕ → ℕ
  pub encounter : ℕ → ℕ → ℕ → ℕ
  pub floor : ℕ → ℕ → ℕ → ℕ
  pub extraction : ℕ → ℕ → ℕ
  pub potion : ℕ → Option ℕ → ℕ → ℕ → ℕ
  pub cancel_trade : ℕ → ℕ → ℕ

-- The tables of content, the options, `now` and `randomUUID` as sequences of answers,
-- `id.slice(0, 8)` of the latter, the options of the loot for a tier, and the power in `xpRequired`.
pub record Setup (F : Type 0) : Type 0 where
  pub env : Env
  pub keys : OperationKeys
  pub rifts : List RiftDefinition
  pub floors : ℕ → List FloorDefinition
  pub enemies : ℕ → Option (EnemyDefinition F)
  pub scaling : ScalingTables F
  pub enemy_id : ℕ → ℕ → ℕ
  pub heal_percent : ℕ → Option F
  pub potion_ids : List ℕ
  pub recipe_item : ℕ → ℕ
  pub locale_before : ℕ → ℕ → Bool
  pub loot_options : ℕ → LootOptions F
  pub first_rift : ℕ
  pub xp_required : ℕ → ℕ
  pub clock : ℕ → ℕ
  pub uuid : ℕ → ℕ
  pub room_id : ℕ → ℕ
  pub round_duration_ms : ℕ
  pub reconnect_grace_ms : ℕ
  pub min_party_size : ℕ
