-- ===== src/Social/Types.antt =====
-- The records of shared/social-types.ts and the tables of `SocialState` that the friends use.
use vaelmour_game.Prelude.{ℕ, Bool, true, false, List}
use vaelmour_game.Prelude.Dict.{Dict}
use vaelmour_game.Data.{StoredPlayerProfile}

pub data RequestStatus : Type 0 where
  pending accepted declined cancelled : RequestStatus

pub record FriendRequestRecord : Type 0 where
  pub id : ℕ
  pub requester_id : ℕ
  pub receiver_id : ℕ
  pub status : RequestStatus
  pub created_at : ℕ

-- The identifiers of the players are numbered in the order of their strings.
pub record FriendshipRecord : Type 0 where
  pub id : ℕ
  pub player_low_id : ℕ
  pub player_high_id : ℕ
  pub created_at : ℕ

pub record PlayerBlockRecord : Type 0 where
  pub blocker_id : ℕ
  pub blocked_id : ℕ
  pub created_at : ℕ

-- The key of a block is written from its two players, and no identifier holds a colon: so the map
-- of the blocks is the list of its values. With the tables: how many answers of `randomUUID` and of
-- `now` have been used, and the keys of the transactions.
pub record SocialState : Type 0 where
  pub players : Dict StoredPlayerProfile
  pub friend_requests : Dict FriendRequestRecord
  pub friendships : Dict FriendshipRecord
  pub blocks : List PlayerBlockRecord
  pub operations : List ℕ
  pub draws : ℕ
  pub ticks : ℕ

-- The codes of `EconomyError` in the service.
pub data SocialCode : Type 0 where
  player_not_found cannot_friend_self player_blocked already_friends : SocialCode
  friend_request_exists friend_request_not_found friendship_not_found : SocialCode
  cannot_block_self : SocialCode

-- A callback of `socialTransact` runs on a clone, and a throw discards it.
pub data SocialResult : Type 0 where
  done : SocialState → SocialResult
  thrown : SocialCode → SocialResult

-- `status === 'PENDING'`
unfoldable pub awaits : RequestStatus → Bool
awaits RequestStatus.pending = true
awaits _ = false
