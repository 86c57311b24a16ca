-- ===== src/Social/Tests.antt =====
-- Friends and blocks on concrete players, and the theorems of the calls at them.
use vaelmour_game.Prelude.{ℕ, ◌+◌, ◌≡◌, refl, true, false, none, List, [], ◌∷◌, ltb, any}
use vaelmour_game.Prelude.Int.{pos}
use vaelmour_game.Prelude.Dict.{values}
use vaelmour_game.Data.{CharacterClass, EquipmentState, StoredPlayerProfile}
use vaelmour_game.Economy.Types.{Env}
use vaelmour_game.Economy.Trades.{find_player_by_name}
use vaelmour_game.Social.Types.{FriendRequestRecord, RequestStatus, SocialState, done, awaits}
use vaelmour_game.Social.Friends.{
  is_found, friendship, is_between, is_blocked, send_request, respond, remove, block, unblock, Call,
  sends, responds, blocks_player, unblocks, social_transact, converse, perform,
}
use vaelmour_game.Social.ChatRate.{
  ChatChannel, chat_rate_limit_ms, channel_index, too_soon, consume, Message, passed, Spaced,
  passed-Spaced,
}
use vaelmour_game.Social.Amity.{Amity, Holds}
use vaelmour_game.Social.Amity.Calls.{converse-Amity}
use vaelmour_game.Social.Relation.{are_friends}
use vaelmour_game.Social.Relation.Calls.{Implements, perform-Implements, respond-Befriends}

abbrev env : Env
env = record {
  catalog = λ i. none;
  random_uuid = λ n. n + 1000;
  now = λ n. n;
  locale_before = ltb;
  text_before = ltb;
  normalize_player_name = λ n. n;
}

abbrev bare : EquipmentState
bare = record {
  weapon = none;
  head = none;
  chest = none;
  hands = none;
  legs = none;
  feet = none;
  ring1 = none;
  ring2 = none;
  amulet = none;
}

abbrev person : ℕ → StoredPlayerProfile
person id = record {
  account_id = id;
  player_id = id;
  name = id;
  name_key = id;
  class_id = CharacterClass.warrior;
  level = 1;
  current_xp = 0;
  coins = pos 0;
  reserved_coins = pos 0;
  inventory = [];
  storage = [];
  equipment = bare;
  learned_recipes = [];
  reserved_items = [];
  rift_progress = [];
}

abbrev strangers : SocialState
strangers = record {
  players = (1, person 1) ∷ (2, person 2) ∷ (3, person 3) ∷ [];
  friend_requests = [];
  friendships = [];
  blocks = [];
  operations = [];
  draws = 0;
  ticks = 0;
}

-- Player 2 asks 1, who accepts, and 3 asks 1, who blocks 3.
abbrev acquaintance : List (ℕ × Call)
acquaintance =
    (1, sends 2 1)
    ∷ (2, responds 1 1000 true)
    ∷ (3, sends 3 1)
    ∷ (4, blocks_player 1 3)
    ∷ (4, unblocks 1 3)
    ∷ []

run_all : Unit {0}
unfolding awaits friendship find_player_by_name send_request respond remove block unblock
    social_transact converse
run_all = tt

-- They are friends, the request of 3 is cancelled, and 3 stays blocked: that key was used.
acquaintance-outcome :
    (is_found (friendship (converse env acquaintance strangers) 1 2) ≡ true)
    × (any (is_between 1 3) (values (converse env acquaintance strangers).friend_requests) ≡ false)
    × (is_blocked (converse env acquaintance strangers).blocks 3 1 ≡ true)
unfolding run_all
acquaintance-outcome = (refl, refl, refl)

abbrev strangers-Amity : Amity strangers
strangers-Amity = record { named = tt; distinct = tt; friendly = tt; proper = tt }

converse-Amity_example : Amity (converse env acquaintance strangers)
converse-Amity_example = converse-Amity env acquaintance strangers strangers-Amity

perform-Implements_example :
    Holds
      (Implements env (responds 1 1000 true) (converse env ((1, sends 2 1) ∷ []) strangers))
      (perform env (responds 1 1000 true) (converse env ((1, sends 2 1) ∷ []) strangers))
unfolding run_all
perform-Implements_example =
    perform-Implements env (responds 1 1000 true) (converse env ((1, sends 2 1) ∷ []) strangers)
      (converse-Amity env ((1, sends 2 1) ∷ []) strangers strangers-Amity) refl

abbrev asked : SocialState
asked = converse env ((1, sends 2 1) ∷ []) strangers

abbrev the_request : FriendRequestRecord
the_request = record {
  id = 1000;
  requester_id = 2;
  receiver_id = 1;
  status = RequestStatus.pending;
  created_at = 0;
}

respond-Befriends_example :
    (s' : SocialState) × (respond env 1 1000 true asked ≡ done s') × (are_friends s' 2 1 ≡ true)
unfolding run_all
respond-Befriends_example =
    respond-Befriends env 1000 the_request asked
      (converse-Amity env ((1, sends 2 1) ∷ []) strangers strangers-Amity) refl refl refl

-- Four messages to the guild; the second is too soon, and the clock of the last runs behind.
abbrev chatter : List Message
chatter =
    (record { sender = 1; channel = ChatChannel.guild; time = 5000 })
    ∷ (record { sender = 1; channel = ChatChannel.guild; time = 5999 })
    ∷ (record { sender = 1; channel = ChatChannel.guild; time = 6000 })
    ∷ (record { sender = 1; channel = ChatChannel.guild; time = 5500 })
    ∷ []

chat_all : Unit {0}
unfolding chat_rate_limit_ms channel_index too_soon consume passed
chat_all = tt

chatter-passed : passed 1 ChatChannel.guild chatter (λ p c. none) ≡ 5000 ∷ 6000 ∷ []
unfolding chat_all
chatter-passed = refl

passed-Spaced_example :
    Spaced
      (chat_rate_limit_ms ChatChannel.guild)
      none
      (passed 1 ChatChannel.guild chatter (λ p c. none))
passed-Spaced_example = passed-Spaced 1 ChatChannel.guild chatter (λ p c. none)
