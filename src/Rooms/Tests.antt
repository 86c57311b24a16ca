-- ===== src/Rooms/Tests.antt =====
-- Rooms at concrete inputs: an expedition is started, and the theorems of the rooms at it.
use vaelmour_game.Prelude.{
  ℕ, ◌+◌, ◌*◌, ◌≡◌, ◌≢◌, ◌≤◌, ◌<◌, ◌⊎◌, find, refl, true, false, Option, none, some, List, [], ◌∷◌,
  ltb, keep, length, arith,
}
use vaelmour_game.Prelude.Int.{ℤ, pos, ◌+ℤ◌, ◌-ℤ◌}
use vaelmour_game.Prelude.Dict.{Dict, lookup, values}
use vaelmour_game.Data.{CharacterClass, EquipmentState, StoredPlayerProfile}
use vaelmour_game.Combat.Thousandths.{thousandths}
use vaelmour_game.Combat.Types.{EnemyKind, Targeting, ZoneWeights, Character}
use vaelmour_game.Combat.Enemies.{EnemyDefinition}
use vaelmour_game.Economy.Types.{Env}
use vaelmour_game.Economy.Monad
use vaelmour_game.Economy.Totals.{wealth}
use vaelmour_game.Rooms.Types.{
  RoomPhase, ExpeditionVote, RoomState, Manager, RefundReason, OperationKeys, Setup,
}
use vaelmour_game.Rooms.Roster.{Closed, play-Closed}
use vaelmour_game.Rooms.Wealth.{play-wealth}
use vaelmour_game.Prelude.{◌↔◌}
use vaelmour_game.Rooms.Events.{selects}
use vaelmour_game.Rooms.Votes.{is_continue, is_exit}
use vaelmour_game.Rooms.Decision.{votes_for, votes_against, decision-holds}
use vaelmour_game.Rooms.Decision.Wins.{Wins, decision-Wins}
use vaelmour_game.Rooms.Once.{play-AppliedOnce}
use vaelmour_game.Economy.Repository.Keys.{Recorded}
use vaelmour_game.Economy.Repository.{applied, repeated}
use vaelmour_game.Economy.Store.{put_trade}
use vaelmour_game.Economy.Trades.{
  Availability, find_player_by_name, assert_trade_available, request_trade,
}
use vaelmour_game.Rooms.Locked.{Stands}
use vaelmour_game.Rooms.Locked.Play.{locked_while_running}
use vaelmour_game.Rooms.Handler.{
  pure, fail, throw, fail_if, or_fail, or_throw, gets, modify, continue, ◌>>=◌, when, for_each,
  handled, caught, try_catch, detached, ended, call, branch, if_some,
}
use vaelmour_game.Rooms.Store.{
  has_member, has_key, find_member_room, room_at, identity, peer_of, change_room, put_room,
  delete_room, set_identity, set_peer, drop_peer, set_presence, put_availability, stop_accepting,
  set_randoms, take_draw, transact_economy, change_profile, require_profile, now, rift_progress,
  reserve_slot, accept_slot, refund_slot, floor_encounters,
}
use vaelmour_game.Rooms.Lobby.{
  new_room, create_member, distinct, told, set_ready, create_party, select_rift_floor,
  apply_to_party, cancel_application, withdraw_from, accept_applicant, reject_applicant,
  review_application,
}
use vaelmour_game.Rooms.Leaving.{
  is_running, send_home, finalize_room, dismiss, leave_lobby, disband, leave_party,
  remove_expired_lobby_member, invite_to_party,
}
use vaelmour_game.Rooms.Start.{
  start_paid, create_enemy, start_round, check_unlocked, check_present, prepare, send_off, depart,
  start_expedition,
}
use vaelmour_game.Rooms.Rewards.{
  class_coins, merge_loot, retained, award_profile, complete_floor, extract_profile, extract_one,
  extract_loot, reward_member, complete_floors, complete_encounter,
}
use vaelmour_game.Rooms.Votes.{
  all_of, eligible_voters, count_votes, decision, free_member, finish_run, go_on, carry_out,
  evaluate_votes, vote,
}
use vaelmour_game.Rooms.Peers.{
  drop_expired, has_expired, room_to_rejoin, connect, cancel_trades_for_disconnect,
  withdraw_application, mark_lost, disconnect, fail_deserted, handle_reconnect_expiry, sync_room,
  sync_lobby_character,
}
use vaelmour_game.Rooms.Events.{
  economy, react, play, Event, creates, leaves, applies, withdraws, reviews, readies, starts,
  connects, disconnects, expires,
}
use vaelmour_game.Rooms.Battle.{
  to_combat_action, can_resolve_early, random_zone, plan_actions, consume_potion, drink_or_attack,
  settle_action, settle_actions,
}
use vaelmour_game.Rooms.Rounds.{
  lose_run, after_round, play_round, stop_run, resolve_room_round, submit_action, set_auto_battle,
  resolve_due, resolve_due_rounds,
}
use vaelmour_game.Economy.Slots.{
  reserve_party_slot, refund_party_slot, refund, accept_party_slot, settle_party_slots, check_slot,
  pay_slot,
}
use vaelmour_game.Economy.Store.{
  player, put_player, change_player, put_reservation, ledger, push_ledger,
}
use vaelmour_game.Economy.Repository.{economy_transact, start_expedition_transact}
use vaelmour_game.Economy.Trades.{set_availability}
use vaelmour_game.Players.Profile.{classes, stats, add_bonuses, to_character}
use vaelmour_game.Players.Rifts.{current_progress, default_rift_progress, prerequisite_met}
use vaelmour_game.Players.Bag.{count_in}
use vaelmour_game.Combat.Enemies.{create_rift_enemy, scale_enemy_definition, party_scaling}

abbrev bare : EquipmentState
bare = record {
  weapon = none;
  head = none;
  chest = none;
  hands = none;
  legs = none;
  feet = none;
  ring1 = none;
  ring2 = none;
  amulet = none;
}

abbrev person : ℕ → ℤ → StoredPlayerProfile
person id coins = record {
  account_id = id;
  player_id = id;
  name = id;
  name_key = id;
  class_id = CharacterClass.warrior;
  level = 1;
  current_xp = 0;
  coins = coins;
  reserved_coins = pos 0;
  inventory = [];
  storage = [];
  equipment = bare;
  learned_recipes = [];
  reserved_items = [];
  rift_progress = [];
}

abbrev hero : ℕ → Character
hero id = record {
  id = id;
  name = id;
  class_id = CharacterClass.warrior;
  level = 1;
  current_xp = 0;
  attack = 85;
  max_hp = 1050;
  current_hp = 1050;
  alive = true;
  ready = false;
}

abbrev even_weights : ZoneWeights ℕ
even_weights = record { head = 1000; body = 1000; legs = 1000 }

abbrev wolf : EnemyDefinition ℕ
wolf = record {
  id = 1;
  name = 1;
  kind = EnemyKind.mob;
  level = 1;
  max_hp = 500;
  attack = 40;
  attack_zone_weights = even_weights;
  defense_zone_weights = even_weights;
  targeting = Targeting.random;
  base_xp = 10;
  base_coins = 5;
  loot_tier = 1;
  boss_pattern = none;
}

-- A number for the reason of a refund.
abbrev reason_number : RefundReason → ℕ
reason_number r = elim r [
  | RefundReason.disconnect_application ↦ 1
  | RefundReason.cancel_application ↦ 2
  | RefundReason.reject ↦ 3
  | RefundReason.leave ↦ 4
  | RefundReason.leader_left ↦ 5
  | RefundReason.disband ↦ 6
  | RefundReason.accepted_elsewhere ↦ 7
  | RefundReason.start_reject ↦ 8
  | RefundReason.expired ↦ 9
]

-- Numbers below 100 in places of two digits.
abbrev keys : OperationKeys
keys = record {
  reserve = λ p op. 1000000000 + p * 100 + op;
  accept = λ l room p. 2000000000 + l * 10000 + room * 100 + p;
  refund = λ why room p. 3000000000 + reason_number why * 10000 + room * 100 + p;
  start = λ room. 4000000000 + room;
  encounter = λ p room i. 5000000000 + p * 10000 + room * 100 + i;
  floor = λ p room f. 6000000000 + p * 10000 + room * 100 + f;
  extraction = λ p room. 7000000000 + p * 100 + room;
  potion = λ p e i r. 8000000000 + p * 10000 + i * 100 + r;
  cancel_trade = λ p t. 9000000000 + p * 100 + t;
}

abbrev env : Env
env = record {
  catalog = λ i. none;
  random_uuid = λ n. n + 1000;
  now = λ n. n;
  locale_before = ltb;
  text_before = ltb;
  normalize_player_name = λ n. n;
}

-- One floor with an encounter and a boss, both wolves; rooms are numbered from 10.
abbrev setup : Setup ℕ
setup = record {
  env = env;
  keys = keys;
  rifts = [];
  floors = λ rift.
      record { floor_number = 1; encounter_enemy_ids = 1 ∷ []; boss_id = 1; resource_tier = 1 }
      ∷ [];
  enemies = λ id. some wolf;
  scaling = record {
    party_size = λ rift n. record { hp = 1000; attack = 1000 };
    low_party = λ rift n floor. record { hp = 1000; attack = 1000 };
  };
  enemy_id = λ floor i. floor * 100 + i;
  heal_percent = λ id. none;
  potion_ids = [];
  recipe_item = λ id. id;
  locale_before = ltb;
  loot_options = λ tier. record {
    combat_class_chance = 50;
    correct_profession_chance = 350;
    recipe_chance = λ kind. 2;
    resources = λ p. [];
    recipes = λ p. [];
    generic_resources = [];
  };
  first_rift = 1;
  xp_required = λ level. level * 100;
  clock = λ n. n * 100000 + 1;
  uuid = λ n. n + 500;
  room_id = λ n. n + 10;
  round_duration_ms = 30000;
  reconnect_grace_ms = 60000;
  min_party_size = 2;
}

abbrev city : Manager ℕ
city = record {
  rooms = [];
  identities = [];
  peers = [];
  presence = [];
  availability = record { online = []; combat_locked = [] };
  accepting = true;
  database = record {
    state = record {
      players = (1, person 1 (pos 0)) ∷ (2, person 2 (pos 100)) ∷ (3, person 3 (pos 100)) ∷ [];
      market_orders = [];
      market_fills = [];
      trades = [];
      party_slot_reservations = [];
      ledger = [];
    };
    operations = [];
    operation_references = [];
    active_expeditions = [];
    draws = 0;
    ticks = 0;
  };
  moments = 0;
  randoms = 0;
  draws = 0;
}

abbrev gathering : List Event
gathering =
    connects 1 (hero 1) 71
    ∷ connects 2 (hero 2) 72
    ∷ connects 3 (hero 3) 73
    ∷ creates 1
    ∷ applies 2 10 (pos 5) 1
    ∷ []

unfoldable run : List Event → Manager ℕ
unfolding pure fail throw fail_if or_fail or_throw gets modify continue ◌>>=◌ when for_each handled
    caught try_catch detached ended call branch if_some find_member_room room_at identity peer_of
    change_room put_room delete_room set_identity set_peer drop_peer set_presence put_availability
    stop_accepting set_randoms take_draw transact_economy change_profile require_profile now
    rift_progress reserve_slot accept_slot refund_slot floor_encounters create_member distinct told
    set_ready create_party select_rift_floor apply_to_party cancel_application withdraw_from
    accept_applicant reject_applicant review_application send_home finalize_room dismiss leave_lobby
    disband leave_party remove_expired_lobby_member invite_to_party start_paid create_enemy
    start_round check_unlocked check_present prepare send_off depart start_expedition class_coins
    merge_loot retained award_profile complete_floor extract_profile extract_one extract_loot
    reward_member complete_floors complete_encounter eligible_voters count_votes decision
    free_member finish_run go_on carry_out evaluate_votes vote drop_expired has_expired
    room_to_rejoin connect cancel_trades_for_disconnect withdraw_application mark_lost disconnect
    fail_deserted handle_reconnect_expiry sync_room sync_lobby_character economy react play
    to_combat_action can_resolve_early random_zone plan_actions consume_potion drink_or_attack
    settle_action settle_actions lose_run after_round play_round stop_run resolve_room_round
    submit_action set_auto_battle resolve_due resolve_due_rounds reserve_party_slot
    refund_party_slot refund accept_party_slot settle_party_slots check_slot pay_slot player
    put_player change_player put_reservation ledger push_ledger economy_transact
    start_expedition_transact set_availability classes stats add_bonuses to_character
    current_progress default_rift_progress prerequisite_met count_in create_rift_enemy
    scale_enemy_definition party_scaling Monad.pure Monad.throw Monad.or_throw Monad.◌>>=◌
    Monad.throw_if Monad.gets Monad.modify Monad.when Monad.for_each Monad.random_uuid Monad.now
run es = play thousandths setup es city

-- The coins of a player, free and reserved.
abbrev coins_of : ℕ → Manager ℕ → Option (ℤ × ℤ)
coins_of id s = elim (lookup id s.database.state.players) [
  | none ↦ none
  | some p ↦ some (p.coins, p.reserved_coins)
]

abbrev phase_of : ℕ → Manager ℕ → Option RoomPhase
phase_of id s = elim (lookup id s.rooms) [ none ↦ none | some r ↦ some r.phase ]

-- The slot that the applicant offers is reserved.
applied_coins : coins_of 2 (run gathering) ≡ some (pos 95, pos 5)
unfolding run ◌-ℤ◌ ◌+ℤ◌
applied_coins = refl

abbrev departure : List Event
departure =
    connects 1 (hero 1) 71
    ∷ connects 2 (hero 2) 72
    ∷ connects 3 (hero 3) 73
    ∷ creates 1
    ∷ applies 2 10 (pos 5) 1
    ∷ reviews 1 2 true
    ∷ readies 1 true
    ∷ readies 2 true
    ∷ starts 1
    ∷ []

-- The expedition starts, and the leader is paid.
departed :
    (phase_of 10 (run departure) ≡ some RoomPhase.combat)
    × (coins_of 1 (run departure) ≡ some (pos 5, pos 0))
    × (coins_of 2 (run departure) ≡ some (pos 95, pos 0))
unfolding run ◌-ℤ◌ ◌+ℤ◌
departed = (refl, refl, refl)

-- An application that is withdrawn, made anew and withdrawn again: the second refund has the key of
-- the first, so it is not made, and the coins stay reserved.
withdrawn_twice :
    coins_of 2 (
      run (
        connects 1 (hero 1) 71
        ∷ connects 2 (hero 2) 72
        ∷ creates 1
        ∷ applies 2 10 (pos 5) 1
        ∷ withdraws 2 10
        ∷ applies 2 10 (pos 5) 2
        ∷ withdraws 2 10
        ∷ []))
    ≡ some (pos 95, pos 5)
unfolding run ◌-ℤ◌ ◌+ℤ◌
withdrawn_twice = refl

-- An applicant who opens a party of their own and is then accepted is in both.
member_of_two :
    length (
      keep (has_member 2) (
        values
          (run (
            connects 1 (hero 1) 71
            ∷ connects 2 (hero 2) 72
            ∷ creates 1
            ∷ applies 2 10 (pos 5) 1
            ∷ creates 2
            ∷ reviews 1 2 true
            ∷ [])).rooms))
    ≡ 2
unfolding run
member_of_two = refl

-- The last member's grace runs out: the room is gone, and the applicant's coins stay reserved.
left_reserved :
    let s = run (
      connects 1 (hero 1) 71
      ∷ connects 2 (hero 2) 72
      ∷ creates 1
      ∷ applies 2 10 (pos 5) 1
      ∷ disconnects 1 71
      ∷ expires 10 1
      ∷ []) in
    (length s.rooms ≡ 0) × (coins_of 2 s ≡ some (pos 95, pos 5))
unfolding run ◌-ℤ◌ ◌+ℤ◌
left_reserved = (refl, refl)

-- The room of the expedition has left the lobby with members 1 and 2.
departed-Closed : Closed 10 (1 ∷ 2 ∷ []) (run departure)
unfolding run ◌-ℤ◌ ◌+ℤ◌
departed-Closed = ((refl, λ same. (refl, λ j there. ground arith)), tt)

fresh_rooms : (n : ℕ) → (run departure).draws ≤ n → setup.room_id n ≢ 10
unfolding run ◌-ℤ◌ ◌+ℤ◌
fresh_rooms n h same = let drawn : 2 ≤ n = h in omega (arith, drawn, same)

play-Closed_example :
    Closed 10
      (1 ∷ 2 ∷ [])
      (play thousandths setup (applies 3 10 (pos 1) 4 ∷ leaves 2 ∷ creates 3 ∷ []) (run departure))
play-Closed_example =
    play-Closed thousandths setup (applies 3 10 (pos 1) 4 ∷ leaves 2 ∷ creates 3 ∷ [])
      (run departure) 10 (1 ∷ 2 ∷ []) fresh_rooms departed-Closed

play-wealth_example :
    wealth (play thousandths setup departure city).database.state ≡ wealth city.database.state
play-wealth_example = play-wealth thousandths setup departure city

abbrev two_votes : Dict ExpeditionVote
two_votes = (1, ExpeditionVote.continue_run) ∷ (2, ExpeditionVote.exit_run) ∷ []

-- A tie goes with the leader.
tied : decision two_votes (1 ∷ 2 ∷ []) 1 ≡ some ExpeditionVote.continue_run
unfolding decision count_votes
tied = refl

decision-holds_example :
    (votes_against ExpeditionVote.continue_run two_votes (1 ∷ 2 ∷ [])
      ≤ votes_for ExpeditionVote.continue_run two_votes (1 ∷ 2 ∷ []))
    × ((all_of (λ id. has_key id two_votes) (1 ∷ 2 ∷ []) ≡ true)
        ⊎ (length {A = ℕ} (1 ∷ 2 ∷ [])
            < votes_for ExpeditionVote.continue_run two_votes (1 ∷ 2 ∷ [])
              + votes_for ExpeditionVote.continue_run two_votes (1 ∷ 2 ∷ [])))
decision-holds_example = decision-holds two_votes (1 ∷ 2 ∷ []) 1 ExpeditionVote.continue_run tied

decision-Wins_example :
    (decision two_votes (1 ∷ 2 ∷ []) 1 ≡ some ExpeditionVote.continue_run)
    ↔ Wins ExpeditionVote.continue_run
        (count_votes is_continue two_votes (1 ∷ 2 ∷ []))
        (count_votes is_exit two_votes (1 ∷ 2 ∷ []))
        2
        true
        (some ExpeditionVote.continue_run)
decision-Wins_example = decision-Wins two_votes (1 ∷ 2 ∷ []) 1 ExpeditionVote.continue_run

-- The room of the expedition, with the room of no one as what stands for none.
abbrev departed_room : RoomState ℕ
departed_room = elim (find (has_member 2) (values (run departure).rooms)) [
  | none ↦ new_room 0 0 0 (create_member (hero 0))
  | some room ↦ room
]

departed_room-found :
    (find (has_member 2) (values (run departure).rooms) ≡ some departed_room)
    × (is_running departed_room.phase ≡ true)
unfolding run ◌-ℤ◌ ◌+ℤ◌
departed_room-found = (refl, refl)

-- Both members try to leave, another player applies to it, and its leader starts it again.
abbrev meddling : List Event
meddling =
    leaves 2
    ∷ leaves 1
    ∷ readies 2 false
    ∷ applies 3 10 (pos 5) 7
    ∷ reviews 1 3 true
    ∷ selects 1 1 1
    ∷ starts 1
    ∷ []

departed_room-Stands : Stands departed_room.id departed_room (run departure)
unfolding run ◌-ℤ◌ ◌+ℤ◌
departed_room-Stands = (((refl, λ _. refl), tt), refl)

departed_room-settled : departed_room.applications ≡ []
unfolding run ◌-ℤ◌ ◌+ℤ◌
departed_room-settled = refl

locked_while_running_example :
    lookup departed_room.id (play thousandths setup meddling (run departure)).rooms
    ≡ some departed_room
locked_while_running_example =
    locked_while_running thousandths setup (run departure) departed_room meddling
      departed_room-Stands departed_room-found.1 departed_room-settled
      (tt, (tt, (tt, (tt, (tt, (tt, (tt, tt)))))))

abbrev both_online : Availability
both_online = record { online = 1 ∷ 2 ∷ []; combat_locked = [] }

-- The city, once player 1 has asked player 2 to trade.
abbrev after_request : Manager ℕ
after_request = record city {
  database = (economy_transact 90 (request_trade env both_online 1 2) some city.database).1;
}

request_applied :
    (economy_transact 90 (request_trade env both_online 1 2) some city.database).0 ≡ applied 1000
unfolding run player find_player_by_name assert_trade_available request_trade put_trade
request_applied = refl

play-AppliedOnce_example :
    (economy_transact 90
        (request_trade env both_online 1 2)
        some
        (play thousandths setup departure after_request).database
      ≡ (
        repeated (
            lookup 90
              (play thousandths setup departure after_request).database.operation_references),
        (play thousandths setup departure after_request).database,
      ))
    × Recorded 90 (some 1000) (play thousandths setup departure after_request).database
play-AppliedOnce_example =
    play-AppliedOnce thousandths setup 90 (request_trade env both_online 1 2)
      (request_trade env both_online 1 2) some city 1000 departure request_applied
