-- ===== src/Rooms/Battle.antt =====
-- submitAction, setAutoBattle, resolveDueRounds and resolveRoomRound of server/rooms/RoomManager.ts.
use vaelmour_game.Prelude.{
  ℕ, suc, ◌-◌, Bool, true, false, not, ◌&&◌, ◌||◌, Option, none, some, List, [], ◌∷◌, ltb,
  if◌then◌else◌, keep, map, sort_by,
}
use vaelmour_game.Prelude.Int.{pos, ◌-ℤ◌}
use vaelmour_game.Prelude.Dict.{Dict, lookup, insert, values}
use vaelmour_game.Combat.Types.{
  Float, Zone, zones, Character, Enemy, ActionType, CombatAction, RoundResult,
}
use vaelmour_game.Combat.Engine.{nth, or_else, is_potion, generate_enemy_action}
use vaelmour_game.Combat.Round.{resolve_round}
use vaelmour_game.Combat.AutoPotion.{AutoPotionDecision, AutoPotionInput, select_auto_potion}
use vaelmour_game.Economy.Repository.Profiles.{transact}
use vaelmour_game.Players.Attempt.{map_done, not_enough_items}
use vaelmour_game.Players.Items.{consume_item}
use vaelmour_game.Rooms.Handler.{
  Handler, Thrown, service, ◌>>=◌, ◌>>◌, pure, try_catch, branch, if_some,
}
use vaelmour_game.Rooms.Types.{RoomPhase, RoomMember, RoomState, Manager, Setup}
use vaelmour_game.Rooms.Store.{
  has_key, keys_of, change_at, map_values, change_room, change_profile, floor_definition,
}
use vaelmour_game.Rooms.Votes.{all_of}

-- The payload of SUBMIT_ACTION; a zone is one of the three.
pub record SubmittedAction : Type 0 where
  pub round : ℕ
  pub attack_zone : Option Zone
  pub defend_zone : Zone
  pub use_potion : Bool
  pub potion_item_id : Option ℕ

-- `toCombatAction` of shared/protocol.ts
unfoldable pub to_combat_action : SubmittedAction → CombatAction
to_combat_action a =
    if a.use_potion
    then record {
      kind = ActionType.potion;
      attack_zone = none;
      defend_zone = a.defend_zone;
      potion_item_id = a.potion_item_id;
    }
    else record {
      kind = ActionType.attack;
      attack_zone = a.attack_zone;
      defend_zone = a.defend_zone;
      potion_item_id = none;
    }

abbrev pub attack_with : Option Zone → Zone → CombatAction
attack_with attack defend = record {
  kind = ActionType.attack;
  attack_zone = attack;
  defend_zone = defend;
  potion_item_id = none;
}

abbrev pub is_alive : ℕ × RoomMember → Bool
is_alive (_, m) = m.character.alive

-- The actions of a round, with how many answers of `random` have been used.
pub record Planned : Type 0 where
  pub actions : Dict CombatAction
  pub random : ℕ

abbrev pub drink_one : ℕ → RoomMember → RoomMember
drink_one item_id m = record m {
  expedition_potion_quantities = change_at item_id (λ n. n - 1) m.expedition_potion_quantities;
  expedition_potions = m.expedition_potions -ℤ pos 1;
}

-- `(member?.expeditionPotionQuantities[id] ?? 0) > 0`
abbrev pub has_potion : RoomMember → ℕ → Bool
has_potion m item_id = ltb 0 (or_else (lookup item_id m.expedition_potion_quantities) 0)

abbrev pub with_outcome : Character → Option ℕ → RoomMember → RoomMember
with_outcome c cooldown m = record m {
  character = c;
  potion_cooldown = or_else cooldown m.potion_cooldown;
}

-- `result.party.forEach(...)`
abbrev pub take_outcomes : List Character → Dict ℕ → Dict RoomMember → Dict RoomMember
take_outcomes [] cooldowns members = members
take_outcomes (c ∷ cs) cooldowns members =
    take_outcomes cs cooldowns (change_at c.id (with_outcome c (lookup c.id cooldowns)) members)

-- `member.currentHP` to `potionCooldown` as Auto Battle reads them
abbrev pub with_submitted : {F : Type 0} → ℕ → CombatAction → RoomState F → RoomState F
with_submitted player_id a room = record room { actions = insert player_id a room.actions }

abbrev pub with_auto : {F : Type 0} → ℕ → Bool → RoomState F → RoomState F
with_auto player_id enabled room = record room {
  members = change_at player_id (λ m. record m { auto_battle = enabled }) room.members;
}

abbrev pub with_member_at : {F : Type 0} → ℕ → (RoomMember → RoomMember) → RoomState F → RoomState F
with_member_at player_id f room = record room { members = change_at player_id f room.members }

abbrev pub set_resolving : {F : Type 0} → Bool → RoomState F → RoomState F
set_resolving b room = record room { resolving = b }

abbrev pub with_result : {F : Type 0} → RoundResult F → RoomState F → RoomState F
with_result result room = record room {
  enemy = some result.enemy;
  members = take_outcomes result.party result.potion_cooldowns room.members;
}

abbrev pub stopped : {F : Type 0} → RoomState F → RoomState F
stopped room = record room { phase = RoomPhase.failed_run; round_ends_at = none }

abbrev pub next_round : {F : Type 0} → RoomState F → RoomState F
next_round room = record room { round = suc room.round }

-- `canResolveEarly`
unfoldable pub can_resolve_early : {F : Type 0} → RoomState F → Bool
can_resolve_early room =
    let alive = keep is_alive room.members in
    (elim alive [ [] ↦ false | _ ∷ _ ↦ true ])
    && all_of (λ (_, m). not m.auto_battle) alive
    && all_of (λ (id, m). m.connected && has_key id room.actions) alive

module _ (fl : Float) (setup : Setup fl.F) where
  open fl use {F, of_ℕ, mul, lt, floor}

  -- `ITEM_CATALOG[id]?.potionHealPercent ?? 0`
  abbrev pub heal_of : ℕ → F
  heal_of item_id = or_else (setup.heal_percent item_id) (of_ℕ 0)

  -- `randomZone`, at one answer
  unfoldable pub random_zone : ℕ → Zone
  random_zone n = or_else (nth (floor (mul (fl.random n) (of_ℕ 3))) zones) Zone.body

  abbrev pub content_tier : RoomState F → ℕ
  content_tier room = elim (floor_definition setup room.rift_id room.floor_number) [
    | none ↦ 1
    | some f ↦ f.resource_tier
  ]

  abbrev pub auto_input : RoomState F → RoomMember → AutoPotionInput F
  auto_input room m = record {
    current_hp = m.character.current_hp;
    max_hp = m.character.max_hp;
    potion_cooldown = m.potion_cooldown;
    content_tier = content_tier room;
    potions =
        map (λ (id, n). record { item_id = id; quantity = n; heal_percent = heal_of id })
          m.expedition_potion_quantities;
  }

  abbrev pub auto_action : Option (AutoPotionDecision F) → ℕ → CombatAction × ℕ
  auto_action (some d) n = (
    record {
      kind = ActionType.potion;
      attack_zone = none;
      defend_zone = random_zone n;
      potion_item_id = some d.potion_item_id;
    },
    suc n,
  )
  auto_action none n = (attack_with (some (random_zone n)) (random_zone (suc n)), suc (suc n))

  abbrev pub plan_for : RoomState F → RoomMember → ℕ → CombatAction × ℕ
  plan_for room m n =
      if m.connected && m.auto_battle
      then auto_action (select_auto_potion fl setup.locale_before (auto_input room m)) n
      else (attack_with none (random_zone n), suc n)

  -- The loop that gives an action to each living member without one.
  unfoldable pub plan_actions : RoomState F → Dict RoomMember → Planned → Planned
  plan_actions room [] p = p
  plan_actions room ((id, m) ∷ ms) p = elim (not m.character.alive || has_key id p.actions) [
    | true ↦ plan_actions room ms p
    | false ↦
        let (a, n) = plan_for room m p.random in
        plan_actions room ms (record { actions = insert id a p.actions; random = n })
  ]

  -- `available.sort(...)[0]?.[0]`: the strongest potion that is left
  abbrev pub strongest_potion : RoomMember → Option ℕ
  strongest_potion m = nth 0 (
      sort_by (λ a b. lt (heal_of b) (heal_of a))
        (keys_of (keep (λ (_, n). ltb 0 n) m.expedition_potion_quantities)))

  abbrev pub wanted_potion : RoomMember → Option ℕ → Option ℕ
  wanted_potion m none = strongest_potion m
  wanted_potion m (some id) = if has_potion m id then some id else strongest_potion m

  abbrev pub potion_for : Option RoomMember → CombatAction → Option ℕ
  potion_for none a = none
  potion_for (some m) a = wanted_potion m a.potion_item_id

  -- Not enough items is an answer; another error is thrown.
  abbrev pub lacking : Thrown → Option (Handler (Manager F) Bool)
  lacking (service not_enough_items) = some (pure false)
  lacking _ = none

  -- `playerStates.consumeItem(id, itemId, 1, ...)`
  unfoldable pub consume_potion : RoomState F → ℕ → ℕ → Handler (Manager F) Bool
  consume_potion room player_id item_id =
      try_catch
        (change_profile (
          transact setup.env player_id
            (setup.keys.potion player_id room.expedition_id room.encounter_index room.round) none
            (λ w. map_done (λ p. record w { profile = p }) (consume_item item_id 1 w.profile))))
        lacking

  -- With the potion where it is there, else a defence.
  unfoldable pub drink_or_attack :
      RoomState F → ℕ → CombatAction → ℕ → Handler (Manager F) CombatAction
  drink_or_attack room player_id a item_id = do
    drunk ← consume_potion room player_id item_id
    branch drunk
        (change_room room.id (with_member_at player_id (drink_one item_id))
          >> pure (record a { potion_item_id = some item_id }))
        (pure (attack_with none a.defend_zone))

  -- One action, as the loop over the potions leaves it.
  unfoldable pub settle_action : RoomState F → ℕ → CombatAction → Handler (Manager F) CombatAction
  settle_action room player_id a =
      branch (is_potion a)
        (if_some (potion_for (lookup player_id room.members) a)
          (pure (attack_with none a.defend_zone))
          (λ item_id. drink_or_attack room player_id a item_id))
        (pure a)

  unfoldable pub settle_actions :
      RoomState F → Dict CombatAction → Handler (Manager F) (Dict CombatAction)
  settle_actions room [] = pure []
  settle_actions room ((id, a) ∷ as_planned) = do
    settled ← settle_action room id a
    rest ← settle_actions room as_planned
    pure ((id, settled) ∷ rest)

  abbrev pub heal_percent_of : CombatAction → F
  heal_percent_of a = elim (is_potion a) [
    | false ↦ fl.potion_heal_percent
    | true ↦ elim a.potion_item_id [
      | none ↦ fl.potion_heal_percent
      | some id ↦ or_else (setup.heal_percent id) fl.potion_heal_percent
    ]
  ]

  -- The enemy's action and the round, after the potions.
  abbrev pub fight : RoomState F → Enemy F → Dict CombatAction → ℕ → RoundResult F
  fight room enemy actions n =
      let party = map (λ m. m.character) (values room.members) in
      let cooldowns = map_values (λ m. m.potion_cooldown) room.members in
      let (enemy_action, n') = generate_enemy_action fl enemy party n in
      resolve_round fl (record {
        party = party;
        enemy = enemy;
        actions = actions;
        enemy_action = enemy_action;
        potion_cooldown =
            or_else (elim (nth 0 party) [ none ↦ none | some c ↦ lookup c.id cooldowns ]) 0;
        potion_cooldowns = some cooldowns;
        potion_heal_percents = some (map_values heal_percent_of actions);
        random = n';
      })
