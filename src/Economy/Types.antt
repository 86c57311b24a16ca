-- ===== src/Economy/Types.antt =====
-- shared/economy-types.ts, and the economy's state in server/repositories/types.ts.
use vaelmour_game.Prelude.{ℕ, Bool, true, false, Option, List}
use vaelmour_game.Prelude.Int.{ℤ}
use vaelmour_game.Prelude.Dict.{Dict}
use vaelmour_game.Data.{StoredPlayerProfile, ItemDefinition}

pub data MarketSide : Type 0 where
  buy sell : MarketSide

pub data MarketOrderStatus : Type 0 where
  open_order partially_filled filled cancelled : MarketOrderStatus

pub data DirectTradeStatus : Type 0 where
  requested active completed cancelled declined : DirectTradeStatus

pub data PartySlotReservationStatus : Type 0 where
  pre_start accepted settled refunded : PartySlotReservationStatus

pub record MarketOrder : Type 0 where
  pub id : ℕ
  pub player_id : ℕ
  pub item_id : ℕ
  pub escrow_item_id : Option ℕ
  pub side : MarketSide
  pub price_per_unit : ℕ
  pub original_quantity : ℕ
  pub remaining_quantity : ℕ
  pub reserved_coins : ℤ
  pub status : MarketOrderStatus
  pub created_at : ℕ
  pub updated_at : ℕ

pub record MarketFill : Type 0 where
  pub id : ℕ
  pub item_id : ℕ
  pub buy_order_id : ℕ
  pub sell_order_id : ℕ
  pub buyer_id : ℕ
  pub seller_id : ℕ
  pub unit_price : ℕ
  pub quantity : ℕ
  pub created_at : ℕ

pub record TradeOfferItem : Type 0 where
  pub id : ℕ
  pub trade_id : ℕ
  pub player_id : ℕ
  pub item_entry_id : ℕ
  pub item_id : ℕ
  pub quantity : ℕ

pub record DirectTrade : Type 0 where
  pub id : ℕ
  pub requester_id : ℕ
  pub receiver_id : ℕ
  pub status : DirectTradeStatus
  pub revision : ℕ
  pub requester_confirmed_revision : Option ℕ
  pub receiver_confirmed_revision : Option ℕ
  pub items : List TradeOfferItem
  pub coins : Dict ℤ
  pub created_at : ℕ
  pub updated_at : ℕ

pub record PartySlotReservation : Type 0 where
  pub id : ℕ
  pub room_id : ℕ
  pub applicant_id : ℕ
  pub leader_id : Option ℕ
  pub amount : ℕ
  pub status : PartySlotReservationStatus
  pub expires_at : ℕ
  pub created_at : ℕ
  pub updated_at : ℕ

-- The reasons that the economy writes, of `LedgerReason`.
pub data LedgerReason : Type 0 where
  rift_reward admin : LedgerReason
  market_buy_reserve market_buy_release market_buy market_sell : LedgerReason
  market_buy_order_fee market_transaction_fee direct_trade : LedgerReason
  party_slot_reserve party_slot_refund party_slot_payment : LedgerReason

-- `referenceId` is a text that the code writes and does not read; it is left out.
pub record CoinLedgerRecord : Type 0 where
  pub id : ℕ
  pub player_id : ℕ
  pub amount : ℤ
  pub reason : LedgerReason
  pub resulting_balance : ℤ
  pub created_at : ℕ

pub record EconomyState : Type 0 where
  pub players : Dict StoredPlayerProfile
  pub market_orders : Dict MarketOrder
  pub market_fills : List MarketFill
  pub trades : Dict DirectTrade
  pub party_slot_reservations : Dict PartySlotReservation
  pub ledger : List CoinLedgerRecord

-- What the service calls and does not implement: the catalog that it is given, `randomUUID` and
-- `now` as sequences of answers, the two orders on texts, `localeCompare` and `<`, and the chain of
-- string built-ins in `normalizePlayerName`.
pub record Env : Type 0 where
  pub catalog : ℕ → Option ItemDefinition
  pub random_uuid : ℕ → ℕ
  pub now : ℕ → ℕ
  pub locale_before : ℕ → ℕ → Bool
  pub text_before : ℕ → ℕ → Bool
  pub normalize_player_name : ℕ → ℕ

-- `order.status === 'OPEN' || order.status === 'PARTIALLY_FILLED'`
abbrev pub is_live_status : MarketOrderStatus → Bool
is_live_status MarketOrderStatus.open_order = true
is_live_status MarketOrderStatus.partially_filled = true
is_live_status _ = false

abbrev pub is_live : MarketOrder → Bool
is_live o = is_live_status o.status

-- `trade.status === 'REQUESTED' || trade.status === 'ACTIVE'`
abbrev pub is_pending_status : DirectTradeStatus → Bool
is_pending_status DirectTradeStatus.requested = true
is_pending_status DirectTradeStatus.active = true
is_pending_status _ = false

abbrev pub is_pending : DirectTrade → Bool
is_pending t = is_pending_status t.status

-- A reservation that is held: `PRE_START` or `ACCEPTED`.
abbrev pub is_held_status : PartySlotReservationStatus → Bool
is_held_status PartySlotReservationStatus.pre_start = true
is_held_status PartySlotReservationStatus.accepted = true
is_held_status _ = false

abbrev pub is_held : PartySlotReservation → Bool
is_held r = is_held_status r.status
