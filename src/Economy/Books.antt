-- ===== src/Economy/Books.antt =====
-- The transactions of server/economy/EconomyService.ts keep the book of orders in order.
pub mod Orders
pub mod Trades
pub mod Slots
pub mod History
use vaelmour_game.Prelude.{
  ℕ, ◌≡◌, subst, Bool, true, false, Option, none, some, List, [], ◌∷◌, if◌then◌else◌, ◌==◌, not,
}
use vaelmour_game.Prelude.Int.{ℤ, pos, ◌-ℤ◌}
use vaelmour_game.Prelude.Dict.{insert}
use vaelmour_game.Data.{StoredPlayerProfile}
use vaelmour_game.Economy.Types.{
  EconomyState, Env, LedgerReason, MarketOrder, MarketSide, DirectTrade, PartySlotReservation,
}
use vaelmour_game.Economy.Monad.{
  World, Action, Result, ok, err, Error, Void, ◌>>=◌, pure, throw, or_throw, throw_if, gets, modify,
  when, for_each, random_uuid, now,
}
use vaelmour_game.Economy.Store.{
  player, change_player, put_order, put_trade, put_reservation, ledger, add_inventory, trade,
}
use vaelmour_game.Economy.Market.{match}
use vaelmour_game.Economy.Market.Book.{IsBook, HasUnits, IsBook-insert}
use vaelmour_game.Economy.Market.Fills.{
  Writes, Wrote, Same, Writes-player, Writes-change_player, Writes-ledger, Writes-add_inventory,
}
use vaelmour_game.Economy.Market.Settled.{Settles, match-Settles}

abbrev pub Kept : {A : Type 0} → Result (A × World) → Type 0
Kept (ok (_, w)) = IsBook w.state.market_orders
Kept (err _) = Unit {0}

-- A run that succeeds leaves the book in order, if it was.
pub record KeepsBook {A : Type 0} (m : Action A) : Type 0 where
  pub run : (w : World) → IsBook w.state.market_orders → Kept (m w)

Kept-bind :
    {A B : Type 0} (r : Result (A × World)) (f : A → Action B)
    → Kept r
    → ((a : A) → KeepsBook (f a))
    → Kept (elim r [ ok (a, w) ↦ f a w | err e ↦ err e ])
Kept-bind (ok (a, w)) f h k = (k a).run w h
Kept-bind (err e) f h k = tt

Wrote-Kept :
    {A : Type 0} (w : World) (r : Result (A × World))
    → IsBook w.state.market_orders
    → Wrote Same w r
    → Kept r
Wrote-Kept w (ok (a, w')) h p = rw p h
Wrote-Kept w (err e) h p = tt

Settles-Kept : (item_id : ℕ) (r : Result (Void × World)) → Settles item_id r → Kept r
Settles-Kept item_id (ok (a, w)) h = h.0
Settles-Kept item_id (err e) h = tt

pub KeepsBook-after :
    {A B : Type 0} {m : Action A} {f : A → Action B}
    → KeepsBook m
    → ((a : A) → KeepsBook (f a))
    → KeepsBook (m >>= f)
unfolding ◌>>=◌
KeepsBook-after {m} {f} hm hf = record { run = λ w h. Kept-bind (m w) f (hm.run w h) hf }

pub KeepsBook-same : {A : Type 0} {m : Action A} → Writes Same m → KeepsBook m
KeepsBook-same {m} h = record { run = λ w b. Wrote-Kept w (m w) b (h.run w) }

pub KeepsBook-pure : {A : Type 0} (a : A) → KeepsBook (pure a)
unfolding pure
KeepsBook-pure a = record { run = λ w h. h }

pub KeepsBook-throw : {A : Type 0} (e : Error) → KeepsBook (throw {A = A} e)
unfolding throw
KeepsBook-throw e = record { run = λ w h. tt }

pub KeepsBook-or_throw : {A : Type 0} (o : Option A) (e : Error) → KeepsBook (or_throw o e)
unfolding or_throw
KeepsBook-or_throw none e = KeepsBook-throw e
KeepsBook-or_throw (some a) e = KeepsBook-pure a

pub KeepsBook-throw_if : (c : Bool) (e : Error) → KeepsBook (throw_if c e)
unfolding throw_if
KeepsBook-throw_if true e = record { run = λ w h. tt }
KeepsBook-throw_if false e = record { run = λ w h. h }

pub KeepsBook-gets : {A : Type 0} (f : EconomyState → A) → KeepsBook (gets f)
unfolding gets
KeepsBook-gets f = record { run = λ w h. h }

pub KeepsBook-random_uuid : (env : Env) → KeepsBook (random_uuid env)
unfolding random_uuid
KeepsBook-random_uuid env = record { run = λ w h. h }

pub KeepsBook-now : (env : Env) → KeepsBook (now env)
unfolding now
KeepsBook-now env = record { run = λ w h. h }

pub KeepsBook-player : (id : ℕ) → KeepsBook (player id)
KeepsBook-player id = KeepsBook-same (Writes-player id)

pub KeepsBook-trade : (id : ℕ) → KeepsBook (trade id)
unfolding trade
KeepsBook-trade id = KeepsBook-after (KeepsBook-gets _) (λ o. KeepsBook-or_throw o _)

pub KeepsBook-change_player :
    (id : ℕ) (f : StoredPlayerProfile → StoredPlayerProfile) → KeepsBook (change_player id f)
KeepsBook-change_player id f = KeepsBook-same (Writes-change_player id f)

pub KeepsBook-put_order : (o : MarketOrder) → HasUnits o → KeepsBook (put_order o)
unfolding put_order modify
KeepsBook-put_order o u = record { run = λ w h. IsBook-insert o w.state.market_orders u h }

pub KeepsBook-put_trade : (t : DirectTrade) → KeepsBook (put_trade t)
unfolding put_trade modify
KeepsBook-put_trade t = record { run = λ w h. h }

pub KeepsBook-put_reservation : (r : PartySlotReservation) → KeepsBook (put_reservation r)
unfolding put_reservation modify
KeepsBook-put_reservation r = record { run = λ w h. h }

pub KeepsBook-when : (c : Bool) {body : Action Void} → KeepsBook body → KeepsBook (when c body)
unfolding when
KeepsBook-when true h = h
KeepsBook-when false h = KeepsBook-pure tt

pub KeepsBook-if :
    {A : Type 0} (c : Bool) {m k : Action A}
    → KeepsBook m
    → KeepsBook k
    → KeepsBook (if c then m else k)
KeepsBook-if true hm hk = hm
KeepsBook-if false hm hk = hk

pub KeepsBook-bool :
    {A : Type 0} (c : Bool) (m k : Action A)
    → KeepsBook m
    → KeepsBook k
    → KeepsBook (elim c [ true ↦ m | false ↦ k ])
KeepsBook-bool true m k hm hk = hm
KeepsBook-bool false m k hm hk = hk

pub KeepsBook-option :
    {A B : Type 0} (o : Option A) (m : Action B) (k : A → Action B)
    → KeepsBook m
    → ((a : A) → KeepsBook (k a))
    → KeepsBook (elim o [ none ↦ m | some a ↦ k a ])
KeepsBook-option none m k hm hk = hm
KeepsBook-option (some a) m k hm hk = hk a

pub KeepsBook-for_each :
    {A : Type 0} {body : A → Action Void} (xs : List A)
    → ((a : A) → KeepsBook (body a))
    → KeepsBook (for_each body xs)
unfolding for_each
KeepsBook-for_each [] h = KeepsBook-pure tt
KeepsBook-for_each (x ∷ xs) h = KeepsBook-after (h x) (λ _. KeepsBook-for_each xs h)

pub ruleset book_rules = (
  KeepsBook-after, KeepsBook-pure, KeepsBook-throw, KeepsBook-or_throw, KeepsBook-throw_if,
  KeepsBook-gets, KeepsBook-random_uuid, KeepsBook-now, KeepsBook-player, KeepsBook-trade,
  KeepsBook-change_player, KeepsBook-put_trade, KeepsBook-put_reservation, KeepsBook-when,
  KeepsBook-if, KeepsBook-for_each,
)

module _ (env : Env) where
  pub KeepsBook-ledger :
      (id : ℕ) (n : ℤ) (reason : LedgerReason) → KeepsBook (ledger env id n reason)
  KeepsBook-ledger id n reason = KeepsBook-same (Writes-ledger env id n reason)

  pub KeepsBook-add_inventory :
      (id item_id quantity : ℕ) (preferred : Option ℕ)
      → KeepsBook (add_inventory env id item_id quantity preferred)
  KeepsBook-add_inventory id item_id quantity preferred =
      KeepsBook-same (Writes-add_inventory env id item_id quantity preferred)

  pub KeepsBook-match : (item_id : ℕ) → KeepsBook (match env item_id)
  KeepsBook-match item_id = record {
    run = λ w h. Settles-Kept item_id (match env item_id w) (match-Settles env item_id w h);
  }
