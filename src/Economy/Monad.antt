-- ===== src/Economy/Monad.antt =====
-- One transaction of `EconomyService`: the callback of `economyTransact` runs on a clone of the
-- state, and a throw discards the clone. So an error carries no state.
use vaelmour_game.Prelude.{
  ◌≡◌, refl, ℕ, suc, Bool, Option, none, some, List, [], ◌∷◌, if◌then◌else◌,
}
use vaelmour_game.Economy.Types.{EconomyState, Env}

-- The codes of `EconomyError`; `type_error` is a read of a field of `undefined`, and `fuel` a loop
-- of the model that ran out of rounds.
pub data Error : Type 0 where
  player_not_found trade_not_found item_not_available unknown_item invalid_quantity : Error
  not_enough_items insufficient_available_coins order_not_owned order_closed : Error
  escrow_mismatch reservation_mismatch insufficient_market_liquidity self_trade : Error
  player_offline expedition_locked active_trade_exists trade_not_acceptable : Error
  not_trade_participant trade_not_active duplicate_item stale_trade_revision : Error
  trade_item_missing trade_coin_mismatch invalid_amount invalid_slot_offer : Error
  slot_already_reserved leader_mismatch slot_settlement_failed type_error fuel : Error

pub data Result {ℓ} (A : Type ℓ) : Type ℓ where
  ok : A → Result A
  err : Error → Result A

-- The clone, with how many answers of `randomUUID` and of `now` have been used.
pub record World : Type 0 where
  pub state : EconomyState
  pub draws : ℕ
  pub ticks : ℕ

abbrev pub Action : Type 0 → Type 0
Action A = World → Result (A × World)

abbrev pub Void : Type 0
Void = Unit {0}

module _ {A : Type 0} where
  unfoldable pub pure : A → Action A
  pure a w = ok (a, w)

  unfoldable pub throw : Error → Action A
  throw e w = err e

  unfoldable pub or_throw : Option A → Error → Action A
  or_throw none e = throw e
  or_throw (some a) e = pure a

infixl 5 ◌>>=◌ ◌>>◌
unfoldable pub ◌>>=◌ : {A B : Type 0} → Action A → (A → Action B) → Action B
◌>>=◌ m f w = elim (m w) [ ok (a, w') ↦ f a w' | err e ↦ err e ]

abbrev pub ◌>>◌ : {A B : Type 0} → Action A → Action B → Action B
m >> k = m >>= λ _. k

unfoldable pub throw_if : Bool → Error → Action Void
throw_if c e w = if c then err e else ok (tt, w)

unfoldable pub gets : {A : Type 0} → (EconomyState → A) → Action A
gets f w = ok (f w.state, w)

unfoldable pub modify : (EconomyState → EconomyState) → Action Void
modify f w = ok (tt, record w { state = f w.state })

-- `if (c) { body }`
unfoldable pub when : Bool → Action Void → Action Void
when c body = if c then body else pure tt

-- A chain that succeeds has succeeded at each step.
pub >>=-ok :
    {A B : Type 0} (m : Action A) (f : A → Action B) {w w' : World} {b : B}
    → (m >>= f) w ≡ ok (b, w')
    → (a : A) × (w1 : World) × (m w ≡ ok (a, w1)) × (f a w1 ≡ ok (b, w'))
unfolding ◌>>=◌
>>=-ok {A} {B} m f {w} {w'} {b} h = go (m w) refl h
  where
    go :
        (r : Result (A × World))
        → m w ≡ r
        → (elim r [ ok (a, v) ↦ f a v | err e ↦ err e ]) ≡ ok (b, w')
        → (a : A) × (w1 : World) × (m w ≡ ok (a, w1)) × (f a w1 ≡ ok (b, w'))
    go (ok (a, w1)) e k = (a, w1, e, k)
    go (err x) e k = cc

-- `for (const x of xs) body(x)`
unfoldable pub for_each : {A : Type 0} → (A → Action Void) → List A → Action Void
for_each body [] = pure tt
for_each body (x ∷ xs) = body x >> for_each body xs

module _ (env : Env) where
  unfoldable pub random_uuid : Action ℕ
  random_uuid w = ok (env.random_uuid w.draws, record w { draws = suc w.draws })

  unfoldable pub now : Action ℕ
  now w = ok (env.now w.ticks, record w { ticks = suc w.ticks })
