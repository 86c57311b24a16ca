-- ===== src/Economy/Valuation.antt =====
-- Additive quantities of the economy's state, and the rules by which a transaction shifts one.
use vaelmour_game.Prelude.{
  ℕ, ◌≡◌, refl, sym, inl, inr, Bool, true, false, Option, none, some, List, [], ◌∷◌, ◌++◌,
  if◌then◌else◌, Option-cases,
}
use vaelmour_game.Prelude.Int.{ℤ, pos, ◌+ℤ◌, int_laws}
use vaelmour_game.Prelude.Dict.{lookup, sum_by, sum_by-insert}
use vaelmour_game.Data.{StoredPlayerProfile}
use vaelmour_game.Economy.Types.{
  EconomyState, Env, CoinLedgerRecord, MarketOrder, DirectTrade, PartySlotReservation, MarketFill,
}
use vaelmour_game.Economy.Monad.{
  World, Action, Result, ok, err, Error, Void, ◌>>=◌, pure, throw, or_throw, throw_if, gets, modify,
  when, for_each, random_uuid, now,
}
use vaelmour_game.Economy.Store.{
  player, put_player, change_player, put_order, put_trade, put_reservation, push_fill, push_ledger,
  trade,
}

-- What a player and what a line of the ledger counts.
pub record Valuation : Type 0 where
  pub on_player : ℕ → StoredPlayerProfile → ℤ
  pub on_ledger : CoinLedgerRecord → ℤ

abbrev pub sum_ledger : (CoinLedgerRecord → ℤ) → List CoinLedgerRecord → ℤ
sum_ledger f [] = pos 0
sum_ledger f (r ∷ rs) = f r +ℤ sum_ledger f rs

pub sum_ledger-append :
    (f : CoinLedgerRecord → ℤ) (rs : List CoinLedgerRecord) (r : CoinLedgerRecord)
    → sum_ledger f (rs ++ r ∷ []) ≡ sum_ledger f rs +ℤ f r
sum_ledger-append f [] r = grind int_laws
sum_ledger-append f (x ∷ rs) r = grind (int_laws, sum_ledger-append f rs r)

abbrev pub value : Valuation → EconomyState → ℤ
value v s = sum_by v.on_player s.players +ℤ sum_ledger v.on_ledger s.ledger

-- How a run that began at `w` has shifted the quantity, if it succeeded.
abbrev pub Moves : {A : Type 0} → Valuation → ℤ → World → Result (A × World) → Type 0
Moves v d w (ok (_, w')) = value v w'.state ≡ value v w.state +ℤ d
Moves v d w (err _) = Unit {0}

-- A record, so that the transaction shows in the type.
pub record Shifts {A : Type 0} (v : Valuation) (d : ℤ) (m : Action A) : Type 0 where
  pub run : (w : World) → Moves v d w (m w)

Moves-trans :
    {A : Type 0} (v : Valuation) (d e : ℤ) (w w' : World) (r : Result (A × World))
    → value v w'.state ≡ value v w.state +ℤ d
    → Moves v e w' r
    → Moves v (d +ℤ e) w r
Moves-trans v d e w w' (ok (a, w'')) h k = rw (k, h) (grind int_laws)
Moves-trans v d e w w' (err _) h k = tt

Moves-bind :
    {A B : Type 0} (v : Valuation) (d e : ℤ) (w : World) (r : Result (A × World)) (f : A → Action B)
    → Moves v d w r
    → ((a : A) (w' : World) → Moves v e w' (f a w'))
    → Moves v (d +ℤ e) w (elim r [ ok (a, w') ↦ f a w' | err x ↦ err x ])
Moves-bind v d e w (ok (a, w')) f h k = Moves-trans v d e w w' (f a w') h (k a w')
Moves-bind v d e w (err x) f h k = tt

Moves-eq :
    {A : Type 0} (v : Valuation) (d e : ℤ) (w : World) (r : Result (A × World))
    → d ≡ e
    → Moves v d w r
    → Moves v e w r
Moves-eq v d e w (ok _) p h = rw (← p) h
Moves-eq v d e w (err _) p h = tt

shift_part :
    (x y old new rest d : ℤ) → x +ℤ old ≡ y +ℤ new → new ≡ old +ℤ d → x +ℤ rest ≡ y +ℤ rest +ℤ d
shift_part x y old new rest d h k = grind int_laws

module _ (v : Valuation) where
  value-keeps : (x : ℤ) → x ≡ x +ℤ pos 0
  value-keeps x = grind int_laws

  pub Shifts-bind :
      {A B : Type 0} (d e : ℤ) {m : Action A} {f : A → Action B}
      → Shifts v d m
      → ((a : A) → Shifts v e (f a))
      → Shifts v (d +ℤ e) (m >>= f)
  unfolding ◌>>=◌
  Shifts-bind d e {m} {f} hm hf = record {
    run = λ w. Moves-bind v d e w (m w) f (hm.run w) (λ a w'. (hf a).run w');
  }

  pub Shifts-eq : {A : Type 0} {d : ℤ} (e : ℤ) {m : Action A} → d ≡ e → Shifts v d m → Shifts v e m
  Shifts-eq {d} e {m} p h = record { run = λ w. Moves-eq v d e w (m w) p (h.run w) }

  -- A step that shifts the quantity by `d`, of `t` in all, with `e` left for the rest.
  pub Shifts-step :
      {A B : Type 0} {t d : ℤ} (e : ℤ) {m : Action A} {f : A → Action B}
      → d +ℤ e ≡ t
      → Shifts v d m
      → ((a : A) → Shifts v e (f a))
      → Shifts v t (m >>= f)
  Shifts-step {t} {d} e h hm hf = Shifts-eq t h (Shifts-bind d e hm hf)

  -- A step that keeps the quantity, before the rest.
  pub Shifts-after :
      {A B : Type 0} {d : ℤ} {m : Action A} {f : A → Action B}
      → Shifts v (pos 0) m
      → ((a : A) → Shifts v d (f a))
      → Shifts v d (m >>= f)
  Shifts-after {d} hm hf = Shifts-step d (grind int_laws) hm hf

  pub Shifts-pure : {A : Type 0} (a : A) → Shifts v (pos 0) (pure a)
  unfolding pure
  Shifts-pure a = record { run = λ w. value-keeps _ }

  pub Shifts-throw : {A : Type 0} (d : ℤ) (e : Error) → Shifts v d (throw {A = A} e)
  unfolding throw
  Shifts-throw d e = record { run = λ w. tt }

  pub Shifts-or_throw : {A : Type 0} (o : Option A) (e : Error) → Shifts v (pos 0) (or_throw o e)
  unfolding or_throw throw pure
  Shifts-or_throw none e = record { run = λ w. tt }
  Shifts-or_throw (some a) e = record { run = λ w. value-keeps _ }

  pub Shifts-throw_if : (c : Bool) (e : Error) → Shifts v (pos 0) (throw_if c e)
  unfolding throw_if
  Shifts-throw_if true e = record { run = λ w. tt }
  Shifts-throw_if false e = record { run = λ w. value-keeps _ }

  pub Shifts-gets : {A : Type 0} (f : EconomyState → A) → Shifts v (pos 0) (gets f)
  unfolding gets
  Shifts-gets f = record { run = λ w. value-keeps _ }

  pub Shifts-random_uuid : (env : Env) → Shifts v (pos 0) (random_uuid env)
  unfolding random_uuid
  Shifts-random_uuid env = record { run = λ w. value-keeps _ }

  pub Shifts-now : (env : Env) → Shifts v (pos 0) (now env)
  unfolding now
  Shifts-now env = record { run = λ w. value-keeps _ }

  pub Shifts-player : (id : ℕ) → Shifts v (pos 0) (player id)
  unfolding player
  Shifts-player id = Shifts-after (Shifts-gets _) (λ o. Shifts-or_throw o _)

  pub Shifts-trade : (id : ℕ) → Shifts v (pos 0) (trade id)
  unfolding trade
  Shifts-trade id = Shifts-after (Shifts-gets _) (λ o. Shifts-or_throw o _)

  -- A write that shifts every profile by the same amount.
  pub Shifts-change_player :
      (d : ℤ) (id : ℕ) (f : StoredPlayerProfile → StoredPlayerProfile)
      → ((p : StoredPlayerProfile) → v.on_player id (f p) ≡ v.on_player id p +ℤ d)
      → Shifts v d (change_player id f)
  unfolding change_player player put_player ◌>>=◌ gets or_throw throw pure modify
  Shifts-change_player d id f h = record {
    run = λ w. elim (Option-cases (lookup id w.state.players)) [
      | inl e ↦ rw (e, Moves) tt
      | inr (p, e) ↦
          rw (e, Moves)
            (shift_part _ _ _ _ (sum_ledger v.on_ledger w.state.ledger) d
              (sum_by-insert v.on_player id (f p) p w.state.players e) (h p))
    ];
  }

  pub Shifts-push_ledger : (r : CoinLedgerRecord) → Shifts v (v.on_ledger r) (push_ledger r)
  unfolding push_ledger modify
  Shifts-push_ledger r = record {
    run = λ w. grind (int_laws, sum_ledger-append v.on_ledger w.state.ledger r);
  }

  pub Shifts-put_order : (o : MarketOrder) → Shifts v (pos 0) (put_order o)
  unfolding put_order modify
  Shifts-put_order o = record { run = λ w. value-keeps _ }

  pub Shifts-put_trade : (t : DirectTrade) → Shifts v (pos 0) (put_trade t)
  unfolding put_trade modify
  Shifts-put_trade t = record { run = λ w. value-keeps _ }

  pub Shifts-put_reservation : (r : PartySlotReservation) → Shifts v (pos 0) (put_reservation r)
  unfolding put_reservation modify
  Shifts-put_reservation r = record { run = λ w. value-keeps _ }

  pub Shifts-push_fill : (f : MarketFill) → Shifts v (pos 0) (push_fill f)
  unfolding push_fill modify
  Shifts-push_fill f = record { run = λ w. value-keeps _ }

  pub Shifts-when :
      {d : ℤ} (c : Bool) {body : Action Void}
      → (c ≡ false → d ≡ pos 0)
      → Shifts v d body
      → Shifts v d (when c body)
  unfolding when
  Shifts-when true z h = h
  Shifts-when {d} false z h = Shifts-eq d (sym (z refl)) (Shifts-pure tt)

  pub Shifts-if :
      {A : Type 0} {d : ℤ} (c : Bool) {m k : Action A}
      → Shifts v d m
      → Shifts v d k
      → Shifts v d (if c then m else k)
  Shifts-if true hm hk = hm
  Shifts-if false hm hk = hk

  pub Shifts-for_each :
      {A : Type 0} {body : A → Action Void} (xs : List A)
      → ((a : A) → Shifts v (pos 0) (body a))
      → Shifts v (pos 0) (for_each body xs)
  unfolding for_each
  Shifts-for_each [] h = Shifts-pure tt
  Shifts-for_each (x ∷ xs) h = Shifts-after (h x) (λ _. Shifts-for_each xs h)

  pub Shifts-option :
      {A B : Type 0} {d : ℤ} (o : Option A) (m : Action B) (k : A → Action B)
      → Shifts v d m
      → ((a : A) → Shifts v d (k a))
      → Shifts v d (elim o [ none ↦ m | some a ↦ k a ])
  Shifts-option none m k hm hk = hm
  Shifts-option (some a) m k hm hk = hk a

  pub Shifts-bool :
      {A : Type 0} {d : ℤ} (c : Bool) (m k : Action A)
      → Shifts v d m
      → Shifts v d k
      → Shifts v d (elim c [ true ↦ m | false ↦ k ])
  Shifts-bool true m k hm hk = hm
  Shifts-bool false m k hm hk = hk
