-- ===== src/Economy/Market/Fills.antt =====
-- What the steps of server/economy/EconomyService.ts write to the book of orders, and that none of
-- them runs out of rounds.
use vaelmour_game.Prelude.{ℕ, ◌≡◌, refl, ◌∙◌, subst, Bool, true, false, Option, none, some}
use vaelmour_game.Prelude.Int.{ℤ}
use vaelmour_game.Prelude.Dict.{Dict, insert}
use vaelmour_game.Data.{StoredPlayerProfile}
use vaelmour_game.Economy.Types.{
  EconomyState, Env, CoinLedgerRecord, LedgerReason, MarketOrder, MarketFill,
}
use vaelmour_game.Economy.Monad.{
  World, Action, Result, ok, err, Error, Void, ◌>>=◌, ◌>>◌, pure, throw, or_throw, throw_if, gets,
  modify, when, random_uuid, now, fuel, player_not_found, escrow_mismatch, reservation_mismatch,
}
use vaelmour_game.Economy.Store.{
  player, put_player, change_player, put_order, push_fill, push_ledger, ledger, or_random,
  same_stack, add_inventory,
}
use vaelmour_game.Economy.Market.{settle_fill, after_fill, update_order_status}

-- From the book before a run to the book after it.
abbrev pub Change : Type 1
Change = Dict MarketOrder → Dict MarketOrder → Type 0

abbrev pub Same : Change
Same d d' = d' ≡ d

abbrev pub Put : MarketOrder → Change
Put o d d' = d' ≡ insert o.id o d

-- A run that succeeds changes the book as told, and one that fails has not run out of rounds.
abbrev pub Wrote : {A : Type 0} → Change → World → Result (A × World) → Type 0
Wrote R w (ok (_, w')) = R w.state.market_orders w'.state.market_orders
Wrote R w (err e) = ¬ (e ≡ fuel)

pub record Writes {A : Type 0} (R : Change) (m : Action A) : Type 1 where
  pub run : (w : World) → Wrote R w (m w)

Wrote-bind :
    {A B : Type 0} (R S T : Change) (w : World) (r : Result (A × World)) (f : A → Action B)
    → ((c d e : Dict MarketOrder) → R c d → S d e → T c e)
    → Wrote R w r
    → ((a : A) (w' : World) → Wrote S w' (f a w'))
    → Wrote T w (elim r [ ok (a, w') ↦ f a w' | err x ↦ err x ])
Wrote-bind R S T w (err x) f h p q = p
Wrote-bind {B} R S T w (ok (a, w')) f h p q = last (f a w') (q a w')
  where
    last : (r : Result (B × World)) → Wrote S w' r → Wrote T w r
    last (ok (b, w'')) k = h _ _ _ p k
    last (err x) k = k

pub Writes-bind :
    {A B : Type 0} (R S T : Change) {m : Action A} {f : A → Action B}
    → ((c d e : Dict MarketOrder) → R c d → S d e → T c e)
    → Writes R m
    → ((a : A) → Writes S (f a))
    → Writes T (m >>= f)
unfolding ◌>>=◌
Writes-bind R S T {m} {f} h hm hf = record {
  run = λ w. Wrote-bind R S T w (m w) f h (hm.run w) (λ a w'. (hf a).run w');
}

-- A step that leaves the book alone, before the rest.
pub Writes-after :
    {A B : Type 0} {R : Change} {m : Action A} {f : A → Action B}
    → Writes Same m
    → ((a : A) → Writes R (f a))
    → Writes R (m >>= f)
Writes-after {R} hm hf = Writes-bind Same R R (λ c d e p q. subst (λ x. R x e) p q) hm hf

pub Writes-pure : {A : Type 0} (a : A) → Writes Same (pure a)
unfolding pure
Writes-pure a = record { run = λ w. refl }

pub Writes-or_throw :
    {A : Type 0} (o : Option A) (e : Error) → ¬ (e ≡ fuel) → Writes Same (or_throw o e)
unfolding or_throw throw pure
Writes-or_throw none e h = record { run = λ w. h }
Writes-or_throw (some a) e h = record { run = λ w. refl }

pub Writes-throw_if : (c : Bool) (e : Error) → ¬ (e ≡ fuel) → Writes Same (throw_if c e)
unfolding throw_if
Writes-throw_if true e h = record { run = λ w. h }
Writes-throw_if false e h = record { run = λ w. refl }

pub Writes-gets : {A : Type 0} (f : EconomyState → A) → Writes Same (gets f)
unfolding gets
Writes-gets f = record { run = λ w. refl }

pub Writes-random_uuid : (env : Env) → Writes Same (random_uuid env)
unfolding random_uuid
Writes-random_uuid env = record { run = λ w. refl }

pub Writes-now : (env : Env) → Writes Same (now env)
unfolding now
Writes-now env = record { run = λ w. refl }

pub Writes-put_player : (id : ℕ) (p : StoredPlayerProfile) → Writes Same (put_player id p)
unfolding put_player modify
Writes-put_player id p = record { run = λ w. refl }

pub Writes-push_ledger : (r : CoinLedgerRecord) → Writes Same (push_ledger r)
unfolding push_ledger modify
Writes-push_ledger r = record { run = λ w. refl }

pub Writes-push_fill : (f : MarketFill) → Writes Same (push_fill f)
unfolding push_fill modify
Writes-push_fill f = record { run = λ w. refl }

pub Writes-put_order : (o : MarketOrder) → Writes (Put o) (put_order o)
unfolding put_order modify
Writes-put_order o = record { run = λ w. refl }

pub Writes-player : (id : ℕ) → Writes Same (player id)
unfolding player
Writes-player id = Writes-after (Writes-gets _) (λ o. Writes-or_throw o player_not_found (λ e. cc))

pub Writes-change_player :
    (id : ℕ) (f : StoredPlayerProfile → StoredPlayerProfile) → Writes Same (change_player id f)
unfolding change_player
Writes-change_player id f = Writes-after (Writes-player id) (λ p. Writes-put_player id (f p))

pub Writes-when : (c : Bool) {body : Action Void} → Writes Same body → Writes Same (when c body)
unfolding when
Writes-when true h = h
Writes-when false h = Writes-pure tt

pub Writes-option :
    {A B : Type 0} {R : Change} (o : Option A) (m : Action B) (k : A → Action B)
    → Writes R m
    → ((a : A) → Writes R (k a))
    → Writes R (elim o [ none ↦ m | some a ↦ k a ])
Writes-option none m k hm hk = hm
Writes-option (some a) m k hm hk = hk a

pub ruleset same = (
  Writes-after, Writes-pure, Writes-gets, Writes-random_uuid, Writes-now, Writes-put_player,
  Writes-push_ledger, Writes-push_fill, Writes-player, Writes-change_player, Writes-when,
)

module _ (env : Env) where
  pub Writes-ledger :
      (id : ℕ) (n : ℤ) (reason : LedgerReason) → Writes Same (ledger env id n reason)
  unfolding ledger
  Writes-ledger id n reason = search same depth 12

  Writes-or_random : (o : Option ℕ) → Writes Same (or_random env o)
  unfolding or_random
  Writes-or_random none = Writes-random_uuid env
  Writes-or_random (some id) = Writes-pure id

  pub Writes-add_inventory :
      (id item_id quantity : ℕ) (preferred : Option ℕ)
      → Writes Same (add_inventory env id item_id quantity preferred)
  unfolding add_inventory
  Writes-add_inventory id item_id quantity preferred = Writes-after (Writes-player id) λ p.
      Writes-option (same_stack env item_id p) _ _
        (Writes-after (Writes-or_random preferred) λ entry_id. Writes-change_player id _)
        λ _. Writes-change_player id _

-- The two orders of a fill, written back with less to go.
abbrev pub Filled : MarketOrder → MarketOrder → ℕ → Change
Filled b s quantity d d' =
    (left : ℤ) × (t : ℕ) × (u : ℕ) × (d'
      ≡ insert s.id (after_fill quantity u s)
          (insert b.id (after_fill quantity t (record b { reserved_coins = left })) d))

module _ (env : Env) where
  -- The two writes that end a fill.
  put_both-Filled :
      (b s : MarketOrder) (quantity : ℕ) (left : ℤ) {rest : Action Void}
      → Writes Same rest
      → Writes (Filled b s quantity) (
          now env >>= λ t.
          put_order (after_fill quantity t (record b { reserved_coins = left }))
          >> (now env >>= λ u. put_order (after_fill quantity u s) >> rest))
  unfolding update_order_status
  put_both-Filled b s quantity left h = Writes-after (Writes-now env) λ t.
      Writes-bind (Put (after_fill quantity t (record b { reserved_coins = left })))
        (λ d d'. (u : ℕ) × Put (after_fill quantity u s) d d') (Filled b s quantity)
        (λ c d e p (u, q). (left, t, u, rw (q, p) refl)) (Writes-put_order _)
        λ _. Writes-after (Writes-now env) λ u.
          Writes-bind (Put (after_fill quantity u s)) Same
            (λ d d'. (u : ℕ) × Put (after_fill quantity u s) d d') (λ c d e p q. (u, q ∙ p))
            (Writes-put_order _) λ _. h

  pub settle_fill-Filled :
      (b s : MarketOrder) (quantity unit_price : ℕ)
      → Writes (Filled b s quantity) (settle_fill env b s quantity unit_price)
  unfolding settle_fill
  settle_fill-Filled b s quantity unit_price = Writes-after (Writes-player b.player_id) λ _.
      Writes-after (Writes-player s.player_id) λ _.
        Writes-after (Writes-or_throw _ escrow_mismatch (λ e. cc)) λ _.
          Writes-after (Writes-throw_if _ escrow_mismatch (λ e. cc)) λ _.
            Writes-after (Writes-throw_if _ reservation_mismatch (λ e. cc)) λ _.
              Writes-after (Writes-change_player b.player_id _) λ _.
                Writes-after (search (same, Writes-ledger env) depth 8) λ _.
                  Writes-after (Writes-change_player s.player_id _) λ _.
                    Writes-after (Writes-ledger env _ _ _) λ _.
                      Writes-after (Writes-ledger env _ _ _) λ _.
                        Writes-after (search (same, Writes-ledger env) depth 8) λ _.
                          Writes-after (Writes-change_player s.player_id _) λ _.
                            Writes-after (Writes-add_inventory env _ _ _ _)
                              λ _. put_both-Filled b s quantity _ (search same depth 8)
