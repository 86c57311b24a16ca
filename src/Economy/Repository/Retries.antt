-- ===== src/Economy/Repository/Retries.antt =====
-- What the later transactions of server/repositories/InMemoryPlayerRepository.ts leave of a key that
-- was applied.
use vaelmour_game.Prelude.{
  ℕ, ◌≡◌, refl, true, Option, none, some, ◌∷◌, Bool-cases, Option-cases, inl, inr,
}
use vaelmour_game.Prelude.Dict.{lookup}
use vaelmour_game.Data.{includes}
use vaelmour_game.Economy.Types.{Env}
use vaelmour_game.Economy.Monad.{World, Action, Result, ok, err, Void}
use vaelmour_game.Economy.Repository.{
  Database, DurableExpeditionStart, begin, conclude_start, start_expedition_transact,
}
use vaelmour_game.Economy.Repository.Keys.{Known, Recorded, includes-later, economy_transact-Known}
use vaelmour_game.Economy.Repository.Profiles.{LedgerEntry, push_entry, conclude_change, transact}
use vaelmour_game.Economy.Service.{
  Request, sell_order, buy_order, cancel_order, ask_trade, agree_trade, offer_trade, settle_trade,
  cancel_trade, decline_trade, clean_trades, reserve_slot, accept_slot, refund_slot, settle_slots,
  clean_slots, start_expedition, handle,
}
use vaelmour_game.Players.Attempt.{Attempt, done, refused}
use vaelmour_game.Players.Inventory.{Working}

module _ (key : ℕ) (o : Option ℕ) where
  -- One more key, and the same references.
  Known-later :
      (k : ℕ) (d d' : Database)
      → d'.operations ≡ k ∷ d.operations
      → d'.operation_references ≡ d.operation_references
      → Known key o d
      → Known key o d'
  Known-later k d d' e f h =
      let known : includes d'.operations key ≡ true =
        rw e (includes-later k key d.operations h.0) in
      (known, kept o h.1)
    where
      kept : (p : Option ℕ) → Recorded key p d → Recorded key p d'
      kept none r = tt
      kept (some x) r = rw f r

  conclude_start-Known :
      (k : ℕ) (marker : DurableExpeditionStart) (db : Database) (r : Result (Void × World))
      → Known key o db
      → Known key o (conclude_start k marker db r).1
  conclude_start-Known k marker db (ok (_, w)) h = Known-later k db _ refl refl h
  conclude_start-Known k marker db (err e) h = h

  pub start-Known :
      (k : ℕ) (marker : DurableExpeditionStart) (m : Action Void) (db : Database)
      → Known key o db
      → Known key o (start_expedition_transact k marker m db).1
  unfolding start_expedition_transact
  start-Known k marker m db h = elim (Bool-cases (includes db.operations k)) [
    | inl old ↦ rw old h
    | inr new ↦ rw new (conclude_start-Known k marker db (m (begin db)) h)
  ]

  module _ (env : Env) where
    conclude_change-Known :
        (id k : ℕ) (entry : Option LedgerEntry) (m : Attempt Working) (db : Database)
        → Known key o db
        → Known key o (conclude_change env id k entry m db).1
    unfolding conclude_change push_entry
    conclude_change-Known id k none (done w) db h = Known-later k db _ refl refl h
    conclude_change-Known id k (some e) (done w) db h = Known-later k db _ refl refl h
    conclude_change-Known id k entry (refused c) db h = h

    pub transact-Known :
        (id k : ℕ) (entry : Option LedgerEntry) (mutate : Working → Attempt Working) (db : Database)
        → Known key o db
        → Known key o (transact env id k entry mutate db).1
    unfolding transact
    transact-Known id k entry mutate db h = elim (Option-cases (lookup id db.state.players)) [
      | inl missing ↦ rw (missing, transact) h
      | inr (p, here) ↦ elim (Bool-cases (includes db.operations k)) [
        | inl old ↦ rw (here, old, transact) h
        | inr new ↦ rw (here, new, transact) (conclude_change-Known id k entry _ db h)
      ]
    ]

    pub handle-Known :
        (k : ℕ) (r : Request) (db : Database) → Known key o db → Known key o (handle env k r db)
    unfolding handle
    handle-Known k (sell_order p e q c) db h = economy_transact-Known key o k _ _ db h
    handle-Known k (buy_order p i q c) db h = economy_transact-Known key o k _ _ db h
    handle-Known k (cancel_order p x) db h = economy_transact-Known key o k _ _ db h
    handle-Known k (ask_trade a q r) db h = economy_transact-Known key o k _ _ db h
    handle-Known k (agree_trade a p t) db h = economy_transact-Known key o k _ _ db h
    handle-Known k (offer_trade p t x) db h = economy_transact-Known key o k _ _ db h
    handle-Known k (settle_trade p t r) db h = economy_transact-Known key o k _ _ db h
    handle-Known k (cancel_trade p t) db h = economy_transact-Known key o k _ _ db h
    handle-Known k (decline_trade p t) db h = economy_transact-Known key o k _ _ db h
    handle-Known k clean_trades db h = economy_transact-Known key o k _ _ db h
    handle-Known k (reserve_slot x a l n) db h = economy_transact-Known key o k _ _ db h
    handle-Known k (accept_slot x a l) db h = economy_transact-Known key o k _ _ db h
    handle-Known k (refund_slot x a) db h = economy_transact-Known key o k _ _ db h
    handle-Known k (settle_slots x l ms) db h = economy_transact-Known key o k _ _ db h
    handle-Known k clean_slots db h = economy_transact-Known key o k _ _ db h
    handle-Known k (start_expedition m l ms) db h = start-Known k m _ db h
