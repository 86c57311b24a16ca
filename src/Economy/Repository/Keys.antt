-- ===== src/Economy/Repository/Keys.antt =====
-- The operation keys of server/repositories/InMemoryPlayerRepository.ts.
use vaelmour_game.Prelude.{
  ==_refl, ℕ, ◌≡◌, refl, ◌∙◌, true, false, sym, subst, ==_iff, ||_true, Option, none, some, List,
  ◌∷◌, ◌==◌, Bool-cases, inl, inr,
}
use vaelmour_game.Prelude.Dict.{lookup, lookup-insert}
use vaelmour_game.Data.{includes}
use vaelmour_game.Economy.Monad.{World, Action, Result, ok, err}
use vaelmour_game.Economy.Repository.{
  Database, applied, repeated, begin, commit, conclude, note_reference, economy_transact,
}

includes-cons_self : (k : ℕ) (ks : List ℕ) → includes (k ∷ ks) k ≡ true
includes-cons_self k ks = rw (==_refl k)

note_reference-operations :
    (key : ℕ) (o : Option ℕ) (db : Database) → (note_reference key o db).operations ≡ db.operations
note_reference-operations key none db = refl
note_reference-operations key (some r) db = refl

note_reference-lookup :
    (key r : ℕ) (db : Database)
    → lookup key (note_reference key (some r) db).operation_references ≡ some r
note_reference-lookup key r db = rw (lookup-insert key key r db.operation_references, ==_refl key)

-- The reference that is kept for a key, if its result has one.
abbrev pub Recorded : ℕ → Option ℕ → Database → Type 0
Recorded key none d = Unit
Recorded key (some r) d = lookup key d.operation_references ≡ some r

-- What a key that was applied leaves: it is known, with the reference of its result.
abbrev pub Known : ℕ → Option ℕ → Database → Type 0
Known key o d = (includes d.operations key ≡ true) × Recorded key o d

-- A transaction under a key that is known changes nothing.
pub Known-repeated :
    {A : Type 0} (key : ℕ) (o : Option ℕ) (n : Action A) (reference : A → Option ℕ) (d : Database)
    → Known key o d
    → economy_transact key n reference d ≡ (repeated (lookup key d.operation_references), d)
unfolding economy_transact
Known-repeated key o n reference d h = rw h.0 refl

-- The key that is applied is known from then on.
commit-Known :
    (key : ℕ) (o : Option ℕ) (w : World) (db : Database)
    → Known key o (note_reference key o (commit key w db))
commit-Known key none w db = (includes-cons_self key db.operations, tt)
commit-Known key (some r) w db =
    (includes-cons_self key db.operations, note_reference-lookup key r (commit key w db))

other_key :
    (key k : ℕ) (ks : List ℕ) → includes ks key ≡ true → includes ks k ≡ false → (key == k) ≡ false
other_key key k ks known new = elim (Bool-cases (key == k)) [
  | inl hit ↦
      let same : key ≡ k = (==_iff key k).0 hit in
      let both : includes ks k ≡ true = rw same at known in
      let clash : true ≡ false = sym both ∙ new in cc
  | inr miss ↦ miss
]

note_reference-Recorded :
    (key k : ℕ) (o p : Option ℕ) (db : Database)
    → (key == k) ≡ false
    → Recorded key o db
    → Recorded key o (note_reference k p db)
note_reference-Recorded key k none p db other h = tt
note_reference-Recorded key k (some r) none db other h = h
note_reference-Recorded key k (some r) (some q) db other h =
    lookup-insert k key q db.operation_references ∙ rw other h

-- Another key, written, leaves what is known of this one.
pub includes-later :
    (k key : ℕ) (ks : List ℕ) → includes ks key ≡ true → includes (k ∷ ks) key ≡ true
includes-later k key ks h = ||_true (k == key) h

module _ (key : ℕ) (o : Option ℕ) where
  conclude-Known :
      {A : Type 0} (k : ℕ) (reference : A → Option ℕ) (db : Database) (res : Result (A × World))
      → (key == k) ≡ false
      → Known key o db
      → Known key o (conclude k reference db res).1
  conclude-Known k reference db (ok (a, w)) other h = (
    subst (λ ks. includes ks key ≡ true)
        (sym (note_reference-operations k (reference a) (commit k w db)))
        (includes-later k key db.operations h.0),
    note_reference-Recorded key k o (reference a) (commit k w db) other (kept o h.1),
  )
    where
      kept : (p : Option ℕ) → Recorded key p db → Recorded key p (commit k w db)
      kept none r = tt
      kept (some _) r = r
  conclude-Known k reference db (err e) other h = h

  pub economy_transact-Known :
      {A : Type 0} (k : ℕ) (m : Action A) (reference : A → Option ℕ) (db : Database)
      → Known key o db
      → Known key o (economy_transact k m reference db).1
  unfolding economy_transact
  economy_transact-Known k m reference db h = elim (Bool-cases (includes db.operations k)) [
    | inl old ↦ rw old h
    | inr new ↦
        rw new
          (conclude-Known k reference db (m (begin db)) (other_key key k db.operations h.0 new) h)
  ]

applied-injective : {A : Type 0} (a b : A) → applied a ≡ applied b → a ≡ b
applied-injective a b h = cc

module _ {A : Type 0} where
  concluded :
      (key : ℕ) (reference : A → Option ℕ) (db : Database) (a : A) (res : Result (A × World))
      → (conclude key reference db res).0 ≡ applied a
      → Known key (reference a) (conclude key reference db res).1
  concluded key reference db a (ok (b, w)) h =
      subst (λ c. Known key (reference c) (note_reference key (reference b) (commit key w db)))
        (applied-injective b a h) (commit-Known key (reference b) w db)
  concluded key reference db a (err e) h = cc

  pub applied-Known :
      (key : ℕ) (m : Action A) (reference : A → Option ℕ) (db : Database) (a : A)
      → (economy_transact key m reference db).0 ≡ applied a
      → Known key (reference a) (economy_transact key m reference db).1
  unfolding economy_transact
  applied-Known key m reference db a h = elim (Bool-cases (includes db.operations key)) [
    | inl old ↦ cc (rw old at h)
    | inr new ↦ rw new (concluded key reference db a (m (begin db)) (rw new at h))
  ]
