-- ===== src/Players/Counts.antt =====
-- What the helpers of server/players/PlayerStateService.ts do to the units of each item in a list.
use vaelmour_game.Prelude.{
  ℕ, ◌+◌, ◌≡◌, refl, Bool, true, false, Option, none, some, List, [], ◌∷◌, ◌++◌, ◌==◌,
  if◌then◌else◌, find, remove_first, change_first, arith, Bool-cases, inl, inr,
}
use vaelmour_game.Data.{InventoryEntry}
use vaelmour_game.Players.Attempt.{Attempt, done, refused, ◌>>=◌, Code, or_refuse, refuse_if}
use vaelmour_game.Players.Bag.{count_in}

abbrev pub Holds : {A : Type 0} → (A → Type 0) → Attempt A → Type 0
Holds P (done a) = P a
Holds P (refused _) = Unit {0}

-- What holds of the result, where there is one.
pub record After {A : Type 0} (P : A → Type 0) (m : Attempt A) : Type 0 where
  pub holds : Holds P m

pub After-bind :
    {A B : Type 0} (P : A → Type 0) (Q : B → Type 0) {m : Attempt A} {f : A → Attempt B}
    → After P m
    → ((a : A) → P a → After Q (f a))
    → After Q (m >>= f)
unfolding ◌>>=◌
After-bind {A} {B} P Q {m} {f} h k = go m h.holds
  where
    go : (r : Attempt A) → Holds P r → After Q (r >>= f)
    go (done a) p = record { holds = (k a p).holds }
    go (refused c) p = record { holds = tt }

pub After-map :
    {A : Type 0} {P : A → Type 0} (Q : A → Type 0) {m : Attempt A}
    → ((a : A) → P a → Q a)
    → After P m
    → After Q m
After-map {A} {P} Q {m} k h = record { holds = go m h.holds }
  where
    go : (r : Attempt A) → Holds P r → Holds Q r
    go (done a) p = k a p
    go (refused c) p = tt

pub After-done : {A : Type 0} (P : A → Type 0) (a : A) → P a → After P (done a)
After-done P a p = record { holds = p }

pub After-refused : {A : Type 0} (P : A → Type 0) (c : Code) → After P (refused c)
After-refused P c = record { holds = tt }

pub After-or_refuse :
    {A : Type 0} (o : Option A) (c : Code) → After (λ a. o ≡ some a) (or_refuse o c)
After-or_refuse none c = record { holds = tt }
After-or_refuse (some a) c = record { holds = refl }

pub After-refuse_if : (b : Bool) (c : Code) → After (λ _. b ≡ false) (refuse_if b c)
After-refuse_if true c = record { holds = tt }
After-refuse_if false c = record { holds = refl }

pub After-any : {A : Type 0} (m : Attempt A) → After (λ _. Unit {0}) m
After-any (done a) = record { holds = tt }
After-any (refused c) = record { holds = tt }

-- `n` units if the two items are the same.
abbrev pub of_item : ℕ → ℕ → ℕ → ℕ
of_item item_id n j = if item_id == j then n else 0

pub count_in-cons :
    (e : InventoryEntry) (es : List InventoryEntry) (j : ℕ)
    → count_in (e ∷ es) j ≡ of_item e.item_id e.quantity j + count_in es j
unfolding count_in
count_in-cons e es j = ground arith

pub count_in-append :
    (xs ys : List InventoryEntry) (j : ℕ) → count_in (xs ++ ys) j ≡ count_in xs j + count_in ys j
unfolding count_in
count_in-append [] ys j = omega arith
count_in-append (x ∷ xs) ys j = ground (arith, count_in-append xs ys j)

pub count_in-push :
    (es : List InventoryEntry) (e : InventoryEntry) (j : ℕ)
    → count_in (es ++ e ∷ []) j ≡ count_in es j + of_item e.item_id e.quantity j
unfolding count_in
count_in-push [] e j = ground arith
count_in-push (x ∷ xs) e j = ground (arith, count_in-push xs e j)

-- The entry that a search finds goes.
pub count_in-remove_first :
    (p : InventoryEntry → Bool) (es : List InventoryEntry) (e : InventoryEntry) (j : ℕ)
    → find p es ≡ some e
    → count_in (remove_first p es) j + of_item e.item_id e.quantity j ≡ count_in es j
count_in-remove_first p [] e j h = cc
count_in-remove_first p (x ∷ xs) e j h = elim (Bool-cases (p x)) [
  | inl hit ↦
      let found : some x ≡ some e = rw hit at h in
      let eq : x ≡ e = cc in rw (hit, eq) (let split = count_in-cons e xs j in omega (arith, split))
  | inr miss ↦
      let rest = count_in-remove_first p xs e j (rw miss at h) in
      let old = count_in-cons x xs j in
      let new = count_in-cons x (remove_first p xs) j in rw miss (omega (arith, rest, old, new))
]

-- The entry that a search finds gets another quantity.
pub count_in-change_first :
    (p : InventoryEntry → Bool) (f : ℕ → ℕ) (es : List InventoryEntry) (e : InventoryEntry) (j : ℕ)
    → find p es ≡ some e
    → count_in (change_first p (λ x. record x { quantity = f x.quantity }) es) j
        + of_item e.item_id e.quantity j
      ≡ count_in es j + of_item e.item_id (f e.quantity) j
count_in-change_first p f [] e j h = cc
count_in-change_first p f (x ∷ xs) e j h = elim (Bool-cases (p x)) [
  | inl hit ↦
      let found : some x ≡ some e = rw hit at h in
      let eq : x ≡ e = cc in
      rw (hit, eq)
        (let old = count_in-cons e xs j in
          let new = count_in-cons (record e { quantity = f e.quantity }) xs j in
          omega (arith, old, new))
  | inr miss ↦
      let rest = count_in-change_first p f xs e j (rw miss at h) in
      let old = count_in-cons x xs j in
      let new = count_in-cons x (change_first p (λ y. record y { quantity = f y.quantity }) xs) j in
      rw miss (omega (arith, rest, old, new))
]

pub find-holds :
    (p : InventoryEntry → Bool) (es : List InventoryEntry) (e : InventoryEntry)
    → find p es ≡ some e
    → p e ≡ true
find-holds p [] e h = cc
find-holds p (x ∷ xs) e h = elim (Bool-cases (p x)) [
  | inl hit ↦ let found : some x ≡ some e = rw hit at h in let eq : x ≡ e = cc in rw (← eq) hit
  | inr miss ↦ find-holds p xs e (rw miss at h)
]
