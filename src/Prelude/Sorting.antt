-- ===== src/Prelude/Sorting.antt =====
-- The stable sort keeps the items of a list, and a search that fails has failed at each item.
use mathlib.Core.Path.{◌≡◌, subst}
use mathlib.Core.Logic.{inl, inr}
use mathlib.Core.Bool.{Bool, true, false}
use mathlib.Core.List.{List, [], ◌∷◌}
use mathlib.Core.Option.{none, some}
use vaelmour_game.Prelude.Tests.{Bool-cases}
use vaelmour_game.Prelude.Lists.{All, find, keep, insert_by, sort_by}

module _ {A : Type 0} (P : A → Type 0) (before : A → A → Bool) where
  All-insert_by : (x : A) (xs : List A) → All P (insert_by before x xs) → P x × All P xs
  unfolding insert_by
  All-insert_by x [] h = h
  All-insert_by x (y ∷ ys) h = elim (Bool-cases (before y x)) [
    | inl later ↦
        let h' : P y × All P (insert_by before x ys) = rw later at h in
        let rest = All-insert_by x ys h'.1 in (rest.0, (h'.0, rest.1))
    | inr now ↦ rw now at h
  ]

  -- What holds of every item of the sorted list holds of every item.
  pub All-sort_by : (xs : List A) → All P (sort_by before xs) → All P xs
  unfolding sort_by
  All-sort_by [] h = tt
  All-sort_by (x ∷ xs) h =
      let split = All-insert_by x (sort_by before xs) h in (split.0, All-sort_by xs split.1)

module _ {A : Type 0} (P : A → Type 0) (before : A → A → Bool) where
  insert_by-All : (x : A) (xs : List A) → P x → All P xs → All P (insert_by before x xs)
  unfolding insert_by
  insert_by-All x [] p h = (p, tt)
  insert_by-All x (y ∷ ys) p h = elim (Bool-cases (before y x)) [
    | inl later ↦ rw later (h.0, insert_by-All x ys p h.1)
    | inr now ↦ rw now (p, h)
  ]

  pub sort_by-All : (xs : List A) → All P xs → All P (sort_by before xs)
  unfolding sort_by
  sort_by-All [] h = tt
  sort_by-All (x ∷ xs) h = insert_by-All x (sort_by before xs) h.0 (sort_by-All xs h.1)

pub find-some :
    {A : Type 0} (P : A → Type 0) (p : A → Bool) (xs : List A) (x : A)
    → All P xs
    → find p xs ≡ some x
    → P x
find-some P p [] x h e = cc
find-some P p (y ∷ ys) x h e = elim (Bool-cases (p y)) [
  | inl hit ↦ let same : some y ≡ some x = rw hit at e in let eq : y ≡ x = cc in subst P eq h.0
  | inr miss ↦ find-some P p ys x h.1 (rw miss at e)
]

pub find-none :
    {A : Type 0} (p : A → Bool) (xs : List A) → find p xs ≡ none → All (λ x. p x ≡ false) xs
find-none p [] h = tt
find-none p (x ∷ xs) h = elim (Bool-cases (p x)) [
  | inl hit ↦ cc (rw hit at h)
  | inr miss ↦ (miss, find-none p xs (rw miss at h))
]

pub All-map :
    {A : Type 0} {P Q : A → Type 0} (f : (a : A) → P a → Q a) (xs : List A) → All P xs → All Q xs
All-map f [] h = tt
All-map f (x ∷ xs) h = (f x h.0, All-map f xs h.1)

-- What holds of the items that pass the test holds of the items kept.
pub keep-All :
    {A : Type 0} (P : A → Type 0) (p : A → Bool) (xs : List A)
    → All (λ x. p x ≡ true → P x) xs
    → All P (keep p xs)
keep-All P p [] h = tt
keep-All P p (x ∷ xs) h = elim (Bool-cases (p x)) [
  | inl kept ↦ rw kept (h.0 kept, keep-All P p xs h.1)
  | inr gone ↦ rw gone (keep-All P p xs h.1)
]
