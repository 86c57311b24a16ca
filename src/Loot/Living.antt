-- ===== src/Loot/Living.antt =====
-- Who gets the loot of server/loot/professionLoot.ts.
use vaelmour_game.Prelude.{
  ℕ, suc, ◌≡◌, refl, ◌⊎◌, inl, inr, Bool, true, false, ◌&&◌, Option, none, some, List, [], ◌∷◌,
  ◌==◌, any, keep, All, All-map, length, zero, subst, ==_refl, ||_true, first_true, keep-All,
}
use vaelmour_game.Prelude.Dict.{Dict, lookup, insert}
use vaelmour_game.Prelude.Entries.{AllEntries, AllEntries-insert}
use vaelmour_game.Data.{Profession, PersonalLoot}
use vaelmour_game.Combat.Types.{Float, EnemyKind}
use vaelmour_game.Combat.Engine.{nth}
use vaelmour_game.Loot.{
  LootParticipant, LootOptions, LootRolls, professions, is_of_trade, no_loot, credit, award, choose,
  resource_roll, recipe_roll, profession_rolls, all_professions, generic_rolls, no_drops,
  count_pool, count_recipe, is_fighter, generate_profession_loot, rolls_under, role_index, of_role,
  add_resource, add_recipe, boss_quantity,
}

-- A participant of that identifier is alive.
abbrev pub is_living : List LootParticipant → ℕ → Bool
is_living ps id = any (λ p. p.alive && (p.id == id)) ps

-- Something is there for the living only.
abbrev pub ForLiving : List LootParticipant → ℕ → PersonalLoot → Type 0
ForLiving ps id loot = (is_living ps id ≡ true) ⊎ (loot ≡ no_loot)

-- A living participant is one of the living.
alive-living : (ps : List LootParticipant) → All (λ p. p.alive ≡ true → is_living ps p.id ≡ true) ps
alive-living [] = tt
alive-living (p ∷ ps) = (
  λ alive. first_true _ alive (==_refl p.id),
  All-map (λ q h alive. ||_true (p.alive && (p.id == q.id)) (h alive)) ps (alive-living ps),
)

-- What an index finds is of the list.
nth-All :
    {A : Type 0} (P : A → Type 0) (n : ℕ) (xs : List A) (x : A) → All P xs → nth n xs ≡ some x → P x
nth-All P n [] x h e = cc
nth-All P zero (y ∷ ys) x h e = let same : y ≡ x = cc in subst P same h.0
nth-All P (suc n) (y ∷ ys) x h e = nth-All P n ys x h.1 e

-- What holds of either branch holds of the test.
either :
    (Q : LootRolls → Type 0) (b : Bool) (hit miss : LootRolls)
    → Q hit
    → Q miss
    → Q (elim b as (λ _. LootRolls) [ true ↦ hit | false ↦ miss ])
either Q true hit miss h k = h
either Q false hit miss h k = k

module _ (fl : Float) (options : LootOptions fl.F) (ps : List LootParticipant) where
  no_drops-ForLiving :
      (qs : List LootParticipant) (d : Dict PersonalLoot)
      → AllEntries (ForLiving ps) d
      → AllEntries (ForLiving ps) (no_drops fl options qs d)
  unfolding no_drops
  no_drops-ForLiving [] d h = h
  no_drops-ForLiving (q ∷ qs) d h =
      no_drops-ForLiving qs (insert q.id no_loot d)
        (AllEntries-insert (ForLiving ps) q.id no_loot d (inr refl) h)

  credited :
      (id : ℕ) (f : PersonalLoot → PersonalLoot) (r : LootRolls)
      → is_living ps id ≡ true
      → AllEntries (ForLiving ps) r.personal
      → (o : Option PersonalLoot)
      → AllEntries
          (ForLiving ps)
          (elim o as (λ _. LootRolls) [
            | none ↦ r
            | some loot ↦ record r { personal = insert id (f loot) r.personal }
          ]).personal
  credited id f r living h none = h
  credited id f r living h (some loot) =
      AllEntries-insert (ForLiving ps) id (f loot) r.personal (inl living) h

  credit-ForLiving :
      (id : ℕ) (f : PersonalLoot → PersonalLoot) (r : LootRolls)
      → is_living ps id ≡ true
      → AllEntries (ForLiving ps) r.personal
      → AllEntries (ForLiving ps) (credit id f r).personal
  unfolding credit
  credit-ForLiving id f r living h = credited id f r living h (lookup id r.personal)

  award-ForLiving :
      (p : Option LootParticipant) (item : Option ℕ) (f : ℕ → PersonalLoot → PersonalLoot)
      (r : LootRolls)
      → ((q : LootParticipant) → p ≡ some q → is_living ps q.id ≡ true)
      → AllEntries (ForLiving ps) r.personal
      → AllEntries (ForLiving ps) (award p item f r).personal
  award-ForLiving none item f r living h = h
  award-ForLiving (some p) none f r living h = h
  award-ForLiving (some p) (some item) f r living h =
      credit-ForLiving p.id (f item) r (living p refl) h

  -- The list has living participants alone.
  abbrev Living : List LootParticipant → Type 0
  Living = All (λ p. is_living ps p.id ≡ true)

  choose-All :
      (P : LootParticipant → Type 0) (items : List LootParticipant) (n : ℕ) (x : LootParticipant)
      → All P items
      → choose fl options items n ≡ some x
      → P x
  unfolding choose
  choose-All P items n x h e =
      nth-All P (fl.floor (fl.mul (fl.random n) (fl.of_ℕ (length items)))) items x h e

  resource_roll-ForLiving :
      (kind : EnemyKind) (profession : Profession) (eligible : List LootParticipant) (r : LootRolls)
      → Living eligible
      → AllEntries (ForLiving ps) r.personal
      → AllEntries (ForLiving ps) (resource_roll fl options kind profession eligible r).personal
  unfolding resource_roll
  resource_roll-ForLiving kind profession eligible r living h =
      let (index, n) = role_index fl options kind (suc (suc r.random)) in
      either (λ r'. AllEntries (ForLiving ps) r'.personal)
        (rolls_under fl options options.correct_profession_chance r.random) _ _
        (award-ForLiving (choose fl options eligible (suc r.random))
          (of_role fl options index (options.resources profession))
          (λ id. add_resource id (boss_quantity kind)) (record r { random = n })
          (λ q. choose-All (λ p. is_living ps p.id ≡ true) eligible (suc r.random) q living) h)
        h

  recipe_roll-ForLiving :
      (kind : EnemyKind) (profession : Profession) (eligible : List LootParticipant) (r : LootRolls)
      → Living eligible
      → AllEntries (ForLiving ps) r.personal
      → AllEntries (ForLiving ps) (recipe_roll fl options kind profession eligible r).personal
  unfolding recipe_roll
  recipe_roll-ForLiving kind profession eligible r living h =
      either (λ r'. AllEntries (ForLiving ps) r'.personal)
        (rolls_under fl options (options.recipe_chance kind) r.random) _ _
        (award-ForLiving (choose fl options eligible (suc r.random))
          (choose fl options (options.recipes profession) (suc (suc r.random))) add_recipe
          (record r { random = suc (suc (suc r.random)) })
          (λ q. choose-All (λ p. is_living ps p.id ≡ true) eligible (suc r.random) q living) h)
        h

  of_trade-ForLiving :
      (kind : EnemyKind) (profession : Profession) (eligible : List LootParticipant) (r : LootRolls)
      → Living eligible
      → AllEntries (ForLiving ps) r.personal
      → AllEntries
          (ForLiving ps)
          (elim eligible as (λ _. LootRolls) [
            | [] ↦ r
            | q ∷ qs ↦ recipe_roll fl options kind profession (q ∷ qs) (
                count_recipe profession
                  (resource_roll fl options kind profession (q ∷ qs) (count_pool profession r)))
          ]).personal
  of_trade-ForLiving kind profession [] r living h = h
  of_trade-ForLiving kind profession (q ∷ qs) r living h =
      recipe_roll-ForLiving kind profession (q ∷ qs)
        (count_recipe profession
          (resource_roll fl options kind profession (q ∷ qs) (count_pool profession r)))
        living (resource_roll-ForLiving kind profession (q ∷ qs) (count_pool profession r) living h)

  all_professions-ForLiving :
      (kind : EnemyKind) (alive : List LootParticipant) (trades : List Profession) (r : LootRolls)
      → Living alive
      → AllEntries (ForLiving ps) r.personal
      → AllEntries (ForLiving ps) (all_professions fl options kind alive trades r).personal
  unfolding all_professions profession_rolls
  all_professions-ForLiving kind alive [] r living h = h
  all_professions-ForLiving kind alive (p ∷ trades) r living h =
      let eligible = keep (λ q. is_of_trade p q.class_id) alive in
      all_professions-ForLiving kind alive trades (profession_rolls fl options kind alive p r)
        living
        (of_trade-ForLiving kind p eligible r
          (keep-All (λ q. is_living ps q.id ≡ true) (λ q. is_of_trade p q.class_id) alive
            (All-map (λ q h _. h) alive living))
          h)

  generic_rolls-ForLiving :
      (fighters : List LootParticipant) (r : LootRolls)
      → Living fighters
      → AllEntries (ForLiving ps) r.personal
      → AllEntries (ForLiving ps) (generic_rolls fl options fighters r).personal
  unfolding generic_rolls
  generic_rolls-ForLiving [] r living h = h
  generic_rolls-ForLiving (p ∷ fighters) r living h =
      either (λ r'. AllEntries (ForLiving ps) r'.personal)
        (rolls_under fl options options.combat_class_chance r.random) _ _
        (generic_rolls-ForLiving fighters _ living.1 (
          award-ForLiving (some p) (choose fl options options.generic_resources (suc r.random))
            (λ id. add_resource id 1) (record r { random = suc (suc r.random) })
            (λ q e. let same : p ≡ q = cc in subst (λ q. is_living ps q.id ≡ true) same living.0)
            h))
        (generic_rolls-ForLiving fighters (record r { random = suc r.random }) living.1 h)

-- Whatever chance answers, the loot of an encounter goes to participants that are alive alone:
-- what stands for any other participant is empty.
pub generate_profession_loot-ForLiving :
    (fl : Float) (options : LootOptions fl.F) (participants : List LootParticipant)
    (kind : EnemyKind) (n : ℕ)
    → AllEntries
        (ForLiving participants)
        (generate_profession_loot fl options participants kind n).personal
unfolding generate_profession_loot
generate_profession_loot-ForLiving fl options participants kind n =
    let alive = keep (λ p. p.alive) participants in
    let living =
      keep-All (λ p. is_living participants p.id ≡ true) (λ p. p.alive) participants
        (alive-living participants) in
    generic_rolls-ForLiving fl options participants (keep (is_fighter fl options) alive) _
      (keep-All (λ p. is_living participants p.id ≡ true) (is_fighter fl options) alive
        (All-map (λ p h _. h) alive living))
      (all_professions-ForLiving fl options participants kind alive professions _ living
        (no_drops-ForLiving fl options participants participants [] tt))
