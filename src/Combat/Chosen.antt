-- ===== src/Combat/Chosen.antt =====
-- What shared/game-data/autoBattle.ts may choose.
use vaelmour_game.Prelude.{
  ℕ, ◌<◌, ◌-◌, ◌≡◌, refl, Bool, true, false, ◌&&◌, Option, none, some, List, [], ◌∷◌, map, ◌==◌,
  any, find, keep, All, All-map, sort_by, sort_by-All, ==_refl, ||_true, first_true, find-some,
  subst, arith, Bool-cases, inl, inr,
}
use vaelmour_game.Combat.Types.{Float}
use vaelmour_game.Combat.Engine.{or_else}
use vaelmour_game.Combat.AutoPotion.{
  AutoPotionOption, AutoPotionDecision, AutoPotionInput, auto_potion_threshold_by_tier, last,
  is_available, weigh, weaker, is_idle, covers, hp_ratio, hundredths, choose_potion,
  select_auto_potion,
}

-- A result is there only where the test does not hold.
not_idle :
    {A : Type 0} (idle : Bool) (o : Option A) (a : A)
    → (elim idle [ true ↦ none | false ↦ o ]) ≡ some a
    → (idle ≡ false) × (o ≡ some a)
not_idle true o a e = cc
not_idle false o a e = (refl, e)

module _ (fl : Float) (before : ℕ → ℕ → Bool) where
  open fl use {F, lt, le}

  -- The potion was offered, with something left that heals.
  abbrev pub IsOffered : List (AutoPotionOption F) → AutoPotionDecision F → Type 0
  IsOffered potions d =
      any (λ p. is_available fl before p && (p.item_id == d.potion_item_id)) potions ≡ true

  IsOffered-later :
      (p : AutoPotionOption F) (ps : List (AutoPotionOption F)) (ds : List (AutoPotionDecision F))
      → All (IsOffered ps) ds
      → All (IsOffered (p ∷ ps)) ds
  IsOffered-later p ps ds =
      All-map (λ d h. ||_true (is_available fl before p && (p.item_id == d.potion_item_id)) h) ds

  weigh-IsOffered :
      (max_hp missing : ℕ) (ps : List (AutoPotionOption F))
      → All (IsOffered ps) (map (weigh fl before max_hp missing) (keep (is_available fl before) ps))
  weigh-IsOffered max_hp missing [] = tt
  weigh-IsOffered max_hp missing (p ∷ ps) =
      let rest =
        IsOffered-later p ps
          (map (weigh fl before max_hp missing) (keep (is_available fl before) ps))
          (weigh-IsOffered max_hp missing ps) in
      elim (Bool-cases (is_available fl before p)) [
        | inl available ↦ rw available (first_true _ available (==_refl p.item_id), rest)
        | inr absent ↦ rw absent rest
      ]

  last-All :
      (P : AutoPotionDecision F → Type 0) (d : AutoPotionDecision F)
      (ds : List (AutoPotionDecision F))
      → All P (d ∷ ds)
      → P (last d ds)
  last-All P d [] h = h.0
  last-All P d (e ∷ ds) h = last-All P e ds h.1

  -- The choice between the strongest and the first that covers the wound.
  picked :
      (P : AutoPotionDecision F → Type 0) (critical : Bool) (best : Option (AutoPotionDecision F))
      (strongest d : AutoPotionDecision F)
      → P strongest
      → ((x : AutoPotionDecision F) → best ≡ some x → P x)
      → (elim critical [ true ↦ some strongest | false ↦ some (or_else best strongest) ]) ≡ some d
      → P d
  picked P true best strongest d h each e = let same : strongest ≡ d = cc in subst P same h
  picked P false none strongest d h each e = let same : strongest ≡ d = cc in subst P same h
  picked P false (some x) strongest d h each e = let same : x ≡ d = cc in subst P same (each x refl)

  choose_potion-All :
      (P : AutoPotionDecision F → Type 0) (input : AutoPotionInput F)
      (ds : List (AutoPotionDecision F)) (d : AutoPotionDecision F)
      → All P ds
      → choose_potion fl before input ds ≡ some d
      → P d
  unfolding choose_potion
  choose_potion-All P input [] d h e = cc
  choose_potion-All P input (p ∷ ps) d h e =
      let missing = input.max_hp - input.current_hp in
      picked P (le (hp_ratio fl before input) (hundredths fl 15))
        (find (covers fl before missing) (p ∷ ps)) (last p ps) d (last-All P p ps h)
        (λ best. find-some P (covers fl before missing) (p ∷ ps) best h) e

  is_idle-calm :
      (input : AutoPotionInput F)
      → is_idle fl before input ≡ false
      → ((0 < input.current_hp) × (input.potion_cooldown ≡ 0))
        × (lt
              (auto_potion_threshold_by_tier fl before input.content_tier)
              (hp_ratio fl before input)
            ≡ false)
  is_idle-calm input calm = (ground arith, ground arith)

  -- The choice of Auto Battle is one of the potions that the player has some of and that heal, and it is made
  -- for a member alone that is alive, that has no cooldown left, and that is not over the
  -- threshold of the tier.
  pub select_auto_potion-IsOffered :
      (input : AutoPotionInput F) (d : AutoPotionDecision F)
      → select_auto_potion fl before input ≡ some d
      → IsOffered input.potions d
        × ((0 < input.current_hp) × (input.potion_cooldown ≡ 0))
        × (lt
              (auto_potion_threshold_by_tier fl before input.content_tier)
              (hp_ratio fl before input)
            ≡ false)
  unfolding select_auto_potion
  select_auto_potion-IsOffered input d e =
      let missing = input.max_hp - input.current_hp in
      let weighed =
        map (weigh fl before input.max_hp missing) (keep (is_available fl before) input.potions) in
      let (calm, chosen) =
        not_idle (is_idle fl before input)
          (choose_potion fl before input (sort_by (weaker fl before) weighed)) d e in
      let offered =
        choose_potion-All (IsOffered input.potions) input (sort_by (weaker fl before) weighed) d
          (sort_by-All (IsOffered input.potions) (weaker fl before) weighed
            (weigh-IsOffered input.max_hp missing input.potions))
          chosen in
      let (living, hurt) = is_idle-calm input calm in (offered, living, hurt)
