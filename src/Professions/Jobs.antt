-- ===== src/Professions/Jobs.antt =====
-- The jobs of a player over whole histories of commands.
use vaelmour_game.Prelude.{
  ℕ, ◌+◌, ◌≤◌, ◌≡◌, refl, false, List, [], ◌∷◌, ◌++◌, if◌then◌else◌, any, change_first, arith,
  Bool-cases, inl, inr,
}
use vaelmour_game.Players.Attempt.{Attempt, done, refused, job_active}
use vaelmour_game.Players.Counts.{Holds, After, After-bind, After-done, After-refuse_if, After-any}
use vaelmour_game.Professions.{
  ProfessionActivity, ProfessionJobRecord, Gatherer, Gathering, is_active_job, start, cancel,
  collect,
}

abbrev pub active_jobs : List ProfessionJobRecord → ℕ
active_jobs [] = 0
active_jobs (j ∷ js) = (if is_active_job j then 1 else 0) + active_jobs js

active_jobs-append :
    (js : List ProfessionJobRecord) (j : ProfessionJobRecord)
    → active_jobs (js ++ j ∷ []) ≡ active_jobs js + (if is_active_job j then 1 else 0)
active_jobs-append [] j = omega arith
active_jobs-append (x ∷ js) j = omega (arith, active_jobs-append js j)

none_active : (js : List ProfessionJobRecord) → any is_active_job js ≡ false → active_jobs js ≡ 0
none_active [] h = refl
none_active (j ∷ js) h = ground (arith, none_active js)

-- A job that ends is no longer active.
change_first-active_jobs :
    (f : ProfessionJobRecord → ProfessionJobRecord) (js : List ProfessionJobRecord)
    → ((j : ProfessionJobRecord) → is_active_job (f j) ≡ false)
    → active_jobs (change_first is_active_job f js) ≤ active_jobs js
change_first-active_jobs f [] h = omega arith
change_first-active_jobs f (j ∷ js) h = elim (Bool-cases (is_active_job j)) [
  | inl hit ↦ rw (hit, h j) (omega arith)
  | inr miss ↦ rw miss (rw miss (let rest = change_first-active_jobs f js h in omega (arith, rest)))
]

one_more :
    (js : List ProfessionJobRecord) (j : ProfessionJobRecord)
    → any is_active_job js ≡ false
    → active_jobs (js ++ j ∷ []) ≤ 1
one_more js j idle =
    let before = none_active js idle in
    let after = active_jobs-append js j in
    let at_most : (if is_active_job j then 1 else 0) ≤ 1 = ground arith in
    omega (arith, before, after, at_most)

one_less :
    (f : ProfessionJobRecord → ProfessionJobRecord) (js : List ProfessionJobRecord)
    → ((j : ProfessionJobRecord) → is_active_job (f j) ≡ false)
    → active_jobs js ≤ 1
    → active_jobs (change_first is_active_job f js) ≤ 1
one_less f js ends h = let less = change_first-active_jobs f js ends in omega (arith, less, h)

abbrev pub AtMostOne : Gatherer → Type 0
AtMostOne g = active_jobs g.profession_jobs ≤ 1

-- The commands of a player, with the answers that the service draws.
pub data Command : Type 0 where
  start_job : (ProfessionActivity → ℕ → ℕ → ℕ × ℕ) → ℕ → ℕ → ℕ → ℕ → Command
  cancel_job : ℕ → Command
  collect_job : ℕ → ℕ → Command

-- A refused command leaves the profile as it is.
abbrev pub kept_or : Gatherer → Attempt Gatherer → Gatherer
kept_or g (done g') = g'
kept_or g (refused _) = g

module _ (gathering : Gathering) where
  abbrev pub obey : Command → Gatherer → Attempt Gatherer
  obey (start_job planned id at activity duration) g =
      start gathering planned id at activity duration g
  obey (cancel_job at) g = cancel at g
  obey (collect_job entry at) g = collect entry at g

  unfoldable pub obey_all : List Command → Gatherer → Gatherer
  obey_all [] g = g
  obey_all (c ∷ cs) g = obey_all cs (kept_or g (obey c g))

  start-AtMostOne :
      (planned : ProfessionActivity → ℕ → ℕ → ℕ × ℕ) (id at activity duration : ℕ) (g : Gatherer)
      → After AtMostOne (start gathering planned id at activity duration g)
  unfolding start
  start-AtMostOne planned id at activity duration g =
      After-bind (λ _. Unit {0}) AtMostOne (After-any _)
        λ a _.
          After-bind (λ _. Unit {0}) AtMostOne (After-any _)
            λ _ _.
              After-bind (λ _. Unit {0}) AtMostOne (After-any _)
                λ profession _.
                  After-bind (λ _. Unit {0}) AtMostOne (After-any _)
                    λ _ _.
                      After-bind (λ _. Unit {0}) AtMostOne (After-any _)
                        λ _ _.
                          After-bind (λ _. any is_active_job g.profession_jobs ≡ false) AtMostOne
                            (After-refuse_if (any is_active_job g.profession_jobs) job_active)
                            λ _ idle. After-done AtMostOne _ (one_more g.profession_jobs _ idle)

  cancel-AtMostOne : (at : ℕ) (g : Gatherer) → AtMostOne g → After AtMostOne (cancel at g)
  unfolding cancel
  cancel-AtMostOne at g h =
      After-bind (λ _. Unit {0}) AtMostOne (After-any _)
        λ job _.
          After-bind (λ _. Unit {0}) AtMostOne (After-any _)
            λ _ _. After-done AtMostOne _ (one_less _ g.profession_jobs (λ j. refl) h)

  collect-AtMostOne :
      (entry at : ℕ) (g : Gatherer) → AtMostOne g → After AtMostOne (collect entry at g)
  unfolding collect
  collect-AtMostOne entry at g h =
      After-bind (λ _. Unit {0}) AtMostOne (After-any _)
        λ job _.
          After-bind (λ _. Unit {0}) AtMostOne (After-any _)
            λ _ _. After-done AtMostOne _ (one_less _ g.profession_jobs (λ j. refl) h)

  obey-AtMostOne : (c : Command) (g : Gatherer) → AtMostOne g → After AtMostOne (obey c g)
  obey-AtMostOne (start_job planned id at activity duration) g h =
      start-AtMostOne planned id at activity duration g
  obey-AtMostOne (cancel_job at) g h = cancel-AtMostOne at g h
  obey-AtMostOne (collect_job entry at) g h = collect-AtMostOne entry at g h

  kept_or-AtMostOne :
      (g : Gatherer) (r : Attempt Gatherer)
      → AtMostOne g
      → Holds AtMostOne r
      → AtMostOne (kept_or g r)
  kept_or-AtMostOne g (done g') h k = k
  kept_or-AtMostOne g (refused _) h k = h

  -- Over any history of starting, cancelling and collecting jobs, done or refused, a player with at
  -- most one active job has at most one.
  pub obey_all-AtMostOne :
      (cs : List Command) (g : Gatherer) → AtMostOne g → AtMostOne (obey_all cs g)
  unfolding obey_all
  obey_all-AtMostOne [] g h = h
  obey_all-AtMostOne (c ∷ cs) g h =
      obey_all-AtMostOne cs _ (kept_or-AtMostOne g (obey c g) h (obey-AtMostOne c g h).holds)
