-- ===== src/Players/Unlocks.antt =====
-- What completing a floor does to the progress in the rifts.
use vaelmour_game.Prelude.{
  ℕ, ◌+◌, ◌≤◌, ◌≡◌, refl, ap, min, true, some, List, [], ◌∷◌, ◌==◌, length, arith, Bool-cases,
  Option-cases, inl, inr, ==_iff,
}
use vaelmour_game.Prelude.Dict.{Dict, lookup, insert, lookup-insert}
use vaelmour_game.Data.{PlayerRiftProgress, StoredPlayerProfile}
use vaelmour_game.Players.Attempt.{invalid_rift_floor}
use vaelmour_game.Players.Counts.{After, After-bind, After-done, After-or_refuse, After-any}
use vaelmour_game.Players.Rifts.{
  RiftDefinition, completed_in, unlocked_in, rift_definition, current_progress, completed_floor,
  opens, opened, open_rifts, complete_rift_floor,
}

abbrev pub unlocked : Dict PlayerRiftProgress → ℕ → ℕ
unlocked d i = unlocked_in (lookup i d)

abbrev pub completed : Dict PlayerRiftProgress → ℕ → ℕ
completed d i = completed_in (lookup i d)

-- No rift loses an unlocked or a completed floor.
abbrev pub Grows : Dict PlayerRiftProgress → Dict PlayerRiftProgress → Type 0
Grows d d' = (i : ℕ) → (unlocked d i ≤ unlocked d' i) × (completed d i ≤ completed d' i)

Grows-trans : (c d e : Dict PlayerRiftProgress) → Grows c d → Grows d e → Grows c e
Grows-trans c d e h k i =
    let a = h i in let b = k i in (omega (arith, a.0, b.0), omega (arith, a.1, b.1))

Grows-insert :
    (k : ℕ) (p : PlayerRiftProgress) (d : Dict PlayerRiftProgress)
    → unlocked d k ≤ p.highest_unlocked_floor
    → completed d k ≤ p.highest_completed_floor
    → Grows d (insert k p d)
Grows-insert k p d u c i = elim (Bool-cases (i == k)) [
  | inl same ↦
      let ids : i ≡ k = (==_iff i k).0 same in
      let now : lookup i (insert k p d) ≡ some p = rw (lookup-insert k i p d, same) refl in
      rw (now, ids) (u, c)
  | inr other ↦
      let kept : lookup i (insert k p d) ≡ lookup i d = rw (lookup-insert k i p d, other) refl in
      rw kept (omega arith, omega arith)
]

module _ (rifts : List RiftDefinition) where
  opened-Grows : (k : ℕ) (d : Dict PlayerRiftProgress) → Grows d (insert k (opened rifts k d) d)
  opened-Grows k d = elim (Option-cases (lookup k d)) [
    | inl fresh ↦ Grows-insert k _ d (rw fresh (omega arith)) (rw fresh (omega arith))
    | inr (p, known) ↦
        Grows-insert k _ d (rw (known, opened) (omega arith)) (rw (known, opened) (omega arith))
  ]

  open_rifts-Grows :
      (id floor : ℕ) (cs : List RiftDefinition) (d : Dict PlayerRiftProgress)
      → Grows d (open_rifts rifts id floor cs d)
  unfolding open_rifts
  open_rifts-Grows id floor [] d = λ i. (omega arith, omega arith)
  open_rifts-Grows id floor (c ∷ cs) d = elim (Bool-cases (opens rifts id floor c)) [
    | inl open_ ↦ rw open_ (
        Grows-trans d (insert c.id (opened rifts c.id d) d) _ (opened-Grows c.id d)
          (open_rifts-Grows id floor cs (insert c.id (opened rifts c.id d) d)))
    | inr shut ↦ rw shut (open_rifts-Grows id floor cs d)
  ]

  current-stored :
      (id : ℕ) (d : Dict PlayerRiftProgress)
      → (unlocked d id ≤ (current_progress rifts id d).highest_unlocked_floor)
        × (completed d id ≤ (current_progress rifts id d).highest_completed_floor)
  unfolding current_progress
  current-stored id d = elim (Option-cases (lookup id d)) [
    | inl fresh ↦ rw fresh (omega arith, omega arith)
    | inr (p, known) ↦ rw (known, current_progress) (omega arith, omega arith)
  ]

  -- The floor counts as completed, and the floor above it, where there is one, as unlocked.
  abbrev pub Completes : RiftDefinition → ℕ → ℕ → Dict PlayerRiftProgress → Type 0
  Completes definition id floor d =
      (floor ≤ completed d id) × (min (length definition.floors) (floor + 1) ≤ unlocked d id)

  -- A floor that is completed counts as completed, the floor above it is unlocked if the rift has
  -- one, and in no rift does the highest floor that is unlocked or completed go down.
  pub complete_rift_floor-Completes :
      (id floor : ℕ) (p : StoredPlayerProfile) (definition : RiftDefinition)
      → rift_definition rifts id ≡ some definition
      → After
          (λ p'.
            Grows p.rift_progress p'.rift_progress × Completes definition id floor p'.rift_progress)
          (complete_rift_floor rifts id floor p)
  unfolding complete_rift_floor
  complete_rift_floor-Completes id floor p definition known =
      After-bind (λ x. rift_definition rifts id ≡ some x) Goal
        (After-or_refuse (rift_definition rifts id) invalid_rift_floor)
        λ x found.
          After-bind (λ _. Unit {0}) Goal (After-any _)
            λ _ _.
              After-bind (λ _. Unit {0}) Goal (After-any _)
                λ _ _. After-done Goal _ (reached x found)
    where
      Goal : StoredPlayerProfile → Type 0
      Goal p' =
          Grows p.rift_progress p'.rift_progress × Completes definition id floor p'.rift_progress

      reached :
          (x : RiftDefinition)
          → rift_definition rifts id ≡ some x
          → Goal (record p {
            rift_progress = open_rifts rifts id floor rifts (
                insert id
                  (completed_floor rifts x floor (current_progress rifts id p.rift_progress))
                  p.rift_progress);
          })
      reached x found =
          let both : some x ≡ some definition = cc in
          let same : x ≡ definition = cc in
          let d = p.rift_progress in
          let q = completed_floor rifts x floor (current_progress rifts id d) in
          let stored = current-stored id d in
          let first = Grows-insert id q d (omega (arith, stored.0)) (omega (arith, stored.1)) in
          let later = open_rifts-Grows id floor rifts (insert id q d) in
          let own : (id == id) ≡ true = (==_iff id id).1 refl in
          let here : lookup id (insert id q d) ≡ some q = rw (lookup-insert id id q d, own) refl in
          let at = later id in
          let un : unlocked (insert id q d) id ≡ q.highest_unlocked_floor = rw here refl in
          let co : completed (insert id q d) id ≡ q.highest_completed_floor = rw here refl in
          let lengths : length x.floors ≡ length definition.floors =
            ap (λ r. length r.floors) same in
          let reaches : Completes definition id floor _ =
            (omega (arith, at.1, co), omega (arith, at.0, un, lengths)) in
          (Grows-trans d (insert id q d) _ first later, reaches)
