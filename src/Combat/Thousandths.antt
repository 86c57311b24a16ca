-- ===== src/Combat/Thousandths.antt =====
-- Fractions in thousandths, for the tests: a generator that always answers one half.
use vaelmour_game.Prelude.{ℕ, ◌+◌, ◌-◌, ◌*◌, ◌/◌, max, ltb, leb}
use vaelmour_game.Combat.Types.{Float}

abbrev pub thousandths : Float
thousandths = record {
  F = ℕ;
  of_ℕ = λ n. n * 1000;
  add = λ a b. a + b;
  sub = λ a b. a - b;
  mul = λ a b. a * b / 1000;
  div = λ a b. a * 1000 / b;
  max = λ a b. max a b;
  lt = ltb;
  le = leb;
  floor = λ a. a / 1000;
  round = λ a. (a + 500) / 1000;
  random = λ n. 500;
  damage_spread = 100;
  potion_heal_percent = 350;
}
