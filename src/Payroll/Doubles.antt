-- ===== src/Payroll/Doubles.antt =====
-- The arithmetic of payroll-calculator.ts on fractions of a sen. The type of the numbers and their
-- operations are a parameter, so that what is proved holds for the program's doubles, with whatever
-- rounding they make; `fractions` is an instance, with exact ones.
use employee_attendance.Prelude.{ℕ, ◌+◌, ◌*◌, ◌/◌}

pub record Doubles : Type 1 where
  pub Number : Type 0
  pub of_whole : ℕ → Number
  pub plus : Number → Number → Number
  pub times : Number → Number → Number
  pub over : Number → Number → Number
  -- `Math.max(0, Math.round(value))`
  pub rounded : Number → ℕ

-- A numerator and a denominator. `Math.round` takes a half up.
abbrev pub fractions : Doubles
fractions = record {
  Number = ℕ × ℕ;
  of_whole = λ n. (n, 1);
  plus = λ x y. (x.0 * y.1 + y.0 * x.1, x.1 * y.1);
  times = λ x y. (x.0 * y.0, x.1 * y.1);
  over = λ x y. (x.0 * y.1, x.1 * y.0);
  rounded = λ x. (2 * x.0 + x.1) / (2 * x.1);
}
