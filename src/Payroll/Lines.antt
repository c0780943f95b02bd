-- ===== src/Payroll/Lines.antt =====
-- The lines of a calculation and `pushLine`.
use employee_attendance.Prelude.{
  ℕ, ◌+◌, ◌<◌, ◌≡◌, String, Bool, true, false, Option, List, [], ◌∷◌, ◌++◌, ◌==◌, if◌then◌else◌,
  length, sum_by, sum_by-append, arith,
}
use employee_attendance.Payroll.{
  PayrollLineDirection, PayrollLineCategory, earning, deduction, employer_contribution,
}

pub data MetaValue : Type 0 where
  number : ℕ → MetaValue
  text : String → MetaValue

pub record PayrollLineOutput : Type 0 where
  pub direction : PayrollLineDirection
  pub category : PayrollLineCategory
  pub code : String
  pub name : String
  pub amount_sen : ℕ
  pub basis : String
  pub source_component_assignment_id : Option String
  pub metadata : List (String × MetaValue)
  pub display_order : ℕ

-- `Omit<PayrollLineOutput, "displayOrder">`
pub record LineInput : Type 0 where
  pub direction : PayrollLineDirection
  pub category : PayrollLineCategory
  pub code : String
  pub name : String
  pub amount_sen : ℕ
  pub basis : String
  pub source_component_assignment_id : Option String
  pub metadata : List (String × MetaValue)

abbrev with_order : LineInput → ℕ → PayrollLineOutput
with_order line order = record {
  direction = line.direction;
  category = line.category;
  code = line.code;
  name = line.name;
  amount_sen = line.amount_sen;
  basis = line.basis;
  source_component_assignment_id = line.source_component_assignment_id;
  metadata = line.metadata;
  display_order = order;
}

-- `pushLine`: amounts are never negative here, so `<= 0` is zero.
unfoldable pub push_line : List PayrollLineOutput → LineInput → List PayrollLineOutput
push_line lines line =
    if line.amount_sen == 0 then lines else lines ++ with_order line (length lines + 1) ∷ []

abbrev pub is_direction : PayrollLineDirection → PayrollLineDirection → Bool
is_direction earning earning = true
is_direction deduction deduction = true
is_direction employer_contribution employer_contribution = true
is_direction _ _ = false

abbrev amount_in : PayrollLineDirection → PayrollLineOutput → ℕ
amount_in d line = if is_direction d line.direction then line.amount_sen else 0

-- What the lines of a direction add up to.
unfoldable pub total_in : PayrollLineDirection → List PayrollLineOutput → ℕ
total_in d lines = sum_by (amount_in d) lines

pub total_in-push_line :
    (d : PayrollLineDirection) (lines : List PayrollLineOutput) (line : LineInput)
    → total_in d (push_line lines line)
      ≡ total_in d lines + (if is_direction d line.direction then line.amount_sen else 0)
unfolding total_in push_line
total_in-push_line d lines line =
    ground (arith, sum_by-append (amount_in d) lines (with_order line (length lines + 1) ∷ []))

-- Positive amounts, numbered from `n + 1` in order.
abbrev pub IsNumberedFrom : ℕ → List PayrollLineOutput → Type 0
IsNumberedFrom n [] = Unit
IsNumberedFrom n (l ∷ ls) =
    (l.display_order ≡ n + 1) × (0 < l.amount_sen) × IsNumberedFrom (n + 1) ls

IsNumberedFrom-append :
    (n : ℕ) (lines : List PayrollLineOutput) (l : PayrollLineOutput)
    → IsNumberedFrom n lines
    → l.display_order ≡ n + length lines + 1
    → 0 < l.amount_sen
    → IsNumberedFrom n (lines ++ l ∷ [])
IsNumberedFrom-append n [] l h e p = ground arith
IsNumberedFrom-append n (m ∷ lines) l (a, b, h) e p =
    (a, b, IsNumberedFrom-append (n + 1) lines l h (omega arith) p)

pub push_line-IsNumbered :
    (lines : List PayrollLineOutput) (line : LineInput)
    → IsNumberedFrom 0 lines
    → IsNumberedFrom 0 (push_line lines line)
unfolding push_line
push_line-IsNumbered lines line h =
    ground (arith, IsNumberedFrom-append 0 lines (with_order line (length lines + 1)) h)
