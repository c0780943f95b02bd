-- ===== src/Prelude/Rows.antt =====
-- The rows of a table: `updateMany`, and finding, updating and inserting by a unique key.
use Prim.Native.Nat.{}
use mathlib.Core.Path.{◌≡◌, refl, sym, ap, ◌∙◌}
use mathlib.Core.Logic.{◌↔◌, inl, inr}
use mathlib.Core.Bool.{Bool, true, false}
use mathlib.Core.List.{List, [], ◌∷◌}
use mathlib.Core.Option.{Option, none, some}
use native.Mathlib.Omega.{arith}
use employee_attendance.Prelude.Tests.{if◌then◌else◌, Bool-cases, Option-cases, is_some, or_else}
use employee_attendance.Prelude.Lists.{find}

module _ {ℓ} {A : Type ℓ} where
  -- `updateMany({ where, data })`
  abbrev pub update_where : (A → Bool) → (A → A) → List A → List A
  update_where p f [] = []
  update_where p f (x ∷ xs) = (if p x then f x else x) ∷ update_where p f xs

  pub find-true : (p : A → Bool) (xs : List A) (x : A) → find p xs ≡ some x → p x ≡ true
  find-true p [] x h = cc
  find-true p (y ∷ xs) x h = elim (Bool-cases (p y)) [
    | inl here ↦ ground (arith)
    | inr there ↦ ground (arith, find-true p xs x)
  ]

  abbrev pub change_found {κ} : {B : Type κ} → (A → B) → Option A → Option B
  change_found f none = none
  change_found f (some x) = some (f x)

module _ {ℓ κ} {A : Type ℓ} {K : Type κ} (key : A → K) (same : K → K → Bool) where
  abbrev pub find_row : K → List A → Option A
  find_row k xs = find (λ x. same (key x) k) xs

  abbrev pub update_row : K → (A → A) → List A → List A
  update_row k f xs = update_where (λ x. same (key x) k) f xs

  -- `upsert`: the update if there is a row with the key, and the new row otherwise.
  abbrev pub upsert_row : K → A → (A → A) → List A → List A
  upsert_row k new f xs = if is_some (find_row k xs) then update_row k f xs else new ∷ xs

  module _ (same_iff : (a b : K) → (same a b ≡ true) ↔ (a ≡ b)) (k : K) (f : A → A)
      (keeps : (x : A) → key (f x) ≡ key x) where
    pub find_row-update_row :
        (xs : List A) → find_row k (update_row k f xs) ≡ change_found f (find_row k xs)
    find_row-update_row [] = refl
    find_row-update_row (x ∷ xs) = elim (Bool-cases (same (key x) k)) [
      | inl here ↦ let there = ap (λ a. same a k) (keeps x) ∙ here in ground (arith)
      | inr there ↦ ground (arith, find_row-update_row xs)
    ]

    pub find_row-update_row_other :
        (other : K)
        → same k other ≡ false
        → (xs : List A) → find_row other (update_row k f xs) ≡ find_row other xs
    find_row-update_row_other other h [] = refl
    find_row-update_row_other other h (x ∷ xs) = elim (Bool-cases (same (key x) k)) [
      | inl here ↦
          let at = (same_iff (key x) k).0 here in
          let not_there : same (key x) other ≡ false = ap (λ a. same a other) at ∙ h in
          let nor_there : same (key (f x)) other ≡ false =
            ap (λ a. same a other) (keeps x) ∙ not_there in
          ground (arith, find_row-update_row_other other h xs)
      | inr there ↦ ground (arith, find_row-update_row_other other h xs)
    ]

    find_row-update_row_moved :
        (other : K)
        → same k other ≡ true
        → (xs : List A) → find_row other (update_row k f xs) ≡ change_found f (find_row k xs)
    find_row-update_row_moved other h xs =
        let at = (same_iff k other).0 h in
        ap (λ x. find_row x (update_row k f xs)) (sym at) ∙ find_row-update_row xs

    -- What an upsert leaves of a key.
    pub find_row-upsert_row :
        (new : A)
        → key new ≡ k
        → (other : K) (xs : List A)
        → find_row other (upsert_row k new f xs) ≡ (
            if same k other
            then some (or_else (change_found f (find_row k xs)) new)
            else find_row other xs)
    find_row-upsert_row new named other xs =
        let first = ap (λ a. same a other) named in
        elim (Option-cases (find_row k xs)) [
          | inl missing ↦ elim (Bool-cases (same k other)) [
            | inl here ↦ ground (arith)
            | inr there ↦ ground (arith)
          ]
          | inr (x, found) ↦ elim (Bool-cases (same k other)) [
            | inl here ↦ let moved = find_row-update_row_moved other here xs in ground (arith)
            | inr there ↦ let kept = find_row-update_row_other other there xs in ground (arith)
          ]
        ]
