-- ===== src/Prelude/Best.antt =====
-- The first of the best elements of a list, as `sort(compare)[0]` and a `findFirst` with an order give it.
use mathlib.Core.Path.{◌≡◌, refl, sym, ap, ◌∙◌, subst}
use mathlib.Core.Logic.{◌↔◌, inl, inr}
use mathlib.Core.Bool.{Bool, true, false}
use mathlib.Core.List.{List, [], ◌∷◌, ◌++◌}
use mathlib.Core.Option.{Option, none, some}
use native.Mathlib.Omega.{arith}
use employee_attendance.Prelude.Tests.{if◌then◌else◌, Bool-cases, Option-cases}
use employee_attendance.Prelude.Lists.{All, All-imp, All-append}

module _ {A : Type 0} (at_least : A → A → Bool) where
  -- An element of the list that is as good as every later one, and better than every earlier one.
  pub record IsFirstBest (xs : List A) (x : A) : Type 0 where
    pub earlier : List A
    pub later : List A
    pub here : xs ≡ earlier ++ x ∷ later
    pub better : All (λ y. at_least y x ≡ false) earlier
    pub as_good : All (λ y. at_least x y ≡ true) later

  -- The step of a search from the right.
  abbrev pub better_of : A → Option A → Option A
  better_of x none = some x
  better_of x (some y) = if at_least x y then some x else some y

  abbrev pub first_best : List A → Option A
  first_best [] = none
  first_best (x ∷ xs) = better_of x (first_best xs)

  first_best-none : (xs : List A) → first_best xs ≡ none → xs ≡ []
  first_best-none [] h = refl
  first_best-none (x ∷ xs) h = elim (Option-cases (first_best xs)) [
    | inl missing ↦ absurd (ground (arith))
    | inr (y, found) ↦ elim (Bool-cases (at_least x y)) [
      | inl first ↦ absurd (ground (arith))
      | inr later ↦ absurd (ground (arith))
    ]
  ]

  first_best-All : (P : A → Type 0) (xs : List A) (x : A) → All P xs → first_best xs ≡ some x → P x
  first_best-All P [] x h e = cc
  first_best-All P (y ∷ ys) x (hy, h) e = elim (Option-cases (first_best ys)) [
    | inl missing ↦ let same : y ≡ x = ground (arith) in subst P same hy
    | inr (z, found) ↦
        let ih = first_best-All P ys z h found in
        elim (Bool-cases (at_least y z)) [
          | inl first ↦ let same : y ≡ x = ground (arith) in subst P same hy
          | inr later ↦ let same : z ≡ x = ground (arith) in subst P same ih
        ]
  ]

  module _ (total : (x y : A) → at_least x y ≡ false → at_least y x ≡ true)
      (trans : (x y z : A) → at_least x y ≡ true → at_least y z ≡ true → at_least x z ≡ true) where
    self : (x : A) → at_least x x ≡ true
    self x = elim (Bool-cases (at_least x x)) [ inl good ↦ good | inr worse ↦ total x x worse ]

    IsFirstBest-All : (xs : List A) (x : A) → IsFirstBest xs x → All (λ y. at_least x y ≡ true) xs
    IsFirstBest-All xs x b = subst (All (λ y. at_least x y ≡ true)) (sym b.here) (
        All-append (λ y. at_least x y ≡ true) b.earlier (x ∷ b.later)
          (All-imp b.earlier (λ y worse. total y x worse) b.better) (self x, b.as_good))

    first_one : (y : A) (ys : List A) → All (λ v. at_least y v ≡ true) ys → IsFirstBest (y ∷ ys) y
    first_one y ys good = record {
      earlier = [];
      later = ys;
      here = refl;
      better = tt;
      as_good = good;
    }

    later_one :
        (y : A) (ys : List A) (z : A)
        → at_least y z ≡ false
        → IsFirstBest ys z
        → IsFirstBest (y ∷ ys) z
    later_one y ys z worse b = record {
      earlier = y ∷ b.earlier;
      later = b.later;
      here = ap (λ xs. y ∷ xs) b.here;
      better = (worse, b.better);
      as_good = b.as_good;
    }

    first_best-IsFirstBest : (xs : List A) (x : A) → first_best xs ≡ some x → IsFirstBest xs x
    first_best-IsFirstBest [] x h = cc
    first_best-IsFirstBest (y ∷ ys) x h = elim (Option-cases (first_best ys)) [
      | inl missing ↦
          let same : y ≡ x = ground (arith) in
          let empty = first_best-none ys missing in
          subst (IsFirstBest (y ∷ ys)) same
            (first_one y ys (subst (All (λ v. at_least y v ≡ true)) (sym empty) tt))
      | inr (z, found) ↦
          let ih = first_best-IsFirstBest ys z found in
          elim (Bool-cases (at_least y z)) [
            | inl first ↦
                let same : y ≡ x = ground (arith) in
                subst (IsFirstBest (y ∷ ys)) same (
                  first_one y ys
                    (All-imp ys (λ v good. trans y z v first good) (IsFirstBest-All ys z ih)))
            | inr later ↦
                let same : z ≡ x = ground (arith) in
                subst (IsFirstBest (y ∷ ys)) same (later_one y ys z later ih)
          ]
    ]

    first_best-split :
        (earlier later : List A) (x : A)
        → All (λ y. at_least y x ≡ false) earlier
        → All (λ y. at_least x y ≡ true) later
        → first_best (earlier ++ x ∷ later) ≡ some x
    first_best-split [] later x h k = elim (Option-cases (first_best later)) [
      | inl missing ↦ ap (better_of x) missing
      | inr (z, found) ↦
          let good = first_best-All (λ y. at_least x y ≡ true) later z k found in
          ap (better_of x) found ∙ ap (λ b. if b then some x else some z) good
    ]
    first_best-split (y ∷ ys) later x (h, hs) k =
        ap (better_of y) (first_best-split ys later x hs k)
        ∙ ap (λ b. if b then some y else some x) h

    -- A search from the right finds the first of the best elements.
    pub first_best_iff : (xs : List A) (x : A) → (first_best xs ≡ some x) ↔ IsFirstBest xs x
    first_best_iff xs x = (
      first_best-IsFirstBest xs x,
      λ b. ap first_best b.here ∙ first_best-split b.earlier b.later x b.better b.as_good,
    )
