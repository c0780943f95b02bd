-- ===== src/CodeSet.antt =====
-- Sets of codes, `new Set<string>()` as the services use it: `add`, `has`, and `[...set].sort()`. The
-- codes are enumerations, and `rank` is a code's place in alphabetical order.
use employee_attendance.Prelude.{
  ℕ, suc, ◌≤◌, ◌≡◌, refl, ◌∙◌, Bool, true, false, ◌||◌, List, [], ◌∷◌, ◌++◌, ◌==◌, leb,
  if◌then◌else◌, any, arith,
}

pub record Code (A : Type 0) : Type 0 where
  pub rank : A → ℕ

module _ {A : Type 0} ⦃code : Code A⦄ where
  open code use {rank}

  abbrev pub has_code : A → List A → Bool
  has_code c cs = any (λ d. rank d == rank c) cs

  -- `set.add(code)`
  unfoldable pub add_code : A → List A → List A
  add_code c cs = if has_code c cs then cs else cs ++ c ∷ []

  unfoldable pub insert_code : A → List A → List A
  insert_code c [] = c ∷ []
  insert_code c (d ∷ ds) =
      let rest = insert_code c ds in if leb (rank c) (rank d) then c ∷ d ∷ ds else d ∷ rest

  -- `[...set].sort()`
  unfoldable pub sorted_codes : List A → List A
  sorted_codes [] = []
  sorted_codes (c ∷ cs) = insert_code c (sorted_codes cs)

  -- `new Set([...codes])`, from the codes that are in it already.
  abbrev pub set_of : List A → List A → List A
  set_of set [] = set
  set_of set (c ∷ cs) = set_of (add_code c set) cs

  abbrev pub is_empty : List A → Bool
  is_empty [] = true
  is_empty (c ∷ cs) = false

  -- Each code stands before the next in the alphabet, so none stands twice.
  abbrev pub IsSorted : List A → Type 0
  IsSorted [] = Unit
  IsSorted (c ∷ []) = Unit
  IsSorted (c ∷ d ∷ ds) = (suc (rank c) ≤ rank d) × IsSorted (d ∷ ds)

  insert_code-IsSorted :
      (c : A) (cs : List A) → IsSorted cs → has_code c cs ≡ false → IsSorted (insert_code c cs)
  unfolding insert_code
  insert_code-IsSorted c [] s h = tt
  insert_code-IsSorted c (d ∷ []) s h = ground arith
  insert_code-IsSorted c (d ∷ e ∷ ds) (p, s) h = ground (arith, insert_code-IsSorted c (e ∷ ds) s)

  has_code-insert_code :
      (c d : A) (cs : List A) → has_code c (insert_code d cs) ≡ has_code c (d ∷ cs)
  unfolding insert_code
  has_code-insert_code c d [] = refl
  has_code-insert_code c d (e ∷ cs) = ground (arith, has_code-insert_code c d cs)

  -- Sorting keeps the codes.
  pub has_code-sorted_codes : (c : A) (cs : List A) → has_code c (sorted_codes cs) ≡ has_code c cs
  unfolding sorted_codes
  has_code-sorted_codes c [] = refl
  has_code-sorted_codes c (d ∷ cs) =
      ground (arith, has_code-insert_code c d (sorted_codes cs), has_code-sorted_codes c cs)

  -- No code stands twice.
  abbrev pub IsCodeSet : List A → Type 0
  IsCodeSet [] = Unit
  IsCodeSet (c ∷ cs) = (has_code c cs ≡ false) × IsCodeSet cs

  pub has_code-append :
      (c d : A) (cs : List A) → has_code c (cs ++ d ∷ []) ≡ (has_code c cs || rank d == rank c)
  has_code-append c d [] = ground arith
  has_code-append c d (e ∷ cs) = ground (arith, has_code-append c d cs)

  append-IsCodeSet :
      (d : A) (cs : List A) → IsCodeSet cs → has_code d cs ≡ false → IsCodeSet (cs ++ d ∷ [])
  append-IsCodeSet d [] s h = ground arith
  append-IsCodeSet d (e ∷ cs) (p, s) h =
      ground (arith, has_code-append e d cs, append-IsCodeSet d cs s)

  pub add_code-IsCodeSet : (d : A) (cs : List A) → IsCodeSet cs → IsCodeSet (add_code d cs)
  unfolding add_code
  add_code-IsCodeSet d cs s = ground (arith, append-IsCodeSet d cs s)

  -- A set comes out in strict alphabetical order.
  pub sorted_codes-IsSorted : (cs : List A) → IsCodeSet cs → IsSorted (sorted_codes cs)
  unfolding sorted_codes
  sorted_codes-IsSorted [] s = tt
  sorted_codes-IsSorted (c ∷ cs) (p, s) =
      insert_code-IsSorted c (sorted_codes cs) (sorted_codes-IsSorted cs s)
        (has_code-sorted_codes c cs ∙ p)

  pub has_code-add_code : (c : A) (cs : List A) → has_code c (add_code c cs) ≡ true
  unfolding add_code
  has_code-add_code c cs = ground (arith, has_code-append c c cs)

  pub has_code-add_code_old :
      (c d : A) (cs : List A) → has_code c cs ≡ true → has_code c (add_code d cs) ≡ true
  unfolding add_code
  has_code-add_code_old c d cs h = ground (arith, has_code-append c d cs)

  is_empty-insert_code : (c : A) (cs : List A) → is_empty (insert_code c cs) ≡ false
  unfolding insert_code
  is_empty-insert_code c [] = refl
  is_empty-insert_code c (d ∷ ds) = ground arith

  pub is_empty-sorted_codes : (cs : List A) → is_empty (sorted_codes cs) ≡ is_empty cs
  unfolding sorted_codes
  is_empty-sorted_codes [] = refl
  is_empty-sorted_codes (c ∷ cs) = is_empty-insert_code c (sorted_codes cs)
