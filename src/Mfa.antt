-- ===== src/Mfa.antt =====
-- apps/api/src/services/mfa.ts: the secret of multi-factor authentication as text, in base 32. A text is
-- the list of its character codes, a text of binary digits is a list of Booleans, and a byte is a number
-- below 256. `toUpperCase` is the parameter `upper`.
pub mod Secrets
use employee_attendance.Prelude.{
  ℕ, zero, suc, ◌+◌, ◌*◌, ◌/◌, ◌%◌, ◌==◌, Bool, true, false, not, Option, none, some, List, [], ◌∷◌,
  ◌++◌, filter, if◌then◌else◌,
}

-- "ABCDEFGHIJKLMNOPQRSTUVWXYZ234567"
abbrev pub alphabet : List ℕ
alphabet =
    65 ∷ 66 ∷ 67 ∷ 68 ∷ 69 ∷ 70 ∷ 71 ∷ 72 ∷ 73 ∷ 74 ∷ 75 ∷ 76 ∷ 77 ∷ 78 ∷ 79 ∷ 80 ∷ 81 ∷ 82 ∷ 83
    ∷ 84 ∷ 85 ∷ 86 ∷ 87 ∷ 88 ∷ 89 ∷ 90 ∷ 50 ∷ 51 ∷ 52 ∷ 53 ∷ 54 ∷ 55 ∷ []

-- `alphabet[n]`; the numbers of five digits are all in it.
unfoldable pub char_at : List ℕ → ℕ → ℕ
char_at [] n = 0
char_at (c ∷ cs) zero = c
char_at (c ∷ cs) (suc n) = char_at cs n

abbrev pub one_more : Option ℕ → Option ℕ
one_more none = none
one_more (some n) = some (suc n)

-- `alphabet.indexOf(character)`, none for -1.
unfoldable pub index_of : List ℕ → ℕ → Option ℕ
index_of [] c = none
index_of (d ∷ cs) c = let rest = index_of cs c in if d == c then some 0 else one_more rest

-- `n.toString(2).padStart(width, "0")` before the digits that are given, for a number that fits.
unfoldable pub to_digits : ℕ → ℕ → List Bool → List Bool
to_digits zero n digits = digits
to_digits (suc width) n digits = to_digits width (n / 2) ((n % 2 == 1) ∷ digits)

-- `Number.parseInt(digits, 2)`, from the number of the digits before.
unfoldable pub parse_digits : ℕ → List Bool → ℕ
parse_digits n [] = n
parse_digits n (d ∷ digits) = parse_digits (2 * n + (if d then 1 else 0)) digits

unfoldable pub digits_of_bytes : List ℕ → List Bool
digits_of_bytes [] = []
digits_of_bytes (b ∷ bytes) = to_digits 8 b [] ++ digits_of_bytes bytes

unfoldable pub char_of : (a b c d e : Bool) → ℕ
char_of a b c d e = char_at alphabet (parse_digits 0 (a ∷ b ∷ c ∷ d ∷ e ∷ []))

-- The loop of `base32Encode`: slices of five digits, the last one padded with zeros.
unfoldable pub encode_digits : List Bool → List ℕ
encode_digits [] = []
encode_digits (a ∷ []) = char_of a false false false false ∷ []
encode_digits (a ∷ b ∷ []) = char_of a b false false false ∷ []
encode_digits (a ∷ b ∷ c ∷ []) = char_of a b c false false ∷ []
encode_digits (a ∷ b ∷ c ∷ d ∷ []) = char_of a b c d false ∷ []
encode_digits (a ∷ b ∷ c ∷ d ∷ e ∷ rest) = char_of a b c d e ∷ encode_digits rest

-- `base32Encode`
unfoldable pub base32_encode : List ℕ → List ℕ
base32_encode bytes = encode_digits (digits_of_bytes bytes)

abbrev pub join_digits : Option ℕ → Option (List Bool) → Option (List Bool)
join_digits none rest = none
join_digits (some n) none = none
join_digits (some n) (some rest) = some (to_digits 5 n [] ++ rest)

-- The loop over the characters; none where it throws.
unfoldable pub digits_of_chars : List ℕ → Option (List Bool)
digits_of_chars [] = some []
digits_of_chars (c ∷ cs) = join_digits (index_of alphabet c) (digits_of_chars cs)

-- The loop over the whole bytes of the digits.
unfoldable pub decode_digits : List Bool → List ℕ
decode_digits (a ∷ b ∷ c ∷ d ∷ e ∷ f ∷ g ∷ h ∷ rest) =
    parse_digits 0 (a ∷ b ∷ c ∷ d ∷ e ∷ f ∷ g ∷ h ∷ []) ∷ decode_digits rest
decode_digits _ = []

abbrev pub decoded : Option (List Bool) → Option (List ℕ)
decoded none = none
decoded (some digits) = some (decode_digits digits)

-- `value.replaceAll("=", "")`
abbrev pub without_padding : List ℕ → List ℕ
without_padding cs = filter (λ c. not (c == 61)) cs

-- `base32Decode`; none where it throws.
unfoldable pub base32_decode : (List ℕ → List ℕ) → List ℕ → Option (List ℕ)
base32_decode upper text = decoded (digits_of_chars (upper (without_padding text)))
