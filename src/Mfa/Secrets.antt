-- ===== src/Mfa/Secrets.antt =====
-- mfa.ts: decoding gives back the bytes that were encoded.
use employee_attendance.Prelude.{
  ℕ, zero, suc, ◌/◌, ◌%◌, ◌<◌, ◌≡◌, ◌==◌, refl, ap, ◌∙◌, Bool, true, false, not, some, List, [],
  ◌∷◌, ◌++◌, All, filter, arith, any, every, ◌&&◌, &&_elim, length,
}
use Prim.Native.Nat.{◌^◌}
use mathlib.Core.Path.{}
use employee_attendance.Mfa.{
  alphabet, char_at, index_of, to_digits, parse_digits, digits_of_bytes, char_of, encode_digits,
  base32_encode, join_digits, digits_of_chars, decode_digits, decoded, base32_decode,
}

-- Each character of a text is of the alphabet.
abbrev pub IsBase32 : List ℕ → Type 0
IsBase32 cs = All (λ c. any (λ d. d == c) alphabet ≡ true) cs

are_different : List ℕ → Bool
are_different [] = true
are_different (c ∷ cs) = every (λ d. not (c == d)) cs && are_different cs

char_at-every :
    (p : ℕ → Bool) (cs : List ℕ) (n : ℕ)
    → every p cs ≡ true
    → n < length cs
    → p (char_at cs n) ≡ true
unfolding char_at
char_at-every p [] n h k = absurd (omega arith)
char_at-every p (c ∷ cs) zero h k = ground (arith)
char_at-every p (c ∷ cs) (suc n) h k = ground (arith, char_at-every p cs n)

index_of-char_at :
    (cs : List ℕ) (n : ℕ)
    → are_different cs ≡ true
    → n < length cs
    → index_of cs (char_at cs n) ≡ some n
unfolding index_of char_at are_different
index_of-char_at [] n h k = absurd (omega arith)
index_of-char_at (c ∷ cs) zero h k = ground (arith)
index_of-char_at (c ∷ cs) (suc n) h k =
    let (first, rest) = &&_elim (every (λ d. not (c == d)) cs) (are_different cs) h in
    let other = char_at-every (λ d. not (c == d)) cs n first (omega arith) in
    let ih = index_of-char_at cs n rest (omega arith) in ground (arith)

alphabet-are_different : are_different alphabet ≡ true
unfolding are_different
alphabet-are_different = refl

five_fit : (a b c d e : Bool) → parse_digits 0 (a ∷ b ∷ c ∷ d ∷ e ∷ []) < length alphabet
unfolding parse_digits
five_fit a b c d e = ground (arith)

index_of-char_of :
    (a b c d e : Bool)
    → index_of alphabet (char_of a b c d e) ≡ some (parse_digits 0 (a ∷ b ∷ c ∷ d ∷ e ∷ []))
unfolding char_of
index_of-char_of a b c d e =
    index_of-char_at alphabet (parse_digits 0 (a ∷ b ∷ c ∷ d ∷ e ∷ [])) alphabet-are_different
      (five_fit a b c d e)

to_digits-parse_digits :
    (a b c d e : Bool)
    → to_digits 5 (parse_digits 0 (a ∷ b ∷ c ∷ d ∷ e ∷ [])) [] ≡ a ∷ b ∷ c ∷ d ∷ e ∷ []
unfolding to_digits parse_digits
to_digits-parse_digits a b c d e =
    elim a
      as (λ a. to_digits 5 (parse_digits 0 (a ∷ b ∷ c ∷ d ∷ e ∷ [])) [] ≡ a ∷ b ∷ c ∷ d ∷ e ∷ []) [
        | true ↦ ground (arith)
        | false ↦ ground (arith)
      ]

-- The number of the digits of a number below 2 ^ width.
parse_digits-to_digits :
    (width n : ℕ) (digits : List Bool)
    → n < 2 ^ width
    → parse_digits 0 (to_digits width n digits) ≡ parse_digits n digits
unfolding to_digits parse_digits
parse_digits-to_digits zero n digits h = ap (λ m. parse_digits m digits) (omega arith)
parse_digits-to_digits (suc width) n digits h =
    parse_digits-to_digits width (n / 2) ((n % 2 == 1) ∷ digits) (omega arith)
    ∙ ap (λ m. parse_digits m digits) (ground (arith))

-- A character of an encoded text stands for its five digits.
digits_of_char :
    (a b c d e : Bool) (cs : List ℕ) (digits : List Bool)
    → digits_of_chars cs ≡ some digits
    → digits_of_chars (char_of a b c d e ∷ cs) ≡ some (a ∷ b ∷ c ∷ d ∷ e ∷ digits)
unfolding digits_of_chars
digits_of_char a b c d e cs digits h =
    ap (λ o. join_digits o (digits_of_chars cs)) (index_of-char_of a b c d e)
    ∙ ap (join_digits (some (parse_digits 0 (a ∷ b ∷ c ∷ d ∷ e ∷ [])))) h
    ∙ ap (λ x. some (x ++ digits)) (to_digits-parse_digits a b c d e)

-- The digits of an encoded text are the given ones and fewer than five zeros.
digits_of_chars-encode_digits :
    (digits : List Bool)
    → (zeros : List Bool) × (length zeros < 5)
      × (digits_of_chars (encode_digits digits) ≡ some (digits ++ zeros))
unfolding encode_digits digits_of_chars
digits_of_chars-encode_digits [] = ([], omega arith, refl)
digits_of_chars-encode_digits (a ∷ []) = (
  false ∷ false ∷ false ∷ false ∷ [],
  omega arith,
  digits_of_char a false false false false [] [] refl,
)
digits_of_chars-encode_digits (a ∷ b ∷ []) =
    (false ∷ false ∷ false ∷ [], omega arith, digits_of_char a b false false false [] [] refl)
digits_of_chars-encode_digits (a ∷ b ∷ c ∷ []) =
    (false ∷ false ∷ [], omega arith, digits_of_char a b c false false [] [] refl)
digits_of_chars-encode_digits (a ∷ b ∷ c ∷ d ∷ []) =
    (false ∷ [], omega arith, digits_of_char a b c d false [] [] refl)
digits_of_chars-encode_digits (a ∷ b ∷ c ∷ d ∷ e ∷ rest) =
    let (zeros, few, same) = digits_of_chars-encode_digits rest in
    (zeros, few, digits_of_char a b c d e (encode_digits rest) (rest ++ zeros) same)

decode_digits-short : (digits : List Bool) → length digits < 8 → decode_digits digits ≡ []
unfolding decode_digits
decode_digits-short [] h = refl
decode_digits-short (a ∷ []) h = refl
decode_digits-short (a ∷ b ∷ []) h = refl
decode_digits-short (a ∷ b ∷ c ∷ []) h = refl
decode_digits-short (a ∷ b ∷ c ∷ d ∷ []) h = refl
decode_digits-short (a ∷ b ∷ c ∷ d ∷ e ∷ []) h = refl
decode_digits-short (a ∷ b ∷ c ∷ d ∷ e ∷ f ∷ []) h = refl
decode_digits-short (a ∷ b ∷ c ∷ d ∷ e ∷ f ∷ g ∷ []) h = refl
decode_digits-short (a ∷ b ∷ c ∷ d ∷ e ∷ f ∷ g ∷ i ∷ rest) h = absurd (omega arith)

decode_digits-byte :
    (b : ℕ) (rest : List Bool)
    → b < 256
    → decode_digits (to_digits 8 b [] ++ rest) ≡ b ∷ decode_digits rest
unfolding decode_digits to_digits parse_digits
decode_digits-byte b rest h = ap (λ n. n ∷ decode_digits rest) (parse_digits-to_digits 8 b [] h)

append_assoc : (xs ys zs : List Bool) → (xs ++ ys) ++ zs ≡ xs ++ (ys ++ zs)
append_assoc [] ys zs = refl
append_assoc (x ∷ xs) ys zs = ap (λ l. x ∷ l) (append_assoc xs ys zs)

decode_digits-digits_of_bytes :
    (bytes : List ℕ) (zeros : List Bool)
    → All (λ b. b < 256) bytes
    → length zeros < 5
    → decode_digits (digits_of_bytes bytes ++ zeros) ≡ bytes
unfolding digits_of_bytes
decode_digits-digits_of_bytes [] zeros h few = decode_digits-short zeros (omega arith)
decode_digits-digits_of_bytes (b ∷ bytes) zeros (p, h) few =
    ap decode_digits (append_assoc (to_digits 8 b []) (digits_of_bytes bytes) zeros)
    ∙ decode_digits-byte b (digits_of_bytes bytes ++ zeros) p
    ∙ ap (λ l. b ∷ l) (decode_digits-digits_of_bytes bytes zeros h few)

char_at-any : (cs : List ℕ) (n : ℕ) → n < length cs → any (λ d. d == char_at cs n) cs ≡ true
unfolding char_at
char_at-any [] n k = absurd (omega arith)
char_at-any (c ∷ cs) zero k = ground (arith)
char_at-any (c ∷ cs) (suc n) k = ground (arith, char_at-any cs n)

encode_digits-All :
    (P : ℕ → Type 0)
    → ((a b c d e : Bool) → P (char_of a b c d e))
    → (digits : List Bool) → All P (encode_digits digits)
unfolding encode_digits
encode_digits-All P h [] = tt
encode_digits-All P h (a ∷ []) = (h a false false false false, tt)
encode_digits-All P h (a ∷ b ∷ []) = (h a b false false false, tt)
encode_digits-All P h (a ∷ b ∷ c ∷ []) = (h a b c false false, tt)
encode_digits-All P h (a ∷ b ∷ c ∷ d ∷ []) = (h a b c d false, tt)
encode_digits-All P h (a ∷ b ∷ c ∷ d ∷ e ∷ rest) = (h a b c d e, encode_digits-All P h rest)

filter-every : (p : ℕ → Bool) (cs : List ℕ) → All (λ c. p c ≡ true) cs → filter p cs ≡ cs
filter-every p [] h = refl
filter-every p (c ∷ cs) (q, h) = ground (arith, filter-every p cs)

encoded_chars : (a b c d e : Bool) → any (λ x. x == char_of a b c d e) alphabet ≡ true
unfolding char_of
encoded_chars a b c d e =
    char_at-any alphabet (parse_digits 0 (a ∷ b ∷ c ∷ d ∷ e ∷ [])) (five_fit a b c d e)

no_padding : (a b c d e : Bool) → not (char_of a b c d e == 61) ≡ true
unfolding char_of
no_padding a b c d e =
    char_at-every (λ x. not (x == 61)) alphabet (parse_digits 0 (a ∷ b ∷ c ∷ d ∷ e ∷ [])) refl
      (five_fit a b c d e)

-- For any bytes, and an upper case that leaves the capitals and digits of base 32 as they are, decoding
-- the encoded text gives back the bytes.
pub base32_decode-base32_encode :
    (upper : List ℕ → List ℕ) (bytes : List ℕ)
    → ((cs : List ℕ) → IsBase32 cs → upper cs ≡ cs)
    → All (λ b. b < 256) bytes
    → base32_decode upper (base32_encode bytes) ≡ some bytes
unfolding base32_encode base32_decode
base32_decode-base32_encode upper bytes capitals fit =
    let digits = digits_of_bytes bytes in
    let text = encode_digits digits in
    let (zeros, few, same) = digits_of_chars-encode_digits digits in
    let plain =
      filter-every (λ c. not (c == 61)) text
        (encode_digits-All (λ c. not (c == 61) ≡ true) no_padding digits) in
    let in_capitals =
      capitals text
        (encode_digits-All (λ c. any (λ d. d == c) alphabet ≡ true) encoded_chars digits) in
    ap (λ cs. decoded (digits_of_chars (upper cs))) plain
    ∙ ap (λ cs. decoded (digits_of_chars cs)) in_capitals
    ∙ ap decoded same
    ∙ ap some (decode_digits-digits_of_bytes bytes zeros fit few)
