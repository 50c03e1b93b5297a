-- ===== src/Numeral/RoundTrip.antt =====
-- What the services read back of a number that Sprintf wrote.
use Prim.Native.Char.{code}
use native.Mathlib.Nat.{pow-suc}
use helpdesk_microservices.Base.{
  ℕ, zero, suc, ◌+◌, ◌/◌, ◌%◌, ◌^◌, ◌≤◌, ◌<◌, ◌≡◌, refl, ap, sym, subst, ◌∙◌, ◌⊎◌, inl, inr, ◌-◌,
  ==_iff, true, false, none, some, String, ◌++◌, length, List, [], ◌∷◌, ltb, ◌==◌, arith, All,
  Bool-cases,
}
use helpdesk_microservices.Numeral.Defs.{
  codes, is_digit, is_space, skip_space, digit_prefix, all_digits, number_from, to_uint64,
  scan_codes, sscanf_uint, parse_uint, digits_to, decimal, strip_zeros, scientific, sprint_codes,
  char_of, spell, sprint_float,
}

abbrev IsDigit : ℕ → Type 0
IsDigit c = (b'0' ≤ c) × (c ≤ b'9')

-- A digit's character has the digit's code.
abbrev Spelt : ℕ → Type 0
Spelt i = code (char_of (b'0' + i)) ≡ b'0' + i

at_most : (n : ℕ) → ((i : ℕ) → i < n → Spelt i) → Spelt n → (i : ℕ) → i < suc n → Spelt i
at_most n below here i h = elim (Bool-cases (i == n)) [
  | inl e ↦ subst Spelt (sym ((==_iff i n).0 e)) here
  | inr e ↦ below i (ground arith)
]

spelt : (i : ℕ) → i < 10 → Spelt i
unfolding char_of
spelt =
    at_most 9
      (at_most 8
        (at_most 7
          (at_most 6
            (at_most 5
              (at_most 4
                (at_most 3
                  (at_most 2 (at_most 1 (at_most 0 (λ x h. absurd (omega arith)) refl) refl) refl)
                  refl)
                refl)
              refl)
            refl)
          refl)
        refl)
      refl

code-char_of : (c : ℕ) → IsDigit c → code (char_of c) ≡ c
code-char_of c h =
    let split : c ≡ b'0' + (c - b'0') = omega arith in rw split (spelt (c - b'0') (omega arith))

codes-spell : (l : List ℕ) → All IsDigit l → codes (spell l) ≡ l
unfolding spell
codes-spell [] h = refl
codes-spell (c ∷ l) h = cc (code-char_of c (h.0), codes-spell l h.1)

module _ (c : ℕ) (s : List ℕ) (h : IsDigit c) where
  skip_space_digit : skip_space (c ∷ s) ≡ some (c ∷ s)
  unfolding skip_space is_space
  skip_space_digit = ground arith

  is_digit-true : is_digit c ≡ true
  unfolding is_digit
  is_digit-true = ground arith

digit_prefix_whole : (l : List ℕ) → All IsDigit l → digit_prefix l ≡ l
unfolding digit_prefix
digit_prefix_whole [] h = refl
digit_prefix_whole (c ∷ l) h = ground (arith, digit_prefix_whole l h.1)

all_digits-true : (l : List ℕ) → All IsDigit l → all_digits l ≡ true
unfolding all_digits
all_digits-true [] h = refl
all_digits-true (c ∷ l) h = ground (arith, all_digits-true l h.1)

-- A decimal expansion: digits that are the number, none only for fuel 0.
digits_to-IsDigit : (f n : ℕ) (acc : List ℕ) → All IsDigit acc → All IsDigit (digits_to f n acc)
unfolding digits_to
digits_to-IsDigit zero n acc h = h
digits_to-IsDigit (suc f) n acc h =
    ground
      (arith, digits_to-IsDigit f (n / 10) ((b'0' + n % 10) ∷ acc) ((omega arith, omega arith), h))

below_tenth : (f n : ℕ) → n < 10 ^ suc f → n / 10 < 10 ^ f
below_tenth f n h = omega (arith, pow-suc 10 f)

number_from-digits_to :
    (f n : ℕ) (acc : List ℕ) → n < 10 ^ f → number_from 0 (digits_to f n acc) ≡ number_from n acc
unfolding digits_to number_from
number_from-digits_to zero n acc h = let none_left : n ≡ 0 = omega arith in cc
number_from-digits_to (suc f) n acc h = elim (Bool-cases (ltb n 10)) [
  | inl last ↦ rw last (ap (λ k. number_from k acc) (omega arith))
  | inr more ↦ rw more (
      number_from-digits_to f (n / 10) ((b'0' + n % 10) ∷ acc) (below_tenth f n h)
      ∙ ap (λ k. number_from k acc) (omega arith))
]

-- The first digit is not 0.
abbrev Starts : List ℕ → Type 0
Starts [] = ⊥
Starts (d ∷ ds) = (b'1' ≤ d) × (d ≤ b'9')

digits_to-Starts : (f n : ℕ) (acc : List ℕ) → n < 10 ^ f → 0 < n → Starts (digits_to f n acc)
unfolding digits_to
digits_to-Starts zero n acc h p = absurd (omega arith)
digits_to-Starts (suc f) n acc h p =
    ground (arith, digits_to-Starts f (n / 10) ((b'0' + n % 10) ∷ acc) (below_tenth f n h))

abbrev IsCons : List ℕ → Type 0
IsCons [] = ⊥
IsCons (d ∷ ds) = Unit {0}

Starts-IsCons : (l : List ℕ) → Starts l → IsCons l
Starts-IsCons [] h = h
Starts-IsCons (d ∷ ds) h = tt

decimal-IsDigit : (n : ℕ) → All IsDigit (decimal n)
unfolding decimal
decimal-IsDigit n = digits_to-IsDigit 20 n [] tt

decimal-IsCons : (n : ℕ) → n < 10 ^ 20 → IsCons (decimal n)
unfolding decimal digits_to
decimal-IsCons n h = elim (Bool-cases (ltb n 10)) [
  | inl last ↦ rw last tt
  | inr more ↦ Starts-IsCons (digits_to 20 n []) (digits_to-Starts 20 n [] h (ground arith))
]

-- A number that is read back from its digits.
to_uint64_digits :
    (l : List ℕ) (n : ℕ) → IsCons l → number_from 0 l ≡ n → n < 2 ^ 64 → to_uint64 l ≡ some n
unfolding to_uint64
to_uint64_digits [] n k e h = absurd k
to_uint64_digits (c ∷ s) n k e h = ground arith

scan_codes_digits : (l : List ℕ) → All IsDigit l → IsCons l → scan_codes l ≡ to_uint64 l
unfolding scan_codes
scan_codes_digits [] h k = absurd k
scan_codes_digits (c ∷ s) h k = cc (skip_space_digit c s h.0, digit_prefix_whole (c ∷ s) h)

sscanf_uint_digits : (l : List ℕ) → All IsDigit l → IsCons l → sscanf_uint (spell l) ≡ to_uint64 l
unfolding sscanf_uint
sscanf_uint_digits l h k = ap scan_codes (codes-spell l h) ∙ scan_codes_digits l h k

parse_uint_digits : (l : List ℕ) → All IsDigit l → parse_uint (spell l) ≡ to_uint64 l
unfolding parse_uint
parse_uint_digits l h = rw (codes-spell l h, all_digits-true l h)

to_uint64-decimal : (n : ℕ) → n < 2 ^ 64 → to_uint64 (decimal n) ≡ some n
unfolding decimal number_from
to_uint64-decimal n h =
    to_uint64_digits (decimal n) n (decimal-IsCons n (omega arith))
      (number_from-digits_to 20 n [] (omega arith)) h

sprint_codes_small : (n : ℕ) → n < 10 ^ 6 → sprint_codes n ≡ decimal n
unfolding sprint_codes
sprint_codes_small n h = ground arith

-- Below 10 ^ 6 the text that Sprintf writes is read back, by both readers, as the number.
pub sscanf_uint-sprint_float :
    (n : ℕ)
    → n < 10 ^ 6
    → (sscanf_uint (sprint_float n) ≡ some n) × (parse_uint (sprint_float n) ≡ some n)
unfolding sprint_float
sscanf_uint-sprint_float n h =
    let small : n < 2 ^ 64 = omega arith in
    let text : spell (sprint_codes n) ≡ spell (decimal n) = ap spell (sprint_codes_small n h) in
    (
      ap sscanf_uint text
          ∙ sscanf_uint_digits (decimal n) (decimal-IsDigit n) (decimal-IsCons n (omega arith))
          ∙ to_uint64-decimal n small,
      ap parse_uint text
          ∙ parse_uint_digits (decimal n) (decimal-IsDigit n)
          ∙ to_uint64-decimal n small,
    )

-- A text whose first character is a digit other than 0 and whose second is no digit.
abbrev IsPoint : ℕ → Type 0
IsPoint c = (c ≡ b'.') ⊎ (c ≡ b'e')

abbrev IsBroken : List ℕ → Type 0
IsBroken [] = ⊥
IsBroken (d ∷ []) = ⊥
IsBroken (d ∷ x ∷ s) = (b'1' ≤ d) × (d ≤ b'9') × IsPoint x

scientific-IsBroken : (l : List ℕ) → Starts l → IsBroken (scientific l)
unfolding scientific
scientific-IsBroken [] h = h
scientific-IsBroken (d ∷ ds) h = broken (strip_zeros ds)
  where
    broken :
        (fraction : List ℕ)
        → IsBroken (
            d ∷ (elim fraction [
              | [] ↦ b'e' ∷ b'+' ∷ (b'0' + length ds / 10) ∷ (b'0' + length ds % 10) ∷ []
              | x ∷ xs ↦
                  b'.'
                  ∷ (x ∷ xs ++ b'e' ∷ b'+' ∷ (b'0' + length ds / 10) ∷ (b'0' + length ds % 10) ∷ [])
            ]))
    broken [] = (h.0, h.1, inr refl)
    broken (x ∷ xs) = (h.0, h.1, inl refl)

code-char_of_point : (c : ℕ) → IsPoint c → code (char_of c) ≡ c
unfolding char_of
code-char_of_point c (inl e) = subst (λ k. code (char_of k) ≡ k) (sym e) refl
code-char_of_point c (inr e) = subst (λ k. code (char_of k) ≡ k) (sym e) refl

module _ (d x : ℕ) (s : List ℕ) (low : b'1' ≤ d) (high : d ≤ b'9') (p : IsPoint x) where
  point_no_digit : is_digit x ≡ false
  unfolding is_digit
  point_no_digit = ground arith

  digit_prefix_broken : digit_prefix (d ∷ x ∷ s) ≡ d ∷ []
  unfolding digit_prefix
  digit_prefix_broken = ground arith

  to_uint64_one : to_uint64 (d ∷ []) ≡ some (d - b'0')
  unfolding to_uint64
  to_uint64_one = ground arith

  scan_codes_broken : scan_codes (d ∷ x ∷ s) ≡ some (d - b'0')
  unfolding scan_codes
  scan_codes_broken =
      cc (skip_space_digit d (x ∷ s) (omega arith, high), digit_prefix_broken, to_uint64_one)

  all_digits_broken : all_digits (d ∷ x ∷ s) ≡ false
  unfolding all_digits
  all_digits_broken = ground arith

  codes-spell_broken : codes (spell (d ∷ x ∷ s)) ≡ d ∷ x ∷ codes (spell s)
  unfolding spell
  codes-spell_broken = cc (code-char_of d (omega arith, high), code-char_of_point x p)

-- What both readers make of it: the one stops after the first digit, the other refuses.
abbrev ReadsDigit : String → Type 0
ReadsDigit s = (d : ℕ) × (1 ≤ d) × (d ≤ 9) × (sscanf_uint s ≡ some d) × (parse_uint s ≡ none)

spell-ReadsDigit : (l : List ℕ) → IsBroken l → ReadsDigit (spell l)
unfolding sscanf_uint parse_uint
spell-ReadsDigit [] h = absurd h
spell-ReadsDigit (d ∷ []) h = absurd h
spell-ReadsDigit (d ∷ x ∷ s) (low, high, p) =
    let text = codes-spell_broken d x s low high p in
    (
      d - b'0',
      omega arith,
      omega arith,
      ap scan_codes text ∙ scan_codes_broken d x (codes (spell s)) low high p,
      rw (text, all_digits_broken d x (codes (spell s)) low high p),
    )

sprint_codes_large : (n : ℕ) → 10 ^ 6 ≤ n → sprint_codes n ≡ scientific (decimal n)
unfolding sprint_codes
sprint_codes_large n h = ground arith

decimal-Starts : (n : ℕ) → n < 10 ^ 20 → 0 < n → Starts (decimal n)
unfolding decimal
decimal-Starts n h p = digits_to-Starts 20 n [] h p

-- From 10 ^ 6 on the text has an exponent. Sscanf reads its first digit, a number from 1 to 9, as if
-- that were the whole, and ParseUint refuses it.
pub sscanf_uint-sprint_float_large :
    (n : ℕ)
    → 10 ^ 6 ≤ n
    → n < 2 ^ 53
    → (d : ℕ) × (1 ≤ d)
      × (d ≤ 9)
      × (sscanf_uint (sprint_float n) ≡ some d)
      × (parse_uint (sprint_float n) ≡ none)
unfolding sprint_float
sscanf_uint-sprint_float_large n low high = rw (sprint_codes_large n low) (
    spell-ReadsDigit (scientific (decimal n))
      (scientific-IsBroken (decimal n) (decimal-Starts n (omega arith) (omega arith))))
