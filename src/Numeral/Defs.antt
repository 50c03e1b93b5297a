-- ===== src/Numeral/Defs.antt =====
-- Texts are walked as lists of code points.
use Prim.Native.Char.{Char, code}
use helpdesk_microservices.Base.{
  ℕ, zero, suc, ◌+◌, ◌-◌, ◌*◌, ◌/◌, ◌%◌, ◌^◌, ltb, leb, ◌==◌, Bool, true, false, ◌&&◌, ◌||◌, Option,
  none, some, String, List, [], ◌∷◌, ◌++◌, if◌then◌else◌, ℤ, pos, negsuc, length,
}

abbrev pub codes : String → List ℕ
codes String.[] = []
codes (String.◌∷◌ c s) = code c ∷ codes s

unfoldable pub is_digit : ℕ → Bool
is_digit c = leb b'0' c && leb c b'9'

-- The spaces of package fmt.
unfoldable pub is_space : ℕ → Bool
is_space c =
    leb 0x9 c && leb c 0xd
    || c == 0x20
    || c == 0x85
    || c == 0xa0
    || c == 0x1680
    || leb 0x2000 c && leb c 0x200a
    || leb 0x2028 c && leb c 0x2029
    || c == 0x202f
    || c == 0x205f
    || c == 0x3000

-- `SkipSpace` of a scan in which a newline is no space: `none` is its "unexpected newline".
unfoldable pub skip_space : List ℕ → Option (List ℕ)
unfolding is_space
skip_space [] = some []
skip_space (c ∷ s) =
    let rest = skip_space s in if c == 0xa then none else if is_space c then rest else some (c ∷ s)

-- The longest prefix of decimal digits.
unfoldable pub digit_prefix : List ℕ → List ℕ
unfolding is_digit
digit_prefix [] = []
digit_prefix (c ∷ s) = if is_digit c then c ∷ digit_prefix s else []

unfoldable pub all_digits : List ℕ → Bool
unfolding is_digit
all_digits [] = true
all_digits (c ∷ s) = is_digit c && all_digits s

unfoldable pub number_from : ℕ → List ℕ → ℕ
number_from n [] = n
number_from n (c ∷ s) = number_from (n * 10 + (c - b'0')) s

-- The digits as an unsigned 64-bit number, `none` for no digits or too large a number.
unfoldable pub to_uint64 : List ℕ → Option ℕ
unfolding number_from
to_uint64 [] = none
to_uint64 (c ∷ s) = let n = number_from 0 (c ∷ s) in if ltb n (2 ^ 64) then some n else none

-- `fmt.Sscanf(s, "%d", &x)` for a `uint` x: digits after spaces, and whatever follows is ignored.
unfoldable pub scan_codes : List ℕ → Option ℕ
unfolding skip_space digit_prefix to_uint64
scan_codes s = elim (skip_space s) [ none ↦ none | some rest ↦ to_uint64 (digit_prefix rest) ]

unfoldable pub sscanf_uint : String → Option ℕ
unfolding scan_codes
sscanf_uint s = scan_codes (codes s)

-- A magnitude as an `int`.
abbrev to_int64 : Bool → List ℕ → Option ℤ
to_int64 minus [] = none
to_int64 minus (c ∷ s) =
    let n = number_from 0 (c ∷ s) in
    if minus
    then (if n == 0 then some (pos 0) else if leb n (2 ^ 63) then some (negsuc (n - 1)) else none)
    else if ltb n (2 ^ 63)
    then some (pos n)
    else none

abbrev signed : List ℕ → Option ℤ
signed [] = none
signed (c ∷ s) =
    if c == b'-'
    then to_int64 true (digit_prefix s)
    else if c == b'+'
    then to_int64 false (digit_prefix s)
    else to_int64 false (digit_prefix (c ∷ s))

-- What follows a sign.
abbrev unsigned : List ℕ → List ℕ
unsigned [] = []
unsigned (c ∷ s) = if c == b'-' || c == b'+' then s else c ∷ s

-- The same for an `int` x.
unfoldable pub sscanf_int : String → Option ℤ
unfolding skip_space digit_prefix number_from
sscanf_int s = elim (skip_space (codes s)) [ none ↦ none | some rest ↦ signed rest ]

-- `strconv.ParseUint(s, 10, 0)`: digits and nothing else.
unfoldable pub parse_uint : String → Option ℕ
unfolding all_digits to_uint64
parse_uint s = if all_digits (codes s) then to_uint64 (codes s) else none

-- `strconv.Atoi`: a sign or none, and digits and nothing else.
unfoldable pub atoi : String → Option ℤ
unfolding all_digits number_from digit_prefix
atoi s = if all_digits (unsigned (codes s)) then signed (codes s) else none

-- The decimal digits of a number below 10 ^ fuel, the highest first, in front of `acc`.
unfoldable pub digits_to : ℕ → ℕ → List ℕ → List ℕ
digits_to zero n acc = acc
digits_to (suc fuel) n acc =
    let rest = digits_to fuel (n / 10) ((b'0' + n % 10) ∷ acc) in
    if ltb n 10 then (b'0' + n) ∷ acc else rest

unfoldable pub decimal : ℕ → List ℕ
unfolding digits_to
decimal n = digits_to 20 n []

-- Trailing zeros are dropped.
unfoldable pub strip_zeros : List ℕ → List ℕ
strip_zeros [] = []
strip_zeros (c ∷ s) =
    let rest = strip_zeros s in
    elim rest [ [] ↦ if c == b'0' then [] else c ∷ [] | x ∷ xs ↦ c ∷ x ∷ xs ]

-- d.ddde+XX with as few digits as identify the number.
unfoldable pub scientific : List ℕ → List ℕ
unfolding strip_zeros digits_to
scientific [] = []
scientific (d ∷ ds) =
    let fraction = strip_zeros ds in
    let exponent = length ds in
    let tail : List ℕ = b'e' ∷ b'+' ∷ (b'0' + exponent / 10) ∷ (b'0' + exponent % 10) ∷ [] in
    d ∷ (elim fraction [ [] ↦ tail | x ∷ xs ↦ b'.' ∷ (x ∷ xs ++ tail) ])

-- `%v` of a `float64` that is a whole number n below 2 ^ 53: `%g` with the shortest digits, which
-- goes over to an exponent from 10 ^ 6 on (the test is on that number in strconv).
unfoldable pub sprint_codes : ℕ → List ℕ
unfolding decimal scientific
sprint_codes n = if ltb n (10 ^ 6) then decimal n else scientific (decimal n)

-- The characters that such a text is made of.
unfoldable pub char_of : ℕ → Char
char_of c =
    if c == b'0'
    then "0"
    else if c == b'1'
    then "1"
    else if c == b'2'
    then "2"
    else if c == b'3'
    then "3"
    else if c == b'4'
    then "4"
    else if c == b'5'
    then "5"
    else if c == b'6'
    then "6"
    else if c == b'7'
    then "7"
    else if c == b'8'
    then "8"
    else if c == b'9'
    then "9"
    else if c == b'.'
    then "."
    else if c == b'e'
    then "e"
    else "+"

unfoldable pub spell : List ℕ → String
unfolding char_of
spell [] = String.[]
spell (c ∷ s) = String.◌∷◌ (char_of c) (spell s)

unfoldable pub sprint_float : ℕ → String
unfolding sprint_codes spell
sprint_float n = spell (sprint_codes n)
