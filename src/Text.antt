-- ===== src/Text.antt =====
-- What the services use of package strings: splitting at a character, and trimming of white space.
use text.Mathlib.TextPositions.{len-append, slice-append_right}
use text.Mathlib.TextEquality.{slice-prefix}
use Prim.Native.Char.{Char, code}
use Prim.Native.String.append
use Prim.Native.String.{len, slice, ◌++◌}
use helpdesk_microservices.Base.{
  ℕ, ◌==◌, ◌=s=◌, ◌≡◌, refl, sym, ap, subst, ◌∙◌, String, List, [], ◌∷◌, inl, inr, Bool-cases,
  if◌then◌else◌, arith,
}
use mathlib.Core.List.{◌++◌ as ◌++ᴸ◌}
use helpdesk_microservices.Numeral.{is_space}

abbrev pub before_first : Char → List String → List String
before_first c [] = String.◌∷◌ c String.[] ∷ []
before_first c (p ∷ ps) = String.◌∷◌ c p ∷ ps

-- `strings.Split` at one character: one part more than there are separators.
unfoldable pub split_at : (separator : ℕ) → String → List String
split_at separator String.[] = String.[] ∷ []
split_at separator (String.◌∷◌ c s) =
    let rest = split_at separator s in
    if code c == separator then String.[] ∷ rest else before_first c rest

unfoldable pub trim_left : String → String
unfolding is_space
trim_left String.[] = String.[]
trim_left (String.◌∷◌ c s) = if is_space (code c) then trim_left s else String.◌∷◌ c s

abbrev after_blank : Char → String → String
after_blank c String.[] = if is_space (code c) then String.[] else String.◌∷◌ c String.[]
after_blank c (String.◌∷◌ d s) = String.◌∷◌ c (String.◌∷◌ d s)

unfoldable pub trim_right : String → String
unfolding is_space
trim_right String.[] = String.[]
trim_right (String.◌∷◌ c s) = after_blank c (trim_right s)

-- `strings.TrimSpace`
unfoldable pub trim_space : String → String
unfolding trim_left trim_right
trim_space s = trim_left (trim_right s)

-- The parts between commas, trimmed, less those that are blank.
unfoldable pub trimmed_parts : List String → List String
unfolding trim_space
trimmed_parts [] = []
trimmed_parts (p ∷ ps) =
    if trim_space p =s= "" then trimmed_parts ps else trim_space p ∷ trimmed_parts ps

-- There is always a first part.
split_at-cons :
    (separator : ℕ) (s : String)
    → (p : String) × (ps : List String) × (split_at separator s ≡ p ∷ ps)
unfolding split_at
split_at-cons separator String.[] = (String.[], [], refl)
split_at-cons separator (String.◌∷◌ c s) =
    let (p, ps, e) = split_at-cons separator s in
    elim (Bool-cases (code c == separator)) [
      | inl q ↦ (String.[], split_at separator s, rw (q, split_at) refl)
      | inr q ↦ (String.◌∷◌ c p, ps, rw (q, split_at) (ap (before_first c) e))
    ]

before_first-append :
    (separator : ℕ) (c : Char) (s : String) (qs : List String)
    → before_first c (split_at separator s ++ᴸ qs) ≡ before_first c (split_at separator s) ++ᴸ qs
before_first-append separator c s qs =
    let (p, ps, e) = split_at-cons separator s in
    subst (λ l. before_first c (l ++ᴸ qs) ≡ before_first c l ++ᴸ qs) (sym e) refl

-- A separator between two texts splits them.
pub split_at-append :
    (separator : ℕ) (a b : String) (c : Char)
    → code c ≡ separator
    → split_at separator (a ++ String.◌∷◌ c b) ≡ split_at separator a ++ᴸ split_at separator b
unfolding split_at
split_at-append separator String.[] b c h =
    ap (split_at separator) (append.nil (String.◌∷◌ c b)) ∙ ground arith
split_at-append separator (String.◌∷◌ d a) b c h =
    let rest = split_at-append separator a b c h in
    ap (split_at separator) (append.cons d a (String.◌∷◌ c b))
    ∙ elim (Bool-cases (code d == separator)) [
      | inl q ↦ rw (q, split_at) (ap (λ l. String.[] ∷ l) rest)
      | inr q ↦
          rw (q, split_at)
            (ap (before_first d) rest ∙ before_first-append separator d a (split_at separator b))
    ]

-- A header that starts with "Bearer " is that and the rest of it.
pub token-after :
    (header : String)
    → slice header 0 7 ≡ "Bearer "
    → header ≡ "Bearer " ++ slice header 7 (len header)
token-after header starts =
    let (rest, split) = slice-prefix header 7 in
    let whole : "Bearer " ++ rest ≡ header = subst (λ s. s ++ rest ≡ header) starts split in
    let measured : slice ("Bearer " ++ rest) 7 (len ("Bearer " ++ rest)) ≡ rest =
      rw (len-append "Bearer " rest) (slice-append_right "Bearer " rest) in
    sym whole
    ∙ ap (λ s. "Bearer " ++ s) (sym (subst (λ h. slice h 7 (len h) ≡ rest) whole measured))
