-- ===== src/Config/Parse.antt =====
-- The helpers of config.go. A floating-point number and its text are package strconv's, a duration and its
-- text package time's; durations are nanoseconds.
use helpdesk_microservices.Base.{
  ℕ, ◌*◌, ◌^◌, ltb, ◌=s=◌, Bool, Option, none, some, String, List, [], ◌∷◌, if◌then◌else◌, ℤ, pos,
  negsuc,
}
use helpdesk_microservices.Numeral.{atoi}
use helpdesk_microservices.Text.{split_at, trim_space, trimmed_parts}

-- `at_most_zero` is the comparison `v <= 0`.
pub record Formats : Type 1 where
  pub Float : Type 0
  pub whole : ℕ → Float
  pub parse_float : String → Option Float
  pub at_most_zero : Float → Bool
  pub parse_duration : String → Option ℤ

abbrev pub positive_else : (default : ℕ) → Option ℤ → ℕ
positive_else default none = default
positive_else default (some (pos n)) = if ltb 0 n then n else default
positive_else default (some (negsuc n)) = default

unfoldable pub parse_int_or_default : (raw : String) → (default : ℕ) → ℕ
unfolding atoi
parse_int_or_default raw default = if raw =s= "" then default else positive_else default (atoi raw)

module _ (f : Formats) where
  unfoldable pub parse_float_or_default : (raw : String) → (default : f.Float) → f.Float
  parse_float_or_default raw default = if raw =s= "" then default else (elim (f.parse_float raw) [
    | none ↦ default
    | some v ↦ if f.at_most_zero v then default else v
  ])

  unfoldable pub parse_duration_or_default : (raw : String) → (default : ℕ) → ℕ
  parse_duration_or_default raw default =
      if raw =s= "" then default else positive_else default (f.parse_duration raw)

-- All origins where none is set.
unfoldable pub parse_origins : String → List String
unfolding trim_space split_at trimmed_parts
parse_origins raw = if trim_space raw =s= "" then "*" ∷ [] else trimmed_parts (split_at b',' raw)

unfoldable pub split_csv : String → List String
unfolding split_at trimmed_parts
split_csv raw = trimmed_parts (split_at b',' raw)

unfoldable pub queue_type_or_default : String → String
queue_type_or_default raw = if raw =s= "" then "classic" else raw

abbrev pub default_max_open : ℕ
default_max_open = 20

abbrev pub default_max_idle : ℕ
default_max_idle = 5

-- Thirty minutes.
abbrev pub default_lifetime : ℕ
default_lifetime = 30 * 60 * 10 ^ 9
