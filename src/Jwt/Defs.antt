-- ===== src/Jwt/Defs.antt =====
-- What the services use of golang-jwt: a parser that checks the signature and the expiry, and a signer.
-- The library is an argument of what uses it; its documented behaviour is the laws.
use helpdesk_microservices.Base.{ℕ, ◌<◌, ◌≡◌, Option, none, some, String}
use helpdesk_microservices.Numeral.{sprint_float}

-- A claim's value as JSON decodes it: every number is a float64. `printed` is what `%v` makes of a
-- Boolean, a list or an object.
pub data Claim : Type 0 where
  text : String → Claim
  number : ℕ → Claim
  other : (printed : String) → Claim
  null : Claim

-- The claims that the services write and read.
pub record Claims : Type 0 where
  pub user_id : Option Claim
  pub role : Option Claim
  pub exp : Option ℕ
  pub jti : Option String

pub data SigningMethod : Type 0 where
  hmac other_method : SigningMethod

-- A token without `exp` does not expire.
abbrev pub Unexpired : ℕ → Claims → Type 0
Unexpired now c = elim c.exp [ none ↦ Unit {0} | some exp ↦ now < exp ]

pub record Jwt : Type 1 where
  pub Signed : SigningMethod → (key : String) → Claims → (token : String) → Type 0
  pub parse :
      (keyfunc : SigningMethod → Option String) → (now : ℕ) → (token : String) → Option Claims
  pub sign : (key : String) → Claims → Option String
  pub parse_sound :
      (keyfunc : SigningMethod → Option String) (now : ℕ) (token : String) (c : Claims)
      → parse keyfunc now token ≡ some c
      → (m : SigningMethod) × (key : String) × (keyfunc m ≡ some key)
        × Signed m key c token
        × Unexpired now c
  pub parse_complete :
      (keyfunc : SigningMethod → Option String) (now : ℕ) (token : String) (c : Claims)
      (m : SigningMethod) (key : String)
      → keyfunc m ≡ some key
      → Signed m key c token
      → Unexpired now c
      → parse keyfunc now token ≡ some c
  pub sign_signed :
      (key : String) (c : Claims) (token : String)
      → sign key c ≡ some token
      → Signed SigningMethod.hmac key c token

-- The key function of every service: only HMAC.
abbrev pub hmac_only : (secret : String) → SigningMethod → Option String
hmac_only secret SigningMethod.hmac = some secret
hmac_only secret SigningMethod.other_method = none

-- A claim that is missing or null is absent.
abbrev pub present : Option Claim → Option Claim
present none = none
present (some Claim.null) = none
present (some c) = some c

-- `fmt.Sprintf("%v", claim)`
abbrev pub sprint : Claim → String
sprint (Claim.text s) = s
sprint (Claim.number n) = sprint_float n
sprint (Claim.other printed) = printed
sprint Claim.null = "<nil>"
