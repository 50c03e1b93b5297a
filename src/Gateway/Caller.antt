-- ===== src/Gateway/Caller.antt =====
-- Who the services take the caller of a forwarded request to be: authMiddleware in front of requireUser
-- of ticket-service and of the ParseUint of auth-service.
use helpdesk_microservices.Base.{
  ℕ, ◌≤◌, ◌<◌, ◌^◌, ◌≡◌, ◌≢◌, ◌⊎◌, refl, ◌∙◌, inl, inr, true, false, ◌||◌, none, some, String, ok,
  ◌>>=◌, ◌=s=◌, ◌==◌, =s=_false, arith,
}
use helpdesk_microservices.Http.{Headers, Refusal, refusal}
use helpdesk_microservices.Numeral.{sscanf_uint, parse_uint, sprint_float}
use helpdesk_microservices.Numeral.RoundTrip.{
  sscanf_uint-sprint_float, sscanf_uint-sprint_float_large,
}
use helpdesk_microservices.Jwt.{Claim, Claims, SigningMethod, Unexpired, Jwt, hmac_only}
use helpdesk_microservices.Gateway.Middleware.{bearer_token, auth_middleware}
use helpdesk_microservices.Tickets.Handler.{require_user, scan_id}

-- The roles that the services know.
abbrev pub IsRole : String → Type 0
IsRole role = (role ≡ "user") ⊎ (role ≡ "agent") ⊎ (role ≡ "admin")

-- The headers that the middleware makes of a token's two claims.
abbrev pub identified : Headers → ℕ → String → Headers
identified h n role = record h { user_id = sprint_float n; user_role = role }

not_empty : (text : String) (n : ℕ) → sscanf_uint text ≡ some n → (text =s= "") ≡ false
unfolding sscanf_uint
not_empty text n h = =s=_false text "" λ e. let impossible = rw e at h in cc

IsRole-not_empty : (role : String) → IsRole role → (role =s= "") ≡ false
IsRole-not_empty role (inl e) = rw e refl
IsRole-not_empty role (inr (inl e)) = rw e refl
IsRole-not_empty role (inr (inr e)) = rw e refl

IsRole-tests :
    (role : String) → IsRole role → (role =s= "user" || role =s= "agent" || role =s= "admin") ≡ true
IsRole-tests role (inl e) = rw e refl
IsRole-tests role (inr (inl e)) = rw e refl
IsRole-tests role (inr (inr e)) = rw e refl

scanned :
    (text : String) (r : Refusal) (d : ℕ)
    → sscanf_uint text ≡ some d
    → d ≢ 0
    → scan_id text r ≡ ok d
unfolding scan_id
scanned text r d read positive =
    let nonzero : (d == 0) ≡ false = ground arith in rw (read, nonzero, scan_id) refl

module _ (jwt : Jwt) where
  lets_through :
      (secret : String) (now : ℕ) (h : Headers) (c : Claims) (n d : ℕ) (role : String)
      → h.authorization ≢ ""
      → jwt.Signed SigningMethod.hmac secret c (bearer_token h.authorization)
      → Unexpired now c
      → c.user_id ≡ some (Claim.number n)
      → c.role ≡ some (Claim.text role)
      → IsRole role
      → sscanf_uint (sprint_float n) ≡ some d
      → auth_middleware jwt secret now h ≡ ok (identified h n role)
  unfolding auth_middleware
  lets_through secret now h c n d role given signed unexpired user_is role_is known read =
      let parsed =
        jwt.parse_complete (hmac_only secret) now _ c SigningMethod.hmac secret refl signed
          unexpired in
      rw
        (
          =s=_false h.authorization "" given,
          parsed,
          user_is,
          role_is,
          not_empty _ d read,
          IsRole-not_empty role known,
        )
        refl

  taken_as :
      (h : Headers) (n d : ℕ) (role : String)
      → IsRole role
      → sscanf_uint (sprint_float n) ≡ some d
      → d ≢ 0
      → require_user (identified h n role) ≡ ok (d, role)
  unfolding require_user
  taken_as h n d role known read positive =
      let bad_id = refusal 400 "invalid user id" "BAD_REQUEST" in
      let roles : require_user (identified h n role)
          ≡ (scan_id (sprint_float n) bad_id >>= λ user. ok (user, role)) =
        rw (not_empty (sprint_float n) d read, IsRole-tests role known) refl in
      roles ∙ rw (scanned (sprint_float n) bad_id d read positive) refl

  -- A request with an unexpired token for the user n and one of the three roles passes the
  -- gateway's authentication, and where n is from 1 to 999999 the services see n and that role.
  pub auth_middleware-require_user :
      (secret : String) (now : ℕ) (h : Headers) (c : Claims) (n : ℕ) (role : String)
      → h.authorization ≢ ""
      → jwt.Signed SigningMethod.hmac secret c (bearer_token h.authorization)
      → Unexpired now c
      → c.user_id ≡ some (Claim.number n)
      → c.role ≡ some (Claim.text role)
      → IsRole role
      → n ≢ 0
      → n < 10 ^ 6
      → (auth_middleware jwt secret now h ≡ ok (identified h n role))
        × (require_user (identified h n role) ≡ ok (n, role))
        × (parse_uint (identified h n role).user_id ≡ some n)
  auth_middleware-require_user secret now h c n role given signed unexpired user_is role_is known
        positive small =
      let (read, parsed) = sscanf_uint-sprint_float n small in
      (
        lets_through secret now h c n n role given signed unexpired user_is role_is known read,
        taken_as h n n role known read positive,
        parsed,
      )

  -- Where n is 1000000 or more, and below 2 ^ 53, the token passes as well, but ticket-service
  -- takes the caller to be one of the users up to 9, and auth-service reads no user at all.
  pub auth_middleware-misread :
      (secret : String) (now : ℕ) (h : Headers) (c : Claims) (n : ℕ) (role : String)
      → h.authorization ≢ ""
      → jwt.Signed SigningMethod.hmac secret c (bearer_token h.authorization)
      → Unexpired now c
      → c.user_id ≡ some (Claim.number n)
      → c.role ≡ some (Claim.text role)
      → IsRole role
      → 10 ^ 6 ≤ n
      → n < 2 ^ 53
      → (d : ℕ) × (d ≤ 9)
        × (auth_middleware jwt secret now h ≡ ok (identified h n role))
        × (require_user (identified h n role) ≡ ok (d, role))
        × (parse_uint (identified h n role).user_id ≡ none)
  auth_middleware-misread secret now h c n role given signed unexpired user_is role_is known low
        high =
      let (d, positive, digit, read, parsed) = sscanf_uint-sprint_float_large n low high in
      (
        d,
        digit,
        lets_through secret now h c n d role given signed unexpired user_is role_is known read,
        taken_as h n d role known read (omega arith),
        parsed,
      )
