-- ===== src/Auth/Bearer.antt =====
-- The tokens of a login at the gateway: both identify the user, each until it expires.
use helpdesk_microservices.Base.{ℕ, ◌+◌, ◌<◌, ◌^◌, ◌≡◌, ◌≢◌, refl, sym, subst, some, String, ok}
use helpdesk_microservices.Http.{Headers}
use helpdesk_microservices.Jwt.{SigningMethod, Jwt}
use helpdesk_microservices.Gateway.Middleware.{bearer_token, auth_middleware}
use helpdesk_microservices.Gateway.Caller.{IsRole, identified, auth_middleware-require_user}
use helpdesk_microservices.Tickets.Handler.{require_user}
use helpdesk_microservices.Auth.Tokens.{
  Signature, sign_tokens, access_claims, refresh_claims, access_token_ttl, refresh_token_ttl,
}
use helpdesk_microservices.Auth.Refresh.{sign_tokens-SignedPair}

module _ (jwt : Jwt) (secret jti role : String) (issued now user : ℕ) (s : Signature)
    (h : Headers) where
  -- For two hours after they are signed, the gateway lets a request with the access token of
  -- the pair through, and the ticket service takes its caller to be the user and the role that
  -- signed in, for a user's number from 1 to 999999 and one of the three roles.
  pub sign_tokens-access :
      sign_tokens jwt secret issued jti user role ≡ some s
      → IsRole role
      → user ≢ 0
      → user < 10 ^ 6
      → h.authorization ≢ ""
      → bearer_token h.authorization ≡ s.access
      → now < issued + access_token_ttl
      → (auth_middleware jwt secret now h ≡ ok (identified h user role))
        × (require_user (identified h user role) ≡ ok (user, role))
  sign_tokens-access signed known positive small given bearer live =
      let pair = sign_tokens-SignedPair jwt secret issued jti user role s signed in
      let (passes, seen, _) =
        auth_middleware-require_user jwt secret now h (access_claims user role issued) user role
          given
          (subst (jwt.Signed SigningMethod.hmac secret (access_claims user role issued))
            (sym bearer) pair.access_signed)
          live refl refl known positive small in
      (passes, seen)

  -- The gateway does not tell the tokens of a login apart: for seven days the refresh token
  -- does what the access token does, whatever has become of its session since. The user's
  -- number is from 1 to 999999 and the role one of the three.
  pub sign_tokens-refresh :
      sign_tokens jwt secret issued jti user role ≡ some s
      → IsRole role
      → user ≢ 0
      → user < 10 ^ 6
      → h.authorization ≢ ""
      → bearer_token h.authorization ≡ s.refresh
      → now < issued + refresh_token_ttl
      → (auth_middleware jwt secret now h ≡ ok (identified h user role))
        × (require_user (identified h user role) ≡ ok (user, role))
  sign_tokens-refresh signed known positive small given bearer live =
      let pair = sign_tokens-SignedPair jwt secret issued jti user role s signed in
      let (passes, seen, _) =
        auth_middleware-require_user jwt secret now h (refresh_claims user role issued jti) user
          role given
          (subst (jwt.Signed SigningMethod.hmac secret (refresh_claims user role issued jti))
            (sym bearer) pair.refresh_signed)
          live refl refl known positive small in
      (passes, seen)
