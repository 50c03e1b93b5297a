-- ===== src/Gateway/Middleware.antt =====
-- middleware.go and authMiddleware of main.go. A middleware that aborts is a refusal; one that goes on
-- hands on the headers of the request.
use Prim.Native.String.{len, slice}
use helpdesk_microservices.Base.{
  ℕ, ltb, ◌=s=◌, Bool, not, ◌&&◌, String, Result, ok, ◌>>=◌, ◌>>◌, guard, if◌then◌else◌,
}
use helpdesk_microservices.Http.{Headers, Refusal, refusal, or_refuse}
use helpdesk_microservices.Jwt.{Jwt, hmac_only, present, sprint}

-- `generated` is the id made for a request without one.
unfoldable pub request_id_middleware : (generated : String) → Headers → Headers
request_id_middleware generated h = record h {
  request_id = if h.request_id =s= "" then generated else h.request_id;
}

unfoldable pub internal_secret_middleware : (secret : String) → Headers → Headers
internal_secret_middleware secret h = record h { internal_secret = secret }

-- The limiter's answer decides.
unfoldable pub rate_limit_middleware : (allowed : Bool) → Result Refusal (Unit {0})
rate_limit_middleware allowed = guard allowed (refusal 429 "too many requests" "RATE_LIMITED")

abbrev pub unauthorized : String → Refusal
unauthorized message = refusal 401 message "UNAUTHORIZED"

-- The text after "Bearer ", or all of it.
unfoldable pub bearer_token : String → String
bearer_token header =
    if ltb 7 (len header) && slice header 0 7 =s= "Bearer "
    then slice header 7 (len header)
    else header

module _ (jwt : Jwt) where
  unfoldable pub auth_middleware : (secret : String) → (now : ℕ) → Headers → Result Refusal Headers
  unfolding bearer_token
  auth_middleware secret now h = do
    guard (not (h.authorization =s= "")) (unauthorized "missing token")
    claims ←
        or_refuse (jwt.parse (hmac_only secret) now (bearer_token h.authorization))
          (unauthorized "invalid token")
    user ← or_refuse (present claims.user_id) (unauthorized "invalid token claims")
    role ← or_refuse (present claims.role) (unauthorized "invalid token claims")
    guard (not (sprint user =s= "") && not (sprint role =s= ""))
        (unauthorized "invalid token claims")
    ok (record h { user_id = sprint user; user_role = sprint role })
