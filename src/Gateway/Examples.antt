-- ===== src/Gateway/Examples.antt =====
-- Requests at the gateway, on which the theorems on it are run.
use helpdesk_microservices.Base.{
  ℕ, ◌*◌, ◌≤◌, ◌≡◌, ◌≢◌, ◌⊎◌, refl, inl, inr, Bool, true, false, Option, none, some, String, List,
  [], ◌∷◌, find_by, Result, ok, ◌=s=◌, eq_iff, arith,
}
use helpdesk_microservices.Http.{Headers, Refusal}
use helpdesk_microservices.Jwt.{Jwt}
use helpdesk_microservices.Jwt.Sample.{sample_jwt, claims_of}
use helpdesk_microservices.Numeral.{parse_uint, sprint_float}
use helpdesk_microservices.Tickets.Handler.{require_user}
use helpdesk_microservices.Gateway.Middleware.{
  bearer_token, auth_middleware, request_id_middleware, internal_secret_middleware,
  rate_limit_middleware,
}
use helpdesk_microservices.Gateway.Routes.{
  Upstream, Request, dispatch, upstream_path, remove_listed, handle,
}
use helpdesk_microservices.Gateway.Identity.{Identified, handle-Identified}
use helpdesk_microservices.Gateway.Connection.{Sent}
use helpdesk_microservices.Gateway.Protection.{IsPublic}
use helpdesk_microservices.Gateway.Caller.{
  identified, auth_middleware-require_user, auth_middleware-misread,
}
use helpdesk_microservices.Gateway.Breaker.{BreakerError, Tally, Breaker, tally, passed_on}
use helpdesk_microservices.Gateway.RateLimiter.{Visitors, one_token, visit, evict}
use helpdesk_microservices.Gateway.Buckets.{credit, passed, passed_le}
use helpdesk_microservices.Gateway.RedisLimiter.{token_bucket_script, ttl_ms}
use helpdesk_microservices.Gateway.Forgetting.{
  as_visitor, visit-evict, Keeps, token_bucket_script-Keeps,
}

-- Tokens of the agent 3, and of a user with a number of seven digits.
abbrev jwt : Jwt
jwt = sample_jwt 3 "agent" 7230 604830

abbrev large_jwt : Jwt
large_jwt = sample_jwt 1234567 "user" 7230 604830

abbrev bearing : String → Headers
bearing token = record {
  authorization = token;
  request_id = "r1";
  internal_secret = "";
  user_id = "1";
  user_role = "admin";
}

abbrev lists_tickets : Request
lists_tickets = record {
  method = "GET";
  path = "/tickets";
  client_ip = "10.0.0.1";
  origin = "";
  connection = "X-User-Role" ∷ [];
  headers = bearing "Bearer access";
}

abbrev no_cors : (method origin : String) → Result Refusal (Unit {0})
no_cors method origin = ok tt

abbrev no_limit : Unit {0} → ℕ → String → Bool × Unit {0}
no_limit limiter now key = (true, tt)

abbrev handed_on : Headers
handed_on = record {
  authorization = "Bearer access";
  request_id = "r1";
  internal_secret = "inside";
  user_id = "3";
  user_role = "";
}

handle-Identified_example :
    Sent ("X-User-Role" ∷ []) "X-Internal-Secret" "inside" handed_on.internal_secret
    × (IsPublic "/tickets"
        ⊎ Identified jwt "secret" 30 "Bearer access" ("X-User-Role" ∷ []) handed_on)
unfolding handle request_id_middleware internal_secret_middleware rate_limit_middleware dispatch
    upstream_path remove_listed auth_middleware sample_jwt sprint_float find_by
handle-Identified_example =
    handle-Identified jwt "secret" "inside" no_cors no_limit tt 30 "" lists_tickets
      Upstream.ticket_service "/tickets" handed_on refl

some_text : (text : String) → (text =s= "") ≡ false → text ≢ ""
some_text text h same = let test = (eq_iff text "").1 same in cc

auth_middleware-require_user_example :
    (auth_middleware jwt "secret" 30 (bearing "Bearer access")
      ≡ ok (identified (bearing "Bearer access") 3 "agent"))
    × (require_user (identified (bearing "Bearer access") 3 "agent") ≡ ok (3, "agent"))
    × (parse_uint (identified (bearing "Bearer access") 3 "agent").user_id ≡ some 3)
unfolding sample_jwt bearer_token
auth_middleware-require_user_example =
    auth_middleware-require_user jwt "secret" 30 (bearing "Bearer access")
      (claims_of 3 "agent" 7230 604830 "access") 3 "agent" (some_text "Bearer access" refl)
      (refl, refl, refl) (omega arith) refl refl (inr (inl refl)) (λ e. (omega arith)) (omega arith)

auth_middleware-misread_example :
    (d : ℕ) × (d ≤ 9)
    × (auth_middleware large_jwt "secret" 30 (bearing "Bearer access")
        ≡ ok (identified (bearing "Bearer access") 1234567 "user"))
    × (require_user (identified (bearing "Bearer access") 1234567 "user") ≡ ok (d, "user"))
    × (parse_uint (identified (bearing "Bearer access") 1234567 "user").user_id ≡ none)
unfolding sample_jwt bearer_token
auth_middleware-misread_example =
    auth_middleware-misread large_jwt "secret" 30 (bearing "Bearer access")
      (claims_of 1234567 "user" 7230 604830 "access") 1234567 "user"
      (some_text "Bearer access" refl) (refl, refl, refl) (omega arith) refl refl (inl refl)
      (omega arith) (omega arith)

none_held : (e : BreakerError) → ◌≡◌ {A = Option BreakerError} none (some e) → ⊥
none_held e h = cc

-- A breaker that counts its calls and lets them all through.
abbrev counter : Breaker (List Tally)
counter = record {
  admits = λ s. none;
  settle = λ s t. t ∷ s;
  execute = λ is_excluded s call. (passed_on call, tally is_excluded call ∷ s);
  execute_refused = λ is_excluded s call e h. absurd (none_held e h);
  execute_admitted = λ is_excluded s call h. refl;
}

abbrev nobody : Visitors
nobody key = none

abbrev burst_of_three : List (ℕ × String)
burst_of_three = (5, "10.0.0.1") ∷ (5, "10.0.0.2") ∷ (6, "10.0.0.1") ∷ (7, "10.0.0.1") ∷ []

passed_le_example : passed 1 2 "10.0.0.1" nobody burst_of_three * one_token ≤ credit 1 2 none 0 10
passed_le_example = passed_le 1 2 "10.0.0.1" 0 10 nobody burst_of_three (omega arith) tt (
  omega arith,
  omega arith,
  (omega arith, omega arith, (omega arith, omega arith, (omega arith, omega arith, omega arith))),
)

abbrev seen_at_start : Visitors
seen_at_start key = some (record { tokens = 0; last_seen = 0 })

visit-evict_example :
    visit 1 2 (evict 1 seen_at_start "10.0.0.1") 180000000001
    ≡ visit 1 2 (seen_at_start "10.0.0.1") 180000000001
visit-evict_example =
    visit-evict 1 2 seen_at_start 1 180000000001 "10.0.0.1" (omega arith) (omega arith)
      (omega arith)

token_bucket_script-Keeps_example :
    ((token_bucket_script 1 2 9000 none).0
      ≡ (visit 1 2 (some (as_visitor 1 2 (record { tokens = 0; ts = 100 }))) (9000 * 1000000)).0)
    × (as_visitor 1 2 (token_bucket_script 1 2 9000 none).1
        ≡ (visit 1 2 (some (as_visitor 1 2 (record { tokens = 0; ts = 100 }))) (9000 * 1000000)).1)
unfolding ttl_ms
token_bucket_script-Keeps_example =
    token_bucket_script-Keeps 1 2 9000 (some (record { tokens = 0; ts = 100 })) none (omega arith)
      (omega arith) (Keeps.expired _ (omega arith))
