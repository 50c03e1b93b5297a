-- ===== src/Gateway/Routes.antt =====
-- The routes of main.go and the proxies. Gin's router and gin-contrib/cors are outside: the router picks
-- the route that matches, `cors` answers a request by its method and its Origin header.
use Prim.Native.String.{len, slice}
use helpdesk_microservices.Base.{
  ℕ, ◌=s=◌, Bool, true, false, ◌&&◌, ◌||◌, Option, String, List, [], ◌∷◌, find_by, Result, ok,
  ◌>>=◌, ◌>>◌, if◌then◌else◌,
}
use helpdesk_microservices.Http.{Headers, Refusal, refusal, or_refuse}
use helpdesk_microservices.Jwt.{Jwt}
use helpdesk_microservices.Gateway.Middleware.{
  request_id_middleware, internal_secret_middleware, rate_limit_middleware, auth_middleware,
}

pub data Upstream : Type 0 where
  auth_service ticket_service : Upstream

-- `any` is `r.Any`; `below` is a path that ends in `/*path`; `trim` is the prefix that proxyTrim takes
-- off; a protected route runs authMiddleware first.
pub record Route : Type 0 where
  pub method : String
  pub any : Bool
  pub path : String
  pub below : Bool
  pub protected : Bool
  pub trim : String
  pub upstream : Upstream

abbrev public_auth : String → Route
public_auth path = record {
  method = "";
  any = true;
  path = path;
  below = false;
  protected = false;
  trim = "/auth";
  upstream = Upstream.auth_service;
}

abbrev protected_auth : (method path : String) → Route
protected_auth method path = record {
  method = method;
  any = false;
  path = path;
  below = false;
  protected = true;
  trim = "/auth";
  upstream = Upstream.auth_service;
}

abbrev report : String → Route
report path = record {
  method = "GET";
  any = false;
  path = path;
  below = false;
  protected = true;
  trim = "";
  upstream = Upstream.ticket_service;
}

abbrev tickets : Bool → String → Route
tickets below path = record {
  method = "";
  any = true;
  path = path;
  below = below;
  protected = true;
  trim = "";
  upstream = Upstream.ticket_service;
}

unfoldable pub routes : List Route
routes =
    public_auth "/auth/login"
    ∷ public_auth "/auth/register"
    ∷ public_auth "/auth/refresh"
    ∷ protected_auth "POST" "/auth/logout"
    ∷ protected_auth "POST" "/auth/admin/staff"
    ∷ protected_auth "GET" "/auth/admin/agents"
    ∷ protected_auth "GET" "/auth/me"
    ∷ protected_auth "PATCH" "/auth/me"
    ∷ protected_auth "PATCH" "/auth/me/availability"
    ∷ protected_auth "POST" "/auth/change-password"
    ∷ report "/reports/summary"
    ∷ report "/reports/agents"
    ∷ report "/reports/critical-trends"
    ∷ report "/reports/queue-size"
    ∷ tickets false "/tickets"
    ∷ tickets true "/tickets/"
    ∷ []

-- The methods of `r.Any`.
abbrev pub any_method : String → Bool
any_method m =
    m =s= "GET"
    || m =s= "POST"
    || m =s= "PUT"
    || m =s= "PATCH"
    || m =s= "HEAD"
    || m =s= "OPTIONS"
    || m =s= "DELETE"
    || m =s= "CONNECT"
    || m =s= "TRACE"

unfoldable pub route_matches : (method path : String) → Route → Bool
route_matches method path r =
    (if r.any then any_method method else method =s= r.method)
    && (if r.below then slice path 0 (len r.path) =s= r.path else path =s= r.path)

unfoldable pub dispatch : (method path : String) → Option Route
unfolding routes route_matches
dispatch method path = find_by (route_matches method path) routes

-- proxyTrim takes the prefix off and leaves "/" for nothing; proxyTo, which has none, keeps the path.
unfoldable pub upstream_path : Route → String → String
upstream_path r path =
    if r.trim =s= ""
    then path
    else let rest = slice path (len r.trim) (len path) in if rest =s= "" then "/" else rest

-- `connection` are the names that the Connection headers list, as net/http writes header names.
pub record Request : Type 0 where
  pub method : String
  pub path : String
  pub client_ip : String
  pub origin : String
  pub connection : List String
  pub headers : Headers

unfoldable pub is_listed : List String → String → Bool
is_listed [] name = false
is_listed (n ∷ names) name = n =s= name || is_listed names name

unfoldable pub unless_listed : List String → (name value : String) → String
unfolding is_listed
unless_listed names name value = if is_listed names name then "" else value

-- httputil.ReverseProxy takes off the headers that the client's Connection header lists, whoever set them.
unfoldable pub remove_listed : List String → Headers → Headers
unfolding unless_listed
remove_listed names h = record {
  authorization = unless_listed names "Authorization" h.authorization;
  request_id = unless_listed names "X-Request-Id" h.request_id;
  internal_secret = unless_listed names "X-Internal-Secret" h.internal_secret;
  user_id = unless_listed names "X-User-Id" h.user_id;
  user_role = unless_listed names "X-User-Role" h.user_role;
}

-- What the gateway does with a request that it does not refuse.
pub data Reply : Type 0 where
  metrics health : Reply
  forwarded : Upstream → (path : String) → Headers → Reply

module _ (jwt : Jwt) (jwt_secret internal_secret : String)
    (cors : (method origin : String) → Result Refusal (Unit {0})) where
  -- The handlers of the route that matches.
  unfoldable pub handle_route : ℕ → Request → Headers → Result Refusal Reply
  unfolding remove_listed
  handle_route now req h = do
    r ← or_refuse (dispatch req.method req.path) (refusal 404 "404 page not found" "")
    h' ← if r.protected then auth_middleware jwt jwt_secret now h else ok h
    ok (Reply.forwarded r.upstream (upstream_path r req.path) (remove_listed req.connection h'))

  unfoldable pub handle_path : ℕ → Request → Headers → Result Refusal Reply
  unfolding handle_route
  handle_path now req h =
      if req.method =s= "GET" && req.path =s= "/metrics"
      then ok Reply.metrics
      else if req.method =s= "GET" && req.path =s= "/health"
      then ok Reply.health
      else handle_route now req h

  -- The global middleware in its order, then the route.
  unfoldable pub handle :
      {Limiter : Type 0}
      → (Limiter → ℕ → (key : String) → Bool × Limiter)
      → Limiter
      → ℕ
      → (generated : String) → Request
      → Result Refusal Reply × Limiter
  unfolding handle_path
  handle allow limiter now generated req =
      let h =
        internal_secret_middleware internal_secret (request_id_middleware generated req.headers) in
      let (allowed, limiter') = allow limiter now req.client_ip in
      (
        do rate_limit_middleware allowed; cors req.method req.origin; handle_path now req h,
        limiter',
      )
