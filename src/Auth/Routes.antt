-- ===== src/Auth/Routes.antt =====
-- The routes of cmd/main.go and RegisterRoutes of the auth handler: which checks stand before which endpoint, and what they ensure.
use Prim.Native.String.{len, slice}
use helpdesk_microservices.Base.{
  ◌≡◌, ◌⊎◌, refl, inl, inr, Bool, true, false, not, ◌||◌, ◌&&◌, String, List, [], ◌∷◌, ◌++◌, All,
  All-append, find_by, Result, ok, ◌>>=◌, ◌>>◌, guard, guard-eq-ok, bind-eq-ok, ok-injective, subst,
  arith, eq_iff, ◌=s=◌, if◌then◌else◌,
}
use helpdesk_microservices.Db.Rows.{find_by-All}
use helpdesk_microservices.Http.{Headers, Refusal, refusal, or_refuse, required-eq-ok}
use helpdesk_microservices.Auth.Handler.{internal_only, require_role}

pub data Endpoint : Type 0 where
  metrics api_docs health healthz register login refresh logout me update_profile
        update_availability change_password create_staff list_agents :
      Endpoint

-- The groups that a route is in.
pub record Route : Type 0 where
  pub method : String
  pub path : String
  pub below : Bool
  pub internal : Bool
  pub limited : Bool
  pub admin : Bool
  pub endpoint : Endpoint

abbrev route : (method path : String) → (internal limited admin : Bool) → Endpoint → Route
route method path internal limited admin endpoint = record {
  method = method;
  path = path;
  below = false;
  internal = internal;
  limited = limited;
  admin = admin;
  endpoint = endpoint;
}

abbrev pub docs_route : Route
docs_route = record {
  method = "GET";
  path = "/swagger/";
  below = true;
  internal = false;
  limited = false;
  admin = false;
  endpoint = Endpoint.api_docs;
}

-- The routes of cmd/main.go, ahead of RegisterRoutes; the API docs are there where they are enabled.
unfoldable pub outer_routes : (swagger : Bool) → List Route
outer_routes true = route "GET" "/metrics" false false false Endpoint.metrics ∷ docs_route ∷ []
outer_routes false = route "GET" "/metrics" false false false Endpoint.metrics ∷ []

unfoldable pub route_fits : (method path : String) → Route → Bool
route_fits method path r =
    method =s= r.method
    && (if r.below then slice path 0 (len r.path) =s= r.path else path =s= r.path)

unfoldable pub routes : List Route
routes =
    route "GET" "/health" false false false Endpoint.health
    ∷ route "GET" "/healthz" false false false Endpoint.healthz
    ∷ route "POST" "/register" true true false Endpoint.register
    ∷ route "POST" "/login" true true false Endpoint.login
    ∷ route "POST" "/refresh" true true false Endpoint.refresh
    ∷ route "POST" "/logout" true false false Endpoint.logout
    ∷ route "GET" "/me" true false false Endpoint.me
    ∷ route "PATCH" "/me" true false false Endpoint.update_profile
    ∷ route "PATCH" "/me/availability" true false false Endpoint.update_availability
    ∷ route "POST" "/change-password" true false false Endpoint.change_password
    ∷ route "POST" "/admin/staff" true false true Endpoint.create_staff
    ∷ route "GET" "/admin/agents" true false true Endpoint.list_agents
    ∷ []

-- The endpoint that a request reaches; `allowed` is the limiter's answer.
unfoldable pub admit :
    (secret : String)
    → (swagger allowed : Bool) → (method path : String) → Headers
    → Result Refusal Endpoint
unfolding routes outer_routes route_fits
admit secret swagger allowed method path h = do
  r ←
      or_refuse (find_by (route_fits method path) (outer_routes swagger ++ routes))
        (refusal 404 "404 page not found" "")
  if r.internal then internal_only secret h else ok tt
  guard (not r.limited || allowed) (refusal 429 "too many requests" "RATE_LIMITED")
  if r.admin then require_role "admin" h else ok tt
  ok r.endpoint

-- What is needed to reach an endpoint.
abbrev pub Permitted : (secret : String) → (swagger allowed : Bool) → Headers → Endpoint → Type 0
Permitted secret swagger allowed h Endpoint.metrics = Unit {0}
Permitted secret swagger allowed h Endpoint.api_docs = swagger ≡ true
Permitted secret swagger allowed h Endpoint.health = Unit {0}
Permitted secret swagger allowed h Endpoint.healthz = Unit {0}
Permitted secret swagger allowed h Endpoint.register =
    (h.internal_secret ≡ secret) × (allowed ≡ true)
Permitted secret swagger allowed h Endpoint.login = (h.internal_secret ≡ secret) × (allowed ≡ true)
Permitted secret swagger allowed h Endpoint.refresh =
    (h.internal_secret ≡ secret) × (allowed ≡ true)
Permitted secret swagger allowed h Endpoint.create_staff =
    (h.internal_secret ≡ secret) × (h.user_role ≡ "admin")
Permitted secret swagger allowed h Endpoint.list_agents =
    (h.internal_secret ≡ secret) × (h.user_role ≡ "admin")
Permitted secret swagger allowed h _ = h.internal_secret ≡ secret

module _ (secret : String) (swagger allowed : Bool) (h : Headers) where
  -- The checks of a route, all passed.
  abbrev Passed : Route → Type 0
  Passed r =
      ((r.internal ≡ false) ⊎ (h.internal_secret ≡ secret))
      × ((not r.limited || allowed) ≡ true)
      × ((r.admin ≡ false) ⊎ (h.user_role ≡ "admin"))

  internal_check :
      (b : Bool)
      → (if b then internal_only secret h else ok tt) ≡ ok tt
      → (b ≡ false) ⊎ (h.internal_secret ≡ secret)
  unfolding internal_only
  internal_check true e =
      let test = guard-eq-ok _ (refusal 403 "forbidden" "forbidden") e in
      inr (ground (arith, test, eq_iff h.internal_secret secret))
  internal_check false e = inl refl

  admin_check :
      (b : Bool)
      → (if b then require_role "admin" h else ok tt) ≡ ok tt
      → (b ≡ false) ⊎ (h.user_role ≡ "admin")
  unfolding require_role
  admin_check true e =
      inr ((eq_iff h.user_role "admin").0 (guard-eq-ok _ (refusal 403 "forbidden" "forbidden") e))
  admin_check false e = inl refl

  must : {P : Type 0} → ((true ≡ false) ⊎ P) → P
  must (inl clash) = cc
  must (inr p) = p

  routes-Permitted : All (λ r. Passed r → Permitted secret swagger allowed h r.endpoint) routes
  unfolding routes
  routes-Permitted = (
    λ p. tt,
    (
      λ p. tt,
      (
        λ p. (must p.0, p.1),
        (
          λ p. (must p.0, p.1),
          (
            λ p. (must p.0, p.1),
            (
              λ p. must p.0,
              (
                λ p. must p.0,
                (
                  λ p. must p.0,
                  (
                    λ p. must p.0,
                    (λ p. must p.0, (λ p. (must p.0, must p.2), (λ p. (must p.0, must p.2), tt))),
                  ),
                ),
              ),
            ),
          ),
        ),
      ),
    ),
  )

  outer_routes-Permitted :
      (enabled : Bool)
      → swagger ≡ enabled
      → All (λ r. Passed r → Permitted secret swagger allowed h r.endpoint) (outer_routes enabled)
  unfolding outer_routes
  outer_routes-Permitted true e = (λ p. tt, (λ p. e, tt))
  outer_routes-Permitted false e = (λ p. tt, tt)

  -- A request reaches an endpoint of the auth service other than the two health checks, the
  -- metrics and, where they are enabled, the API docs only with the shared internal secret;
  -- registration, login and refresh only where the rate limiter allows it, and the creation and
  -- listing of staff only with the role "admin".
  pub admit-Permitted :
      (method path : String) (endpoint : Endpoint)
      → admit secret swagger allowed method path h ≡ ok endpoint
      → Permitted secret swagger allowed h endpoint
  unfolding admit
  admit-Permitted method path endpoint made =
      let (r, found, m1) =
        required-eq-ok (find_by (route_fits method path) (outer_routes swagger ++ routes)) _ _
          made in
      let (_, internal, m2) =
        bind-eq-ok (if r.internal then internal_only secret h else ok tt) _ m1 in
      let (_, limited, m3) =
        bind-eq-ok
          (guard (not r.limited || allowed) (refusal 429 "too many requests" "RATE_LIMITED")) _
          m2 in
      let (_, admin, last) = bind-eq-ok (if r.admin then require_role "admin" h else ok tt) _ m3 in
      subst (Permitted secret swagger allowed h) (ok-injective last) (
        find_by-All (λ r. Passed r → Permitted secret swagger allowed h r.endpoint) _
          (outer_routes swagger ++ routes) r found
          (All-append _ (outer_routes swagger) routes (outer_routes-Permitted swagger refl)
            routes-Permitted)
          (
            internal_check r.internal internal,
            guard-eq-ok _ (refusal 429 "too many requests" "RATE_LIMITED") limited,
            admin_check r.admin admin,
          ))
