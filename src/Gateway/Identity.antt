-- ===== src/Gateway/Identity.antt =====
-- Whose identity a forwarded request carries.
use helpdesk_microservices.Base.{
  subst, ltb, eq_iff, ℕ, ◌≡◌, ◌⊎◌, refl, sym, ap, ◌∙◌, inl, inr, Bool, true, false, not, ◌&&◌, some,
  String, List, Result, ok, guard, bind-eq-ok, ok-injective, arith, ◌=s=◌, Bool-cases,
  if◌then◌else◌,
}
use helpdesk_microservices.Http.{Headers, Refusal, required-eq-ok}
use Prim.Native.String.{len, slice, ◌++◌}
use helpdesk_microservices.Text.{token-after}
use helpdesk_microservices.Jwt.{
  Claim, Claims, SigningMethod, Unexpired, Jwt, hmac_only, present, sprint,
}
use helpdesk_microservices.Gateway.Middleware.{
  request_id_middleware, internal_secret_middleware, rate_limit_middleware, unauthorized,
  bearer_token, auth_middleware,
}
use helpdesk_microservices.Gateway.Routes.{
  Upstream, dispatch, Request, Reply, remove_listed, handle_route, handle_path, handle,
}
use helpdesk_microservices.Gateway.Connection.{Sent, remove_listed-Sent}
use helpdesk_microservices.Gateway.Protection.{IsPublic, dispatch-Guarded}

abbrev headers_of : Reply → Headers → Headers
headers_of (Reply.forwarded upstream path h) other = h
headers_of Reply.metrics other = other
headers_of Reply.health other = other

forwarded-injective :
    {u v : Upstream} {p q : String} {h k : Headers}
    → Reply.forwarded u p h ≡ Reply.forwarded v q k
    → h ≡ k
forwarded-injective {h} e = ap (λ r. headers_of r h) e

-- The token is the header, with or without "Bearer " before it.
bearer_token-carried :
    (header : String) → (header ≡ "Bearer " ++ bearer_token header) ⊎ (header ≡ bearer_token header)
unfolding bearer_token
bearer_token-carried header =
    elim (Bool-cases (ltb 7 (len header) && slice header 0 7 =s= "Bearer ")) [
      | inl e ↦
          let starts : slice header 0 7 ≡ "Bearer " =
            ground (arith, e, eq_iff (slice header 0 7) "Bearer ") in
          inl (rw (e, bearer_token) (token-after header starts))
      | inr e ↦ inr (rw (e, bearer_token) refl)
    ]

module _ (jwt : Jwt) where
  -- The identity headers are what a token says that is signed with the gateway's own secret, by HMAC,
  -- and has not expired.
  pub record Authenticated (secret : String) (now : ℕ) (token : String) (h : Headers) : Type 0 where
    pub claims : Claims
    pub signed : jwt.Signed SigningMethod.hmac secret claims token
    pub unexpired : Unexpired now claims
    pub user : Claim
    pub has_user : present claims.user_id ≡ some user
    pub user_header : h.user_id ≡ sprint user
    pub role : Claim
    pub has_role : present claims.role ≡ some role
    pub role_header : h.user_role ≡ sprint role

  -- The same of the headers of a request that is sent on.
  pub record Identified (secret : String) (now : ℕ) (authorization : String) (names : List String)
      (h : Headers) : Type 0 where
    pub token : String
    pub carried : (authorization ≡ "Bearer " ++ token) ⊎ (authorization ≡ token)
    pub claims : Claims
    pub signed : jwt.Signed SigningMethod.hmac secret claims token
    pub unexpired : Unexpired now claims
    pub user : Claim
    pub has_user : present claims.user_id ≡ some user
    pub user_header : Sent names "X-User-Id" (sprint user) h.user_id
    pub role : Claim
    pub has_role : present claims.role ≡ some role
    pub role_header : Sent names "X-User-Role" (sprint role) h.user_role

  Authenticated-Identified :
      {secret : String} {now : ℕ} {authorization : String} {h : Headers} (names : List String)
      → Authenticated secret now (bearer_token authorization) h
      → Identified secret now authorization names (remove_listed names h)
  Authenticated-Identified {authorization = authorization} {h = h} names a =
      let (_, user_sent, role_sent) = remove_listed-Sent names h in
      record {
        token = bearer_token authorization;
        carried = bearer_token-carried authorization;
        claims = a.claims;
        signed = a.signed;
        unexpired = a.unexpired;
        user = a.user;
        has_user = a.has_user;
        user_header =
            subst (λ v. Sent names "X-User-Id" v (remove_listed names h).user_id) a.user_header
              user_sent;
        role = a.role;
        has_role = a.has_role;
        role_header =
            subst (λ v. Sent names "X-User-Role" v (remove_listed names h).user_role) a.role_header
              role_sent;
      }

  pub hmac-only_lem :
      (secret key : String) (m : SigningMethod)
      → hmac_only secret m ≡ some key
      → (m ≡ SigningMethod.hmac) × (key ≡ secret)
  hmac-only_lem secret key SigningMethod.hmac h = (refl, ground arith)
  hmac-only_lem secret key SigningMethod.other_method h = cc

  pub auth_middleware-Authenticated :
      (secret : String) (now : ℕ) (h h' : Headers)
      → auth_middleware jwt secret now h ≡ ok h'
      → Authenticated secret now (bearer_token h.authorization) h'
        × (h'.internal_secret ≡ h.internal_secret)
  unfolding auth_middleware
  auth_middleware-Authenticated secret now h h' made =
      let (_, _, made1) =
        bind-eq-ok (guard (not (h.authorization =s= "")) (unauthorized "missing token")) _ made in
      let (c, parsed, made2) =
        required-eq-ok (jwt.parse (hmac_only secret) now (bearer_token h.authorization)) _ _
          made1 in
      let (user, has_user, made3) = required-eq-ok (present c.user_id) _ _ made2 in
      let (role, has_role, made4) = required-eq-ok (present c.role) _ _ made3 in
      let (_, _, last) =
        bind-eq-ok
          (guard (not (sprint user =s= "") && not (sprint role =s= ""))
            (unauthorized "invalid token claims"))
          _ made4 in
      let same = ok-injective last in
      let (m, key, only, signed, unexpired) = jwt.parse_sound (hmac_only secret) now _ c parsed in
      let (is_hmac, is_secret) = hmac-only_lem secret key m only in
      (
        record {
          claims = c;
          signed = rw (is_hmac, is_secret) at signed;
          unexpired = unexpired;
          user = user;
          has_user = has_user;
          user_header = ap (λ (x : Headers). x.user_id) (sym same);
          role = role;
          has_role = has_role;
          role_header = ap (λ (x : Headers). x.user_role) (sym same);
        },
        ap (λ (x : Headers). x.internal_secret) (sym same),
      )

  auth_middleware-blind :
      (secret : String) (now : ℕ) (h : Headers) (user role : String)
      → auth_middleware jwt secret now (record h { user_id = user; user_role = role })
        ≡ auth_middleware jwt secret now h
  unfolding auth_middleware
  auth_middleware-blind secret now h user role = refl

module _ (jwt : Jwt) (jwt_secret internal_secret : String)
    (cors : (method origin : String) → Result Refusal (Unit {0})) where
  if_protected :
      (b : Bool) (now : ℕ) (h h' : Headers)
      → (if b then auth_middleware jwt jwt_secret now h else ok h) ≡ ok h'
      → ((b ≡ false) ⊎ Authenticated jwt jwt_secret now (bearer_token h.authorization) h')
        × (h'.internal_secret ≡ h.internal_secret)
  if_protected true now h h' made =
      let (who, secret) = auth_middleware-Authenticated jwt jwt_secret now h h' made in
      (inr who, secret)
  if_protected false now h h' made =
      (inl refl, ap (λ (x : Headers). x.internal_secret) (sym (ok-injective made)))

  abbrev Told : Request → (now : ℕ) → Headers → (before : Headers) → Type 0
  Told req now h before =
      Sent req.connection "X-Internal-Secret" before.internal_secret h.internal_secret
      × (IsPublic req.path ⊎ Identified jwt jwt_secret now before.authorization req.connection h)

  handle_route-Identified :
      (now : ℕ) (req : Request) (h h' : Headers) (upstream : Upstream) (path : String)
      → handle_route jwt jwt_secret internal_secret cors now req h
        ≡ ok (Reply.forwarded upstream path h')
      → Told req now h' h
  unfolding handle_route
  handle_route-Identified now req h h' upstream path made =
      let (r, found, made1) = required-eq-ok (dispatch req.method req.path) _ _ made in
      let (out, passed, last) =
        bind-eq-ok (if r.protected then auth_middleware jwt jwt_secret now h else ok h) _ made1 in
      let same : remove_listed req.connection out ≡ h' = forwarded-injective (ok-injective last) in
      let (who, secret) = if_protected r.protected now h out passed in
      subst (λ x. Told req now x h) same
        (
          subst
              (λ s.
                Sent req.connection "X-Internal-Secret" s
                  (remove_listed req.connection out).internal_secret)
              secret (remove_listed-Sent req.connection out).0,
          elim who [
            | inr authenticated ↦ inr (Authenticated-Identified jwt req.connection authenticated)
            | inl unguarded ↦ elim (dispatch-Guarded req.method req.path r found) [
              | inl guarded ↦ let clash : true ≡ false = sym guarded ∙ unguarded in cc
              | inr public ↦ inl public
            ]
          ],
        )

  handle_path-Identified :
      (now : ℕ) (req : Request) (h h' : Headers) (upstream : Upstream) (path : String)
      → handle_path jwt jwt_secret internal_secret cors now req h
        ≡ ok (Reply.forwarded upstream path h')
      → Told req now h' h
  unfolding handle_path
  handle_path-Identified now req h h' upstream path made =
      elim (Bool-cases (req.method =s= "GET" && req.path =s= "/metrics")) [
        | inl e ↦ let other = rw e at made in cc
        | inr e ↦ elim (Bool-cases (req.method =s= "GET" && req.path =s= "/health")) [
          | inl f ↦ let other = rw (e, f) at made in cc
          | inr f ↦ handle_route-Identified now req h h' upstream path (rw (e, f) at made)
        ]
      ]

  -- A request that the gateway hands on to a service carries the shared internal secret, or,
  -- where the client's Connection header lists that header, none. Unless it is for login,
  -- registration or refresh, its user and role headers are those of an unexpired token in the
  -- request that is signed, by HMAC, with the gateway's secret; each of them is empty where the
  -- Connection header lists it.
  pub handle-Identified :
      {Limiter : Type 0} (allow : Limiter → ℕ → (key : String) → Bool × Limiter) (limiter : Limiter)
      (now : ℕ) (generated : String) (req : Request) (upstream : Upstream) (path : String)
      (h : Headers)
      → (handle jwt jwt_secret internal_secret cors allow limiter now generated req).0
        ≡ ok (Reply.forwarded upstream path h)
      → Sent req.connection "X-Internal-Secret" internal_secret h.internal_secret
        × (IsPublic req.path
            ⊎ Identified jwt jwt_secret now req.headers.authorization req.connection h)
  unfolding handle internal_secret_middleware request_id_middleware
  handle-Identified allow limiter now generated req upstream path h made =
      let (_, _, made1) =
        bind-eq-ok (rate_limit_middleware (allow limiter now req.client_ip).0) _ made in
      let (_, _, made2) = bind-eq-ok (cors req.method req.origin) _ made1 in
      handle_path-Identified now req _ h upstream path made2
