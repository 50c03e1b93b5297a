-- ===== src/Tickets/Routes.antt =====
-- The routes of cmd/main.go of the ticket service and InternalOnlyMiddleware of its middleware.go. Gin
-- splits a path at its slashes. `swagger` says that the API docs are enabled, `allowed` is the answer of the rate limiter.
use helpdesk_microservices.Base.{
  ◌≡◌, ◌⊎◌, refl, inl, inr, Bool, true, false, not, ◌||◌, ◌&&◌, String, List, [], ◌∷◌, ◌++◌, All,
  All-append, find_by, Result, ok, ◌>>=◌, ◌>>◌, guard, guard-eq-ok, bind-eq-ok, ok-injective, subst,
  arith, eq_iff, ◌=s=◌, if◌then◌else◌,
}
use helpdesk_microservices.Db.Rows.{find_by-All}
use helpdesk_microservices.Http.{Headers, Refusal, refusal, or_refuse, required-eq-ok}

pub data Endpoint : Type 0 where
  metrics api_docs health healthz create_ticket create_attachment list_tickets get_ticket
        get_history assign update_status create_comment list_comments list_attachments
        download_attachment report_summary report_agents report_trends report_queue :
      Endpoint

pub data Segment : Type 0 where
  literal : String → Segment
  param : Segment
  remainder : Segment

pub record Route : Type 0 where
  pub method : String
  pub pattern : List Segment
  pub internal : Bool
  pub limited : Bool
  pub endpoint : Endpoint

abbrev open_route : String → Endpoint → Route
open_route path endpoint = record {
  method = "GET";
  pattern = Segment.literal path ∷ [];
  internal = false;
  limited = false;
  endpoint = endpoint;
}

abbrev internal_route : (limited : Bool) → (method : String) → List Segment → Endpoint → Route
internal_route limited method pattern endpoint = record {
  method = method;
  pattern = pattern;
  internal = true;
  limited = limited;
  endpoint = endpoint;
}

abbrev ticket_path : List Segment → List Segment
ticket_path rest = Segment.literal "tickets" ∷ Segment.param ∷ rest

abbrev report_path : String → List Segment
report_path name = Segment.literal "reports" ∷ Segment.literal name ∷ []

-- The swagger route is there where it is enabled.
unfoldable pub docs_routes : (enabled : Bool) → List Route
docs_routes true =
    (record {
      method = "GET";
      pattern = Segment.literal "swagger" ∷ Segment.remainder ∷ [];
      internal = false;
      limited = false;
      endpoint = Endpoint.api_docs;
    })
    ∷ []
docs_routes false = []

unfoldable pub ticket_routes : List Route
ticket_routes =
    open_route "metrics" Endpoint.metrics
    ∷ open_route "health" Endpoint.health
    ∷ open_route "healthz" Endpoint.healthz
    ∷ internal_route true "POST" (Segment.literal "tickets" ∷ []) Endpoint.create_ticket
    ∷ internal_route true "POST" (ticket_path (Segment.literal "attachments" ∷ []))
        Endpoint.create_attachment
    ∷ internal_route false "GET" (Segment.literal "tickets" ∷ []) Endpoint.list_tickets
    ∷ internal_route false "GET" (ticket_path []) Endpoint.get_ticket
    ∷ internal_route false "GET" (ticket_path (Segment.literal "history" ∷ [])) Endpoint.get_history
    ∷ internal_route false "PATCH" (ticket_path (Segment.literal "assign" ∷ [])) Endpoint.assign
    ∷ internal_route false "PATCH" (ticket_path (Segment.literal "status" ∷ []))
        Endpoint.update_status
    ∷ internal_route false "POST" (ticket_path (Segment.literal "comments" ∷ []))
        Endpoint.create_comment
    ∷ internal_route false "GET" (ticket_path (Segment.literal "comments" ∷ []))
        Endpoint.list_comments
    ∷ internal_route false "GET" (ticket_path (Segment.literal "attachments" ∷ []))
        Endpoint.list_attachments
    ∷ internal_route false "GET" (ticket_path (Segment.literal "attachments" ∷ Segment.param ∷ []))
        Endpoint.download_attachment
    ∷ internal_route false "GET" (report_path "summary") Endpoint.report_summary
    ∷ internal_route false "GET" (report_path "agents") Endpoint.report_agents
    ∷ internal_route false "GET" (report_path "critical-trends") Endpoint.report_trends
    ∷ internal_route false "GET" (report_path "queue-size") Endpoint.report_queue
    ∷ []

unfoldable pub fits : List Segment → List String → Bool
fits [] [] = true
fits [] (s ∷ path) = false
fits (p ∷ pattern) [] = false
fits (Segment.literal l ∷ pattern) (s ∷ path) = l =s= s && fits pattern path
fits (Segment.remainder ∷ pattern) (s ∷ path) = true
fits (Segment.param ∷ pattern) (s ∷ path) = not (s =s= "") && fits pattern path

unfoldable pub only_internal : (secret : String) → Headers → Result Refusal (Unit {0})
only_internal secret h =
    guard (not (h.internal_secret =s= "" || not (h.internal_secret =s= secret)))
      (refusal 403 "forbidden" "forbidden")

unfoldable pub too_many_requests : Refusal
too_many_requests = refusal 429 "too many requests" "RATE_LIMITED"

-- The endpoint that a request reaches.
unfoldable pub reach :
    (secret : String)
    → (swagger allowed : Bool) → (method : String) → (path : List String) → Headers
    → Result Refusal Endpoint
unfolding ticket_routes docs_routes fits
reach secret swagger allowed method path h = do
  r ←
      or_refuse
        (find_by (λ (r : Route). method =s= r.method && fits r.pattern path)
          (docs_routes swagger ++ ticket_routes))
        (refusal 404 "404 page not found" "")
  if r.internal then only_internal secret h else ok tt
  guard (not r.limited || allowed) too_many_requests
  ok r.endpoint

-- What is needed to reach an endpoint.
abbrev pub Guarded : (secret : String) → (swagger allowed : Bool) → Headers → Endpoint → Type 0
Guarded secret swagger allowed h Endpoint.metrics = Unit {0}
Guarded secret swagger allowed h Endpoint.api_docs = swagger ≡ true
Guarded secret swagger allowed h Endpoint.health = Unit {0}
Guarded secret swagger allowed h Endpoint.healthz = Unit {0}
Guarded secret swagger allowed h Endpoint.create_ticket =
    (h.internal_secret ≡ secret) × (allowed ≡ true)
Guarded secret swagger allowed h Endpoint.create_attachment =
    (h.internal_secret ≡ secret) × (allowed ≡ true)
Guarded secret swagger allowed h _ = h.internal_secret ≡ secret

module _ (secret : String) (swagger allowed : Bool) (h : Headers) where
  abbrev Passed : Route → Type 0
  Passed r =
      ((r.internal ≡ false) ⊎ (h.internal_secret ≡ secret)) × ((not r.limited || allowed) ≡ true)

  internal_check :
      (b : Bool)
      → (if b then only_internal secret h else ok tt) ≡ ok tt
      → (b ≡ false) ⊎ (h.internal_secret ≡ secret)
  unfolding only_internal
  internal_check true e =
      let test = guard-eq-ok _ (refusal 403 "forbidden" "forbidden") e in
      inr (ground (arith, test, eq_iff h.internal_secret secret))
  internal_check false e = inl refl

  must : {P : Type 0} → ((true ≡ false) ⊎ P) → P
  must (inl clash) = cc
  must (inr p) = p

  ticket_routes-Guarded :
      All (λ r. Passed r → Guarded secret swagger allowed h r.endpoint) ticket_routes
  unfolding ticket_routes
  ticket_routes-Guarded = (
    λ p. tt,
    (
      λ p. tt,
      (
        λ p. tt,
        (
          λ p. (must p.0, p.1),
          (
            λ p. (must p.0, p.1),
            (
              λ p. must p.0,
              (
                λ p. must p.0,
                (
                  λ p. must p.0,
                  (
                    λ p. must p.0,
                    (
                      λ p. must p.0,
                      (
                        λ p. must p.0,
                        (
                          λ p. must p.0,
                          (
                            λ p. must p.0,
                            (
                              λ p. must p.0,
                              (
                                λ p. must p.0,
                                (λ p. must p.0, (λ p. must p.0, (λ p. must p.0, tt))),
                              ),
                            ),
                          ),
                        ),
                      ),
                    ),
                  ),
                ),
              ),
            ),
          ),
        ),
      ),
    ),
  )

  docs_routes-Guarded :
      (enabled : Bool)
      → swagger ≡ enabled
      → All (λ r. Passed r → Guarded secret swagger allowed h r.endpoint) (docs_routes enabled)
  unfolding docs_routes
  docs_routes-Guarded true e = (λ p. e, tt)
  docs_routes-Guarded false e = tt

  -- A request reaches an endpoint of the ticket service other than the two health checks, the
  -- metrics and, where they are enabled, the API docs only with the shared internal secret, and
  -- the creation of a ticket or of an attachment only where the rate limiter allows it.
  pub reach-Guarded :
      (method : String) (path : List String) (endpoint : Endpoint)
      → reach secret swagger allowed method path h ≡ ok endpoint
      → Guarded secret swagger allowed h endpoint
  unfolding reach
  reach-Guarded method path endpoint made =
      let (r, found, m1) =
        required-eq-ok
          (find_by (λ (r : Route). method =s= r.method && fits r.pattern path)
            (docs_routes swagger ++ ticket_routes))
          _ _ made in
      let (_, internal, m2) =
        bind-eq-ok (if r.internal then only_internal secret h else ok tt) _ m1 in
      let (_, limited, last) =
        bind-eq-ok (guard (not r.limited || allowed) too_many_requests) _ m2 in
      subst (Guarded secret swagger allowed h) (ok-injective last) (
        find_by-All (λ r. Passed r → Guarded secret swagger allowed h r.endpoint) _
          (docs_routes swagger ++ ticket_routes) r found
          (All-append _ (docs_routes swagger) ticket_routes (docs_routes-Guarded swagger refl)
            ticket_routes-Guarded)
          (internal_check r.internal internal, guard-eq-ok _ too_many_requests limited))
