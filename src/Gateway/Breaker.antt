-- ===== src/Gateway/Breaker.antt =====
-- breakerTransport, newUpstreamBreaker and proxyErrorHandler of main.go. gobreaker is outside: `Breaker`
-- is what the code relies on.
use helpdesk_microservices.Base.{
  ◌≡◌, Bool, true, false, Option, none, some, String, Result, ok, err, if◌then◌else◌,
}
use helpdesk_microservices.Http.{Refusal, refusal}

-- Why a breaker does not let a call through.
pub data BreakerError : Type 0 where
  open_state too_many_requests : BreakerError

-- How a breaker counts a call.
pub data Tally : Type 0 where
  success failure excluded : Tally

-- The transport's own error, or the one that marks a client that has gone.
pub data TransportError : Type 0 where
  plain client_gone : (message : String) → TransportError

pub data ProxyError : Type 0 where
  breaker : BreakerError → ProxyError
  transport : TransportError → ProxyError

abbrev pub tally : (TransportError → Bool) → {A : Type 0} → Result TransportError A → Tally
tally is_excluded (ok a) = Tally.success
tally is_excluded (err e) = if is_excluded e then Tally.excluded else Tally.failure

abbrev pub passed_on : {A : Type 0} → Result TransportError A → Result ProxyError A
passed_on (ok a) = ok a
passed_on (err e) = err (ProxyError.transport e)

-- A breaker lets a call through or not, and counts the calls that it lets through.
pub record Breaker (S : Type 0) : Type 1 where
  pub admits : S → Option BreakerError
  pub settle : S → Tally → S
  pub execute :
      {A : Type 0}
      → (is_excluded : TransportError → Bool) → S
      → Result TransportError A
      → Result ProxyError A × S
  pub execute_refused :
      {A : Type 0} (is_excluded : TransportError → Bool) (s : S) (call : Result TransportError A)
      (e : BreakerError)
      → admits s ≡ some e
      → execute is_excluded s call ≡ (err (ProxyError.breaker e), s)
  pub execute_admitted :
      {A : Type 0} (is_excluded : TransportError → Bool) (s : S) (call : Result TransportError A)
      → admits s ≡ none
      → execute is_excluded s call ≡ (passed_on call, settle s (tally is_excluded call))

-- IsExcluded of newUpstreamBreaker.
unfoldable pub is_client_gone : TransportError → Bool
is_client_gone (TransportError.plain _) = false
is_client_gone (TransportError.client_gone _) = true

-- The call that the breaker runs: an error is marked where the request's own context is done.
unfoldable pub marked :
    {A : Type 0} → (context_done : Bool) → Result String A → Result TransportError A
marked context_done (ok a) = ok a
marked context_done (err e) =
    err (if context_done then TransportError.client_gone e else TransportError.plain e)

-- The marker is taken off again.
unfoldable pub unmarked : {A : Type 0} → Result ProxyError A → Result ProxyError A
unmarked (ok a) = ok a
unmarked (err (ProxyError.transport (TransportError.client_gone e))) =
    err (ProxyError.transport (TransportError.plain e))
unmarked (err e) = err e

-- `next` is what the upstream's round trip gives, if it is made.
unfoldable pub round_trip :
    {S A : Type 0}
    → Breaker S
    → S
    → (context_done : Bool) → (next : Result String A) → Result ProxyError A × S
unfolding marked unmarked is_client_gone
round_trip b s context_done next =
    let (result, s') = b.execute is_client_gone s (marked context_done next) in
    (unmarked result, s')

unfoldable pub proxy_error_handler : ProxyError → Refusal
proxy_error_handler (ProxyError.breaker _) =
    refusal 503 "upstream service temporarily unavailable" "CIRCUIT_OPEN"
proxy_error_handler (ProxyError.transport _) =
    refusal 502 "upstream service unavailable" "BAD_GATEWAY"

-- What a round trip comes to, the four ways it can go.
pub data Tripped {S A : Type 0} (b : Breaker S) (s : S) (context_done : Bool)
    (next : Result String A) : Result ProxyError A × S → Type 0 where
  -- the breaker is in the way: 503, and nothing is counted
  refused :
      {out : Result ProxyError A × S} (e : BreakerError)
      → b.admits s ≡ some e
      → out ≡ (err (ProxyError.breaker e), s)
      → (proxy_error_handler (ProxyError.breaker e)).code ≡ 503
      → Tripped b s context_done next out
  answered :
      {out : Result ProxyError A × S} (a : A)
      → b.admits s ≡ none
      → next ≡ ok a
      → out ≡ (ok a, b.settle s Tally.success)
      → Tripped b s context_done next out
  -- the client's doing is not the upstream's failure
  abandoned :
      {out : Result ProxyError A × S} (e : String)
      → b.admits s ≡ none
      → next ≡ err e
      → context_done ≡ true
      → out ≡ (err (ProxyError.transport (TransportError.plain e)), b.settle s Tally.excluded)
      → Tripped b s context_done next out
  failed :
      {out : Result ProxyError A × S} (e : String)
      → b.admits s ≡ none
      → next ≡ err e
      → context_done ≡ false
      → out ≡ (err (ProxyError.transport (TransportError.plain e)), b.settle s Tally.failure)
      → Tripped b s context_done next out
