-- ===== src/Gateway/Connection.antt =====
-- What httputil.ReverseProxy, which proxyTo and proxyTrim of main.go run, leaves of the headers.
use helpdesk_microservices.Base.{◌≡◌, inl, inr, true, false, String, List, Bool-cases}
use helpdesk_microservices.Http.{Headers}
use helpdesk_microservices.Gateway.Routes.{is_listed, unless_listed, remove_listed}

-- A header that was set to `value`: it has that value, unless the client's Connection header lists it, and then
-- it is not there.
pub data Sent (names : List String) (name value : String) : String → Type 0 where
  kept : is_listed names name ≡ false → Sent names name value value
  dropped : is_listed names name ≡ true → Sent names name value ""

unless_listed-Sent :
    (names : List String) (name value : String)
    → Sent names name value (unless_listed names name value)
unfolding unless_listed
unless_listed-Sent names name value = elim (Bool-cases (is_listed names name)) [
  | inl e ↦ rw (e, unless_listed) (dropped e)
  | inr e ↦ rw (e, unless_listed) (kept e)
]

pub remove_listed-Sent :
    (names : List String) (h : Headers)
    → Sent names "X-Internal-Secret" h.internal_secret (remove_listed names h).internal_secret
      × Sent names "X-User-Id" h.user_id (remove_listed names h).user_id
      × Sent names "X-User-Role" h.user_role (remove_listed names h).user_role
unfolding remove_listed
remove_listed-Sent names h = (
  unless_listed-Sent names "X-Internal-Secret" h.internal_secret,
  unless_listed-Sent names "X-User-Id" h.user_id,
  unless_listed-Sent names "X-User-Role" h.user_role,
)
