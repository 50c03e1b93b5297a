-- ===== src/Notify/Hub.antt =====
-- ws.go, and the dispatch of an event in consumeBroadcast of consumer.go. A connection is its number; the
-- socket library is outside, so whether a write fails is an argument.
use helpdesk_microservices.Base.{
  ℕ, ◌≡◌, ltb, leb, ◌==◌, ◌=s=◌, Bool, false, not, ◌||◌, Option, none, some, String, List, [], ◌∷◌,
  ◌++◌, length, Result, ok, ◌>>=◌, ◌>>◌, guard, if◌then◌else◌,
}
use helpdesk_microservices.Http.{Refusal, refusal, or_refuse}
use helpdesk_microservices.Jwt.{Claim, Jwt, hmac_only}
use helpdesk_microservices.Tickets.Handler.{Event}

pub record Client : Type 0 where
  pub conn : ℕ
  pub role : String
  pub user_id : ℕ

pub record Outbound : Type 0 where
  pub payload : String
  pub target_user_id : Option ℕ
  pub target_roles : List String

abbrev pub queue_capacity : ℕ
queue_capacity = 256

unfoldable pub check_origin : (allowed : List String) → (origin : String) → Bool
check_origin [] origin = origin =s= ""
check_origin (o ∷ allowed) origin =
    origin =s= "" || (o =s= "*" || o =s= origin) || check_origin allowed origin

abbrev pub role_of : Option Claim → String
role_of (some (Claim.text role)) = role
role_of _ = ""

abbrev pub user_of : Option Claim → ℕ
user_of (some (Claim.number n)) = n
user_of _ = 0

abbrev pub rejected : ℕ → String → Refusal
rejected code message = refusal code message ""

-- What HandleConnections makes of a token, before the upgrade: the client that it will register.
unfoldable pub authorize :
    Jwt → (secret : String) → (now : ℕ) → (conn : ℕ) → (token : String) → Result Refusal Client
authorize jwt secret now conn token = do
  guard (not (token =s= "")) (rejected 401 "missing token")
  claims ← or_refuse (jwt.parse (hmac_only secret) now token) (rejected 401 "unauthorized")
  ok (record { conn = conn; role = role_of claims.role; user_id = user_of claims.user_id })

-- The check of the cap, which is made before the client is registered.
unfoldable pub is_full : (max_connections : ℕ) → List Client → Bool
is_full max_connections clients = leb max_connections (length clients)

unfoldable pub has_role : List String → String → Bool
has_role [] role = false
has_role (r ∷ roles) role = role =s= r || has_role roles role

unfoldable pub matches : Client → Outbound → Bool
unfolding has_role
matches c out = elim out.target_user_id [
  | some user ↦ c.user_id == user
  | none ↦ has_role out.target_roles c.role
]

-- A full queue drops the message.
unfoldable pub enqueue : List Outbound → Outbound → List Outbound
enqueue queue out = if ltb (length queue) queue_capacity then queue ++ out ∷ [] else queue

-- One message of HandleMessages, with the clients in the order of its loop: the connections that are written to, and the clients that stay; one
-- whose write fails is dropped.
unfoldable pub deliver : (fails : ℕ → Bool) → Outbound → List Client → List ℕ × List Client
unfolding matches
deliver fails out [] = ([], [])
deliver fails out (c ∷ clients) =
    let (sent, kept) = deliver fails out clients in
    if not (matches c out)
    then (sent, c ∷ kept)
    else if fails c.conn
    then (c.conn ∷ sent, kept)
    else (c.conn ∷ sent, c ∷ kept)

-- SendToUser, SendToRoles, or nothing for an event without a target.
unfoldable pub route_event : Event → (raw : String) → Option Outbound
route_event e raw = elim e.target_user_id [
  | some user ↦ some (record { payload = raw; target_user_id = some user; target_roles = [] })
  | none ↦ elim e.target_roles [
    | [] ↦ none
    | r ∷ roles ↦ some (record { payload = raw; target_user_id = none; target_roles = r ∷ roles })
  ]
]

-- The clients, the handshakes that have passed the check and are not yet registered, and the queue.
pub record Hub : Type 0 where
  pub clients : List Client
  pub pending : List Client
  pub queue : List Outbound

abbrev pub without : ℕ → List Client → List Client
without conn [] = []
without conn (c ∷ clients) =
    if c.conn == conn then without conn clients else c ∷ without conn clients

-- What the goroutines do, one step at a time, in any order.
pub data Step (jwt : Jwt) (secret : String) (max_connections : ℕ) : Hub → Hub → Type 0 where
  passes_check :
      (h : Hub) (c : Client) (now : ℕ) (token : String)
      → authorize jwt secret now c.conn token ≡ ok c
      → is_full max_connections h.clients ≡ false
      → Step jwt secret max_connections h (record h { pending = c ∷ h.pending })
  upgrade_fails :
      (h : Hub) (before after : List Client) (c : Client)
      → h.pending ≡ before ++ c ∷ after
      → Step jwt secret max_connections h (record h { pending = before ++ after })
  registers :
      (h : Hub) (before after : List Client) (c : Client)
      → h.pending ≡ before ++ c ∷ after
      → Step jwt secret max_connections h
          (record h { clients = c ∷ h.clients; pending = before ++ after })
  disconnects :
      (h : Hub) (conn : ℕ)
      → Step jwt secret max_connections h (record h { clients = without conn h.clients })
  enqueues :
      (h : Hub) (out : Outbound)
      → Step jwt secret max_connections h (record h { queue = enqueue h.queue out })
  delivers :
      (h : Hub) (out : Outbound) (rest : List Outbound) (fails : ℕ → Bool)
      → h.queue ≡ out ∷ rest
      → Step jwt secret max_connections h
          (record h { clients = (deliver fails out h.clients).1; queue = rest })
  -- a panic, which is recovered from, ends the loop over the clients early
  breaks_off :
      (h : Hub) (out : Outbound) (rest : List Outbound) (fails : ℕ → Bool)
      (before after : List Client)
      → h.queue ≡ out ∷ rest
      → h.clients ≡ before ++ after
      → Step jwt secret max_connections h
          (record h { clients = (deliver fails out before).1 ++ after; queue = rest })
  -- the clients are a map, whose order of iteration is arbitrary
  reorders :
      (h : Hub) (before after : List Client) (c d : Client)
      → h.clients ≡ before ++ c ∷ d ∷ after
      → Step jwt secret max_connections h (record h { clients = before ++ d ∷ c ∷ after })

abbrev pub empty_hub : Hub
empty_hub = record { clients = []; pending = []; queue = [] }

pub data Reachable (jwt : Jwt) (secret : String) (max_connections : ℕ) : Hub → Type 0 where
  start : Reachable jwt secret max_connections empty_hub
  next :
      (g h : Hub)
      → Reachable jwt secret max_connections g
      → Step jwt secret max_connections g h
      → Reachable jwt secret max_connections h
