-- ===== src/Notify/Endpoints.antt =====
-- The REST side of the notification service: auth.go, notification_handler.go and its routes in cmd/main.go.
use Prim.Native.String.{len, slice}
use helpdesk_microservices.Base.{
  ℕ, ◌-◌, ◌*◌, ltb, leb, ◌=s=◌, Bool, not, ◌&&◌, Option, none, some, String, List, Result, ok,
  ◌>>=◌, if◌then◌else◌, ℤ, pos, negsuc, wrap64,
}
use helpdesk_microservices.Numeral.{parse_uint, atoi}
use helpdesk_microservices.Http.{Refusal, refusal, answer, or_refuse}
use helpdesk_microservices.Jwt.{Claim, Jwt, hmac_only}
use helpdesk_microservices.Notify.Inbox.{
  Notification, NotificationStore, list_notifications, mark_read, mark_all_read,
}

-- A number among the claims; another kind of claim is no user.
abbrev pub user_number : Option Claim → Option ℕ
user_number (some (Claim.number n)) = some n
user_number _ = none

unfoldable pub has_bearer : String → Bool
has_bearer header = leb 7 (len header) && slice header 0 7 =s= "Bearer "

module _ (jwt : Jwt) where
  -- The caller of a request, from its Authorization header.
  unfoldable pub require_auth : (secret : String) → (now : ℕ) → (header : String) → Option ℕ
  unfolding has_bearer
  require_auth secret now header =
      if not (header =s= "") && has_bearer header
      then (elim (jwt.parse (hmac_only secret) now (slice header 7 (len header))) [
        | none ↦ none
        | some claims ↦ user_number claims.user_id
      ])
      else none

abbrev pub inbox_page_limit : ℕ
inbox_page_limit = 20

abbrev pub max_inbox_limit : ℕ
max_inbox_limit = 100

-- `Atoi`, with a default where it fails or is not positive.
unfoldable pub positive_or : (default : ℕ) → Option ℤ → ℕ
positive_or default none = default
positive_or default (some (pos n)) = if ltb 0 n then n else default
positive_or default (some (negsuc n)) = default

unfoldable pub inbox_limit : String → ℕ
unfolding positive_or
inbox_limit text =
    let limit = positive_or inbox_page_limit (atoi text) in
    if ltb max_inbox_limit limit then max_inbox_limit else limit

-- `(page - 1) * limit` in 64 bits.
unfoldable pub inbox_offset : (page : String) → (limit : ℕ) → ℤ
unfolding positive_or
inbox_offset page limit = wrap64 ((positive_or 1 (atoi page) - 1) * limit)

-- A request to the routes that need a caller, with its query or path texts.
pub data InboxRequest : Type 0 where
  get_notifications : (unread_only page limit : String) → InboxRequest
  patch_read : (id : String) → InboxRequest
  patch_read_all : InboxRequest

pub data InboxReply : Type 0 where
  listed : List Notification → InboxReply
  marked : String → InboxReply

abbrev pub no_caller : Refusal
no_caller = refusal 401 "unauthorized" "UNAUTHORIZED"

abbrev pub inbox_failed : String → Refusal
inbox_failed message = refusal 500 message "INTERNAL_ERROR"

module _ {Db : Type 0} (store : NotificationStore Db) (d : Db) (caller : Option ℕ) where
  unfoldable pub list_handler : (unread_only page limit : String) → Result Refusal (InboxReply × Db)
  list_handler unread_only page limit = do
    user ← or_refuse caller no_caller
    rows ←
        answer (λ _. inbox_failed "failed to list notifications")
          (list_notifications store d user (unread_only =s= "true") (inbox_limit limit)
            (inbox_offset page (inbox_limit limit)))
    ok (InboxReply.listed rows, d)

  unfoldable pub mark_read_handler : (id : ℕ) → Result Refusal (InboxReply × Db)
  mark_read_handler id = do
    user ← or_refuse caller no_caller
    e ← answer (λ _. inbox_failed "failed to mark notification read") (mark_read store d id user)
    ok (InboxReply.marked "marked read", e)

  unfoldable pub mark_all_read_handler : Result Refusal (InboxReply × Db)
  mark_all_read_handler = do
    user ← or_refuse caller no_caller
    e ← answer (λ _. inbox_failed "failed to mark notifications read") (mark_all_read store d user)
    ok (InboxReply.marked "all marked read", e)

  -- The mux: the id of a path is read before the caller is.
  unfoldable pub serve_inbox : InboxRequest → Result Refusal (InboxReply × Db)
  unfolding list_handler mark_read_handler mark_all_read_handler
  serve_inbox (InboxRequest.get_notifications unread_only page limit) =
      list_handler unread_only page limit
  serve_inbox (InboxRequest.patch_read id_text) = do
    id ← or_refuse (parse_uint id_text) (refusal 400 "invalid notification id" "BAD_REQUEST")
    mark_read_handler id
  serve_inbox InboxRequest.patch_read_all = mark_all_read_handler
