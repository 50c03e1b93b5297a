-- ===== src/Notify/Access.antt =====
-- A caller of the REST side sees and changes the caller's own notifications only.
use helpdesk_microservices.Base.{
  ℕ, ◌≤◌, ◌≡◌, ◌≢◌, refl, sym, ap, ◌∙◌, inl, inr, subst, not, ◌&&◌, ◌=s=◌, eq_iff, true, ==_iff,
  Bool-cases, Option-cases, none, some, String, All, All-map, length, Result, ok, ok-injective,
  arith,
}
use Prim.Native.String.{len, slice, ◌++◌}
use helpdesk_microservices.Db.{IsSorted, desc}
use helpdesk_microservices.Db.Selection.{Selected-All, Selected-IsSorted, Selected-length}
use helpdesk_microservices.Numeral.{parse_uint}
use helpdesk_microservices.Text.{token-after}
use helpdesk_microservices.Http.{Refusal, refusal, required-eq-ok, answered-eq-ok}
use helpdesk_microservices.Jwt.{Claims, SigningMethod, Unexpired, Jwt, hmac_only}
use helpdesk_microservices.Gateway.Identity.{hmac-only_lem}
use helpdesk_microservices.Notify.Inbox.{
  Notification, NotificationStore, inbox_query, list_notifications, mark_read, mark_all_read,
}
use helpdesk_microservices.Notify.Inbox.Backlog.{Request, perform, view, owner, Refines-others}
use helpdesk_microservices.Notify.Endpoints.{
  user_number, has_bearer, require_auth, inbox_limit, inbox_offset, InboxRequest, InboxReply,
  inbox_failed, list_handler, mark_read_handler, mark_all_read_handler, serve_inbox,
  max_inbox_limit,
}

-- The header is "Bearer " and a token that is signed with the secret, by HMAC, names that user, and has not
-- expired.
pub record Caller (jwt : Jwt) (secret : String) (now : ℕ) (header : String) (user : ℕ)
    : Type 0 where
  pub token : String
  pub carried : header ≡ "Bearer " ++ token
  pub claims : Claims
  pub signed : jwt.Signed SigningMethod.hmac secret claims token
  pub live : Unexpired now claims
  pub named : user_number claims.user_id ≡ some user

bearer-starts :
    (header : String)
    → (not (header =s= "") && has_bearer header) ≡ true
    → slice header 0 7 ≡ "Bearer "
unfolding has_bearer
bearer-starts header h = ground (arith, eq_iff (slice header 0 7) "Bearer ")

require_auth-Caller :
    (jwt : Jwt) (secret : String) (now : ℕ) (header : String) (user : ℕ)
    → require_auth jwt secret now header ≡ some user
    → Caller jwt secret now header user
unfolding require_auth
require_auth-Caller jwt secret now header user h =
    elim (Bool-cases (not (header =s= "") && has_bearer header)) [
      | inr e ↦ let failed = rw e at h in cc
      | inl e ↦
          let token = slice header 7 (len header) in
          elim (Option-cases (jwt.parse (hmac_only secret) now token)) [
            | inl bad ↦ let failed = rw (e, bad) at h in cc
            | inr (claims, parsed) ↦
                let (m, key, only, signed, live) =
                  jwt.parse_sound (hmac_only secret) now token claims parsed in
                let (is_hmac, is_secret) = hmac-only_lem jwt secret key m only in
                record {
                  token = token;
                  carried = token-after header (bearer-starts header e);
                  claims = claims;
                  signed = rw (is_hmac, is_secret) at signed;
                  live = live;
                  named = rw (e, parsed) at h;
                }
          ]
    ]

inbox_limit_le : (text : String) → inbox_limit text ≤ max_inbox_limit
unfolding inbox_limit
inbox_limit_le text = ground arith

-- What a reply lists: the user's own, newest first, at most a hundred.
abbrev pub ListsOwn : (user : ℕ) → InboxReply → Type 0
ListsOwn user (InboxReply.listed rows) =
    All (λ (n : Notification). n.user_id ≡ user) rows
    × IsSorted (λ (n : Notification). n.created_at) desc rows
    × (length rows ≤ 100)
ListsOwn user (InboxReply.marked message) = Unit {0}

module _ {Db : Type 0} (store : NotificationStore Db) where
  -- What an answer to a caller is and does.
  pub record Own (d e : Db) (reply : InboxReply) (user : ℕ) : Type 0 where
    pub lists : ListsOwn user reply
    pub others : (other : ℕ) → other ≢ user → view store e other ≡ view store d other

  list_handler-Own :
      (d e : Db) (unread_only page limit : String) (user : ℕ) (reply : InboxReply)
      → list_handler store d (some user) unread_only page limit ≡ ok (reply, e)
      → Own d e reply user
  unfolding list_handler list_notifications inbox_query
  list_handler-Own d e unread_only page limit user reply h =
      let (rows, found, last) =
        answered-eq-ok (λ _. inbox_failed "failed to list notifications")
          (list_notifications store d user (unread_only =s= "true") (inbox_limit limit)
            (inbox_offset page (inbox_limit limit)))
          _ h in
      let s = store.find_selected d _ rows found in
      let same = ok-injective last in
      let own =
        All-map (λ n q. (==_iff n.user_id user).0 (ground (arith, q))) rows (Selected-All s) in
      let few = Selected-length s (inbox_limit limit) refl in
      let listed : ListsOwn user (InboxReply.listed rows) =
        (own, Selected-IsSorted s, omega (arith, inbox_limit_le limit)) in
      record {
        lists = subst (ListsOwn user) (ap (λ (r : InboxReply × Db). r.0) same) listed;
        others = λ other p. ap (λ (x : InboxReply × Db). view store x.1 other) (sym same);
      }

  marked-Own :
      (d e e' : Db) (r : Request) (message : String) (reply : InboxReply)
      → perform store d r ≡ ok e'
      → ◌≡◌ {A = Result Refusal (InboxReply × Db)}
          (ok (InboxReply.marked message, e'))
          (ok (reply, e))
      → Own d e reply (owner r)
  marked-Own d e e' r message reply h last =
      let same = ok-injective last in
      record {
        lists = subst (ListsOwn (owner r)) (ap (λ (x : InboxReply × Db). x.0) same) tt;
        others = λ other p.
            ap (λ (x : InboxReply × Db). view store x.1 other) (sym same)
            ∙ Refines-others store d e' r other h p;
      }

  serve_user-Own :
      (d e : Db) (r : InboxRequest) (user : ℕ) (reply : InboxReply)
      → serve_inbox store d (some user) r ≡ ok (reply, e)
      → Own d e reply user
  unfolding serve_inbox mark_read_handler mark_all_read_handler perform
  serve_user-Own d e (InboxRequest.get_notifications unread_only page limit) user reply h =
      list_handler-Own d e unread_only page limit user reply h
  serve_user-Own d e (InboxRequest.patch_read text) user reply h =
      let (id, _, h1) =
        required-eq-ok (parse_uint text) (refusal 400 "invalid notification id" "BAD_REQUEST") _
          h in
      let (e', done, last) =
        answered-eq-ok (λ _. inbox_failed "failed to mark notification read")
          (mark_read store d id user) _ h1 in
      marked-Own d e e' (Request.read_one id user) "marked read" reply done last
  serve_user-Own d e InboxRequest.patch_read_all user reply h =
      let (e', done, last) =
        answered-eq-ok (λ _. inbox_failed "failed to mark notifications read")
          (mark_all_read store d user) _ h in
      marked-Own d e e' (Request.read_all user) "all marked read" reply done last

  no_user-refused :
      (d e : Db) (r : InboxRequest) (reply : InboxReply)
      → serve_inbox store d none r ≢ ok (reply, e)
  unfolding serve_inbox list_handler mark_read_handler mark_all_read_handler
  no_user-refused d e (InboxRequest.get_notifications unread_only page limit) reply h = cc
  no_user-refused d e (InboxRequest.patch_read text) reply h =
      let (id, _, h1) =
        required-eq-ok (parse_uint text) (refusal 400 "invalid notification id" "BAD_REQUEST") _
          h in
      cc
  no_user-refused d e InboxRequest.patch_read_all reply h = cc

  -- A request for notifications that is answered has the header "Bearer " and a token that is
  -- signed with the secret by HMAC, unexpired, and of a user. What it lists is that user's own,
  -- newest first, at most a hundred; and the notifications of every other user are as before.
  pub serve_inbox-Own :
      (jwt : Jwt) (secret : String) (now : ℕ) (header : String) (d e : Db) (r : InboxRequest)
      (reply : InboxReply)
      → serve_inbox store d (require_auth jwt secret now header) r ≡ ok (reply, e)
      → (user : ℕ) × Caller jwt secret now header user × Own d e reply user
  serve_inbox-Own jwt secret now header d e r reply h =
      elim (Option-cases (require_auth jwt secret now header)) [
        | inl nobody ↦ absurd (no_user-refused d e r reply (rw nobody at h))
        | inr (user, found) ↦ (
          user,
          require_auth-Caller jwt secret now header user found,
          serve_user-Own d e r user reply (rw found at h),
        )
      ]
