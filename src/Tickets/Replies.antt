-- ===== src/Tickets/Replies.antt =====
-- What the endpoints of the ticket service tell their callers and the notification service.
use helpdesk_microservices.Base.{
  ℕ, ◌≤◌, ◌≡◌, ◌≢◌, ◌⊎◌, refl, sym, ap, ◌∙◌, subst, inl, inr, Bool, true, false, not, ◌&&◌, ◌||◌,
  Option, none, some, String, List, [], ◌∷◌, ok, err, find_by, guard, guard-eq-ok, bind-eq-ok,
  lifted-eq-ok, ok-injective, arith, eq_iff, ◌=s=◌, if◌then◌else◌, Bool-cases, Option-cases, ℤ, pos,
  negsuc,
}
use helpdesk_microservices.Db.{DbError, has_key}
use helpdesk_microservices.Http.{Headers, Refusal, refusal, answered-eq-ok, bind_json-eq-ok}
use helpdesk_microservices.Numeral.{sscanf_uint}
use helpdesk_microservices.Tickets.Domain.{Ticket, TicketComment}
use helpdesk_microservices.Tickets.Store.{TicketStore, create_comment, find_by_id}
use helpdesk_microservices.Tickets.Usecase.{database, get_ticket_by_id}
use helpdesk_microservices.Tickets.Discussion.{add_comment}
use helpdesk_microservices.Tickets.Access.{Sees, get_ticket_by_id-Sees, get_ticket_by_id-forbidden}
use helpdesk_microservices.Tickets.Handler.{
  Event, scan_id, require_user, invalid_ticket_id, invalid_input, ticket_not_found, publish_event,
  ticket_activity_target, comment_events, CreateCommentRequest, valid_comment, page_limit,
  get_by_id, try_post_comment,
}

pub scan_id-eq-ok :
    (text : String) (r : Refusal) (id : ℕ)
    → scan_id text r ≡ ok id
    → (sscanf_uint text ≡ some id) × (id ≢ 0)
unfolding scan_id
scan_id-eq-ok text r id h = ground arith

-- A request that is let through names a user other than 0 and one of the three roles, as the headers
-- have them.
pub record IsCaller (h : Headers) (user : ℕ) (role : String) : Type 0 where
  pub numbered : sscanf_uint h.user_id ≡ some user
  pub nonzero : user ≢ 0
  pub given : role ≡ h.user_role
  pub known : (role ≡ "user") ⊎ (role ≡ "agent") ⊎ (role ≡ "admin")

known_role :
    (role : String)
    → (role =s= "user" || role =s= "agent" || role =s= "admin") ≡ true
    → (role ≡ "user") ⊎ (role ≡ "agent") ⊎ (role ≡ "admin")
known_role role h = ground (arith, eq_iff role "user", eq_iff role "agent", eq_iff role "admin")

-- A request that is let through names, in its headers, a user other than 0 and one of the three
-- roles, and these are the caller.
pub require_user-IsCaller :
    (h : Headers) (user : ℕ) (role : String)
    → require_user h ≡ ok (user, role)
    → IsCaller h user role
unfolding require_user
require_user-IsCaller h user role e =
    let (_, _, e1) =
      bind-eq-ok (guard (not (h.user_id =s= "")) (refusal 401 "unauthorized" "UNAUTHORIZED")) _ e in
    let (_, valid, e2) =
      bind-eq-ok
        (guard (h.user_role =s= "user" || h.user_role =s= "agent" || h.user_role =s= "admin")
          (refusal 403 "forbidden" "FORBIDDEN"))
        _ e1 in
    let (u, scanned, last) =
      bind-eq-ok (scan_id h.user_id (refusal 400 "invalid user id" "BAD_REQUEST")) _ e2 in
    let same_user : u ≡ user = ap (λ (p : ℕ × String). p.0) (ok-injective last) in
    let same_role : h.user_role ≡ role = ap (λ (p : ℕ × String). p.1) (ok-injective last) in
    let (text, positive) = scan_id-eq-ok h.user_id _ u scanned in
    record {
      numbered = text ∙ ap some same_user;
      nonzero = λ z. positive (same_user ∙ z);
      given = sym same_role;
      known =
          subst (λ r. (r ≡ "user") ⊎ (r ≡ "agent") ⊎ (r ≡ "admin")) same_role
            (known_role h.user_role (guard-eq-ok _ (refusal 403 "forbidden" "FORBIDDEN") valid));
    }

-- The page size is from 1 to 100 whatever the query says.
pub page_limit_bounds : (n : ℤ) → (1 ≤ page_limit n) × (page_limit n ≤ 100)
unfolding page_limit
page_limit_bounds (pos n) = ground arith
page_limit_bounds (negsuc n) = ground arith

-- Whom a comment or an attachment on the ticket is told to: what a plain user writes, to the agent of the
-- ticket, or to the admins where it has none; what the staff write, to the ticket's creator.
pub data IsTold (ticket : Ticket) (author_role : String) (e : Event) : Type 0 where
  to_agent :
      (agent : ℕ)
      → author_role ≡ "user"
      → ticket.assigned_agent_id ≡ some agent
      → e.target_user_id ≡ some agent
      → e.target_roles ≡ []
      → IsTold ticket author_role e
  to_admins :
      author_role ≡ "user"
      → ticket.assigned_agent_id ≡ none
      → e.target_user_id ≡ none
      → e.target_roles ≡ "admin" ∷ []
      → IsTold ticket author_role e
  to_creator :
      author_role ≢ "user"
      → e.target_user_id ≡ some ticket.user_id
      → e.target_roles ≡ []
      → IsTold ticket author_role e

activity-IsTold :
    (e : Event) (ticket : Ticket) (role : String)
    → e.target_user_id ≡ (ticket_activity_target ticket role).0
    → e.target_roles ≡ (ticket_activity_target ticket role).1
    → IsTold ticket role e
unfolding ticket_activity_target
activity-IsTold e ticket role h k = elim (Bool-cases (role =s= "user")) [
  | inl a ↦
      let is_user = (eq_iff role "user").0 a in
      elim (Option-cases ticket.assigned_agent_id) [
        | inl free ↦ to_admins is_user free (h ∙ rw (a, free) refl) (k ∙ rw (a, free) refl)
        | inr (agent, has) ↦
            to_agent agent is_user has (h ∙ rw (a, has) refl) (k ∙ rw (a, has) refl)
      ]
  | inr na ↦
      to_creator (λ same. let test = (eq_iff role "user").1 same in cc) (h ∙ rw na refl)
        (k ∙ rw na refl)
]

module _ {Db : Type 0} (store : TicketStore Db) where
  absent :
      (d : Db) (id user : ℕ) (role : String) (e : DbError)
      → store.tickets.first d id ≡ err e
      → get_ticket_by_id store d id user role ≡ err (database e)
  unfolding get_ticket_by_id find_by_id
  absent d id user role e missing = rw missing

  -- GET /tickets/{id} gives one and the same reply for a ticket that is not there and for one
  -- that the caller may not see.
  pub get_by_id-conceals :
      (d : Db) (h : Headers) (id_param : String) (user id : ℕ) (role : String)
      → require_user h ≡ ok (user, role)
      → scan_id id_param invalid_ticket_id ≡ ok id
      → ((e : DbError) × (store.tickets.first d id ≡ err e))
        ⊎ ((ticket : Ticket) × (store.tickets.first d id ≡ ok ticket) × (Sees user ticket role → ⊥))
      → get_by_id store d h id_param ≡ err ticket_not_found
  unfolding get_by_id
  get_by_id-conceals d h id_param user id role who which (inl (e, missing)) =
      rw (who, which, absent d id user role e missing)
  get_by_id-conceals d h id_param user id role who which (inr (ticket, read, hidden)) =
      rw (who, which, get_ticket_by_id-forbidden store d id user role ticket read hidden)

  -- A comment as stored keeps what it was given.
  add_comment_lem :
      (d e : Db) (id author : ℕ) (role body : String) (is_internal : Bool) (comment : TicketComment)
      (ticket : Ticket)
      → add_comment store d id author role body is_internal ≡ ok ((comment, ticket), e)
      → (find_by (has_key (λ t. t.id) id) (store.tickets.rows d) ≡ some ticket)
        × (comment.is_internal ≡ (is_internal && not (role =s= "user")))
        × (comment.ticket_id ≡ id)
        × (comment.author_id ≡ author)
        × (comment.body ≡ body)
  unfolding add_comment create_comment
  add_comment_lem d e id author role body is_internal comment ticket h =
      let (t, seen, rest) = bind-eq-ok (get_ticket_by_id store d id author role) _ h in
      let (made, eq, last) = lifted-eq-ok database (store.comments.create d _) _ rest in
      let same : made.0 ≡ comment = ground (arith, last) in
      let returned : t ≡ ticket = ground (arith, last) in
      let filled = store.comments.create_inserted d made.1 _ made.0 eq in
      let read = get_ticket_by_id-Sees store d id author role t seen in
      let row = store.tickets.first_found d id ticket (read.0 ∙ ap ok returned) in
      rw (← same, filled.filled) (row, refl, refl, refl, refl)

-- What a comment tells the notification service: nothing of an internal note, which a plain user
-- cannot write; of any other one event about the ticket, for the one that it concerns.
pub data Announces (connected : Bool) (ticket : Ticket) (role : String) (comment : TicketComment)
    : List Event → Type 0 where
  silent : comment.is_internal ≡ true → role ≢ "user" → Announces connected ticket role comment []
  told :
      {sent : List Event} (e : Event)
      → comment.is_internal ≡ false
      → e.kind ≡ "ticket_commented"
      → e.title ≡ comment.body
      → e.ticket_id ≡ comment.ticket_id
      → IsTold ticket role e
      → sent ≡ publish_event connected e
      → Announces connected ticket role comment sent

staff_note :
    (wanted : Bool) (role : String) (b : Bool)
    → b ≡ (wanted && not (role =s= "user"))
    → b ≡ true
    → role ≢ "user"
staff_note wanted role b h t e = ground (arith, eq_iff role "user")

comment_events-Announces :
    (connected wanted : Bool) (role body : String) (id : ℕ) (comment : TicketComment)
    (ticket : Ticket)
    → comment.is_internal ≡ (wanted && not (role =s= "user"))
    → comment.ticket_id ≡ id
    → comment.body ≡ body
    → Announces connected ticket role comment (comment_events connected id role body comment ticket)
unfolding comment_events
comment_events-Announces connected wanted role body id comment ticket h ticket_is body_is =
    elim (Bool-cases comment.is_internal) [
      | inl internal ↦
          subst (λ b. Announces connected ticket role comment (events b)) (sym internal)
            (silent internal (staff_note wanted role _ h internal))
      | inr public ↦
          subst (λ b. Announces connected ticket role comment (events b)) (sym public)
            (told event public refl (sym body_is) (sym ticket_is)
              (activity-IsTold event ticket role refl refl) refl)
    ]
  where
    event : Event
    event = record {
      kind = "ticket_commented";
      ticket_id = id;
      title = body;
      status = "";
      target_user_id = (ticket_activity_target ticket role).0;
      target_roles = (ticket_activity_target ticket role).1;
    }

    events : Bool → List Event
    events b = if not b then publish_event connected event else []

module _ {Db : Type 0} (store : TicketStore Db) (connected : Bool) where
  -- A comment that is posted is its caller's own, with the text of the body, on the ticket that
  -- the path names, which is there. An internal note is by staff and announces nothing; any
  -- other comment announces one event, with its text and its ticket: a plain user's to the
  -- agent of the ticket, or to the admins where it has none, and that of the staff to the
  -- ticket's creator.
  pub try_post_comment-Announces :
      (d e : Db) (h : Headers) (id_param : String) (body : Option CreateCommentRequest)
      (comment : TicketComment) (sent : List Event)
      → try_post_comment store connected d h id_param body ≡ ok (comment, e, sent)
      → (user : ℕ) × (role : String) × (req : CreateCommentRequest) × (ticket : Ticket) × IsCaller h
          user role
        × (body ≡ some req)
        × (comment.author_id ≡ user)
        × (comment.body ≡ req.body)
        × (sscanf_uint id_param ≡ some comment.ticket_id)
        × (find_by (has_key (λ t. t.id) comment.ticket_id) (store.tickets.rows d) ≡ some ticket)
        × Announces connected ticket role comment sent
  unfolding try_post_comment
  try_post_comment-Announces d e h id_param body comment sent made =
      let (who, called, made1) = bind-eq-ok (require_user h) _ made in
      let (id, scanned, made2) = bind-eq-ok (scan_id id_param invalid_ticket_id) _ made1 in
      let (req, bound, made3) = bind_json-eq-ok valid_comment invalid_input body _ made2 in
      let (added, done, last) =
        answered-eq-ok _ (add_comment store d id who.0 who.1 req.body req.is_internal) _ made3 in
      let same : added.0.0 ≡ comment =
        ap (λ (r : TicketComment × Db × List Event). r.0) (ok-injective last) in
      let events : comment_events connected id who.1 req.body added.0.0 added.0.1 ≡ sent =
        ap (λ (r : TicketComment × Db × List Event). r.2) (ok-injective last) in
      let (found, internal, ticket_is, author_is, body_is) =
        add_comment_lem store d added.1 id who.0 who.1 req.body req.is_internal added.0.0 added.0.1
          done in
      let told =
        comment_events-Announces connected req.is_internal who.1 req.body id added.0.0 added.0.1
          internal ticket_is body_is in
      let on_it : id ≡ comment.ticket_id =
        sym ticket_is ∙ ap (λ (c : TicketComment). c.ticket_id) same in
      (
        who.0,
        who.1,
        req,
        added.0.1,
        require_user-IsCaller h who.0 who.1 called,
        bound,
        ap (λ (c : TicketComment). c.author_id) (sym same) ∙ author_is,
        ap (λ (c : TicketComment). c.body) (sym same) ∙ body_is,
        (scan_id-eq-ok id_param invalid_ticket_id id scanned).0 ∙ ap some on_it,
        subst (λ i. find_by (has_key (λ t. t.id) i) (store.tickets.rows d) ≡ some added.0.1) on_it
            found,
        subst (λ c. Announces connected added.0.1 who.1 c sent) same
            (subst (λ s. Announces connected added.0.1 who.1 added.0.0 s) events told),
      )
