-- ===== src/Tickets/Handler/Endpoints.antt =====
-- handler.go and comment_handler.go. `now` is the clock, `connected` whether there is a publisher.
use helpdesk_microservices.Base.{
  ℕ, ◌+◌, ◌-◌, ◌*◌, ltb, ◌=s=◌, Bool, not, Option, none, some, String, List, [], ◌∷◌, Result, ok,
  ◌>>=◌, if◌then◌else◌, ℤ, pos, negsuc, wrap64,
}
use helpdesk_microservices.Http.{Headers, Refusal, refusal, Served, serve, answer, bind_json}
use helpdesk_microservices.Numeral.{sscanf_int}
use helpdesk_microservices.Tickets.Domain.{
  Ticket, TicketStatusHistory, TicketComment, TicketFilter, status_assigned,
}
use helpdesk_microservices.Tickets.Store.{TicketStore}
use helpdesk_microservices.Tickets.Usecase.{
  create, get_tickets, get_ticket_by_id, get_ticket_history, assign_ticket, update_status,
}
use helpdesk_microservices.Tickets.Discussion.{add_comment, list_comments}
use helpdesk_microservices.Tickets.Handler.Requests.{
  Event, scan_id, require_user, invalid_ticket_id, invalid_input, ticket_not_found, publish_event,
  ticket_activity_target, assign_refusal, status_refusal, CreateTicketRequest, CreateCommentRequest,
  valid_ticket, valid_status, valid_comment,
}

-- The query of GET /tickets.
pub record ListQuery : Type 0 where
  pub page : String
  pub limit : String
  pub scope : String
  pub status : String
  pub priority : String
  pub department : String
  pub search : String
  pub overdue : String
  pub from : String
  pub to : String

-- A number in the query; what is missing or does not scan leaves the default.
abbrev pub query_int : String → ℤ → ℤ
query_int text default =
    if text =s= "" then default else (elim (sscanf_int text) [ none ↦ default | some n ↦ n ])

abbrev pub default_page_limit : ℕ
default_page_limit = 10

abbrev pub max_page_limit : ℕ
max_page_limit = 100

unfoldable pub page_number : ℤ → ℕ
page_number (pos n) = if ltb n 1 then 1 else n
page_number (negsuc n) = 1

unfoldable pub page_limit : ℤ → ℕ
page_limit (pos n) =
    let limit = if ltb n 1 then default_page_limit else n in
    if ltb max_page_limit limit then max_page_limit else limit
page_limit (negsuc n) = default_page_limit

-- `(page - 1) * limit` in 64 bits.
unfoldable pub page_offset : ℕ → ℕ → ℤ
page_offset page limit = wrap64 ((page - 1) * limit)

-- Where a date parses, `from` is its first second and `to` its last.
module _ (parse_date : String → Option ℕ) where
  unfoldable pub list_filter : ListQuery → TicketFilter
  list_filter q = record {
    status = q.status;
    priority = q.priority;
    department = q.department;
    from = if q.from =s= "" then none else parse_date q.from;
    to =
        if q.to =s= ""
        then none
        else (elim (parse_date q.to) [ none ↦ none | some day ↦ some (day + (24 * 3600 - 1)) ]);
    search = q.search;
    overdue = q.overdue =s= "true";
  }

abbrev no_event : Event
no_event = record {
  kind = "";
  ticket_id = 0;
  title = "";
  status = "";
  target_user_id = none;
  target_roles = [];
}

-- The ticket that POST /tickets makes of its body, with the defaults for what is empty.
unfoldable pub requested_ticket : ℕ → CreateTicketRequest → Ticket
requested_ticket user req = record {
  id = 0;
  title = req.title;
  description = req.description;
  user_id = user;
  assigned_agent_id = none;
  status = "";
  priority = if req.priority =s= "" then "Medium" else req.priority;
  department = if req.department =s= "" then "Helpdesk" else req.department;
  assigned_at = none;
  resolved_at = none;
  closed_at = none;
  due_at = none;
  created_at = 0;
}

-- An internal note publishes nothing.
unfoldable pub comment_events :
    (connected : Bool) (id : ℕ) (role body : String) → TicketComment → Ticket → List Event
comment_events connected id role body comment ticket =
    let (target_user, roles) = ticket_activity_target ticket role in
    if not comment.is_internal
    then publish_event connected (record no_event {
      kind = "ticket_commented";
      ticket_id = id;
      title = body;
      target_user_id = target_user;
      target_roles = roles;
    })
    else []

module _ {Db : Type 0} (store : TicketStore Db) where
  unfoldable pub list_tickets :
      (String → Option ℕ) → Db → ℕ → Headers → ListQuery → Result Refusal (List Ticket)
  list_tickets parse_date d now headers q = do
    (user, role) ← require_user headers
    let page = page_number (query_int q.page (pos 1))
    let limit = page_limit (query_int q.limit (pos default_page_limit))
    answer (λ _. refusal 500 "failed get tickets" "INTERNAL_ERROR")
        (get_tickets store d now user role q.scope (list_filter parse_date q) limit
          (page_offset page limit))

  unfoldable pub get_by_id : Db → Headers → (id : String) → Result Refusal Ticket
  get_by_id d headers id_param = do
    (user, role) ← require_user headers
    id ← scan_id id_param invalid_ticket_id
    answer (λ _. ticket_not_found) (get_ticket_by_id store d id user role)

  unfoldable pub get_history :
      Db → Headers → (id : String) → Result Refusal (List TicketStatusHistory)
  get_history d headers id_param = do
    (user, role) ← require_user headers
    id ← scan_id id_param invalid_ticket_id
    answer (λ _. ticket_not_found) (get_ticket_history store d id user role)

  unfoldable pub get_comments : Db → Headers → (id : String) → Result Refusal (List TicketComment)
  get_comments d headers id_param = do
    (user, role) ← require_user headers
    id ← scan_id id_param invalid_ticket_id
    answer (λ _. ticket_not_found) (list_comments store d id user role)

module _ {Db : Type 0} (store : TicketStore Db) (connected : Bool) where
  unfoldable pub try_post_ticket :
      Db → ℕ → Headers → Option CreateTicketRequest → Result Refusal (String × Db × List Event)
  try_post_ticket d now headers body = do
    req ← bind_json valid_ticket invalid_input body
    (user, _) ← require_user headers
    (ticket, d') ←
        answer (λ _. refusal 500 "failed create ticket" "INTERNAL_ERROR")
          (create store d now (requested_ticket user req))
    ok (
      "ticket created",
      d',
      publish_event connected (record no_event {
        kind = "ticket_created";
        ticket_id = ticket.id;
        title = ticket.title;
        target_roles = "admin" ∷ "agent" ∷ [];
      }),
    )

  unfoldable pub post_ticket :
      Db → ℕ → Headers → Option CreateTicketRequest → Served Db Event String
  unfolding try_post_ticket
  post_ticket d now headers body = serve d (try_post_ticket d now headers body)

  -- `agent_id` is what the optional body leaves in the request, 0 without one.
  unfoldable pub try_patch_assign :
      Db → ℕ → Headers → (id : String) → (agent_id : ℕ) → Result Refusal (String × Db × List Event)
  try_patch_assign d now headers id_param agent_id = do
    (user, role) ← require_user headers
    id ← scan_id id_param invalid_ticket_id
    (agent, d') ← answer assign_refusal (assign_ticket store d now id user role agent_id)
    ok (
      "ticket assigned",
      d',
      publish_event connected (record no_event {
        kind = "ticket_assigned";
        ticket_id = id;
        status = status_assigned;
        target_user_id = some agent;
      }),
    )

  unfoldable pub patch_assign :
      Db → ℕ → Headers → (id : String) → (agent_id : ℕ) → Served Db Event String
  unfolding try_patch_assign
  patch_assign d now headers id_param agent_id =
      serve d (try_patch_assign d now headers id_param agent_id)

  unfoldable pub try_patch_status :
      Db → ℕ → Headers → (id : String) → Option String → Result Refusal (String × Db × List Event)
  try_patch_status d now headers id_param body = do
    (user, role) ← require_user headers
    id ← scan_id id_param invalid_ticket_id
    new_status ← bind_json valid_status invalid_input body
    (ticket, d') ← answer status_refusal (update_status store d now id user role new_status)
    ok (
      "status updated",
      d',
      publish_event connected (record no_event {
        kind = "ticket_status_changed";
        ticket_id = id;
        status = new_status;
        target_user_id = some ticket.user_id;
      }),
    )

  unfoldable pub patch_status :
      Db → ℕ → Headers → (id : String) → Option String → Served Db Event String
  unfolding try_patch_status
  patch_status d now headers id_param body = serve d (try_patch_status d now headers id_param body)

  unfoldable pub try_post_comment :
      Db
      → Headers
      → (id : String) → Option CreateCommentRequest
      → Result Refusal (TicketComment × Db × List Event)
  try_post_comment d headers id_param body = do
    (user, role) ← require_user headers
    id ← scan_id id_param invalid_ticket_id
    req ← bind_json valid_comment invalid_input body
    ((comment, ticket), d') ←
        answer (λ _. ticket_not_found) (add_comment store d id user role req.body req.is_internal)
    ok (comment, d', comment_events connected id role req.body comment ticket)

  unfoldable pub post_comment :
      Db → Headers → (id : String) → Option CreateCommentRequest → Served Db Event TicketComment
  unfolding try_post_comment
  post_comment d headers id_param body = serve d (try_post_comment d headers id_param body)
