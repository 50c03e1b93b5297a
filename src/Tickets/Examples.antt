-- ===== src/Tickets/Examples.antt =====
-- A help desk with one ticket, on which the theorems on the ticket service are run.
use helpdesk_microservices.Base.{
  ℕ, ◌≡◌, refl, Bool, true, false, Option, none, some, String, List, [], ◌∷◌, keep, find_by, ok,
  pos,
}
use helpdesk_microservices.Db.{has_key}
use helpdesk_microservices.Db.Memory.{create_in, select_in}
use helpdesk_microservices.Http.{Headers}
use helpdesk_microservices.Numeral.{sscanf_uint}
use helpdesk_microservices.Tickets.Domain.{
  Ticket, TicketStatusHistory, TicketComment, TicketAttachment, TicketFilter,
}
use helpdesk_microservices.Tickets.Store.{
  TicketStore, find_by_id, transition_status, assign_and_transition, find_by_agent, apply_filter,
  create_comment,
}
use helpdesk_microservices.Tickets.Store.Memory.{MemoryDb, memory_store}
use helpdesk_microservices.Tickets.Usecase.{
  update_status, assign_ticket, get_ticket_by_id, get_tickets, allowed_transitions, contains_text,
  may_move, may_see, assignee,
}
use helpdesk_microservices.Tickets.Discussion.{add_comment}
use helpdesk_microservices.Tickets.Handler.{
  CreateCommentRequest, scan_id, require_user, publish_event, ticket_activity_target,
  comment_events, try_post_comment,
}
use helpdesk_microservices.Tickets.Lifecycle.{StatusChanged, update_status-StatusChanged}
use helpdesk_microservices.Tickets.Assignment.{Assignment, assign_ticket-Assignment}
use helpdesk_microservices.Tickets.Access.{Sees, get_ticket_by_id-Sees}
use helpdesk_microservices.Tickets.Listing.{IsPage, get_tickets-IsPage}
use helpdesk_microservices.Tickets.Audit.{Audited, Request, after_requests, after_requests-Audited}
use helpdesk_microservices.Tickets.Routes.{Endpoint, Guarded, reach, only_internal, reach-Guarded}
use helpdesk_microservices.Tickets.Replies.{IsCaller, Announces, try_post_comment-Announces}

abbrev store : TicketStore MemoryDb
store = memory_store 50

abbrev broken_printer : Ticket
broken_printer = record {
  id = 7;
  title = "printer";
  description = "broken";
  user_id = 2;
  assigned_agent_id = some 3;
  status = "assigned";
  priority = "High";
  department = "Helpdesk";
  assigned_at = some 20;
  resolved_at = none;
  closed_at = none;
  due_at = some 14410;
  created_at = 10;
}

abbrev entry : TicketStatusHistory
entry = record {
  id = 1;
  ticket_id = 7;
  from_status = "open";
  to_status = "assigned";
  changed_by = 3;
  changed_at = 20;
}

abbrev desk : MemoryDb
desk = record {
  tickets = broken_printer ∷ [];
  histories = entry ∷ [];
  comments = [];
  attachments = [];
}

-- The desk after the agent has started work on the ticket.
abbrev started : MemoryDb
started = record desk {
  tickets = record broken_printer { status = "in_progress" } ∷ [];
  histories =
      entry
      ∷ (record {
        id = 2;
        ticket_id = 7;
        from_status = "assigned";
        to_status = "in_progress";
        changed_by = 3;
        changed_at = 30;
      })
      ∷ [];
}

update_status-StatusChanged_example :
    StatusChanged store 7 3 "agent" "in_progress" 30 desk
      (record broken_printer { status = "in_progress" })
      started
unfolding update_status find_by_id transition_status memory_store create_in may_move contains_text
    allowed_transitions
update_status-StatusChanged_example =
    update_status-StatusChanged store desk started 30 7 3 "agent" "in_progress"
      (record broken_printer { status = "in_progress" }) refl

-- The desk after an admin has given the ticket to another agent.
abbrev reassigned : MemoryDb
reassigned = record desk {
  tickets =
      record broken_printer {
        assigned_agent_id = some 5;
        assigned_at = some 40;
        status = "assigned";
      }
      ∷ [];
  histories =
      entry
      ∷ (record {
        id = 2;
        ticket_id = 7;
        from_status = "assigned";
        to_status = "assigned";
        changed_by = 1;
        changed_at = 40;
      })
      ∷ [];
}

assign_ticket-Assignment_example : Assignment store 7 1 "admin" 5 40 desk 5 reassigned
unfolding assign_ticket assignee find_by_id assign_and_transition memory_store create_in
assign_ticket-Assignment_example =
    assign_ticket-Assignment store desk reassigned 40 7 1 "admin" 5 5 refl

get_ticket_by_id-Sees_example :
    (store.tickets.first desk 7 ≡ ok broken_printer)
    × (broken_printer.id ≡ 7)
    × Sees 2 broken_printer "user"
unfolding get_ticket_by_id may_see find_by_id memory_store
get_ticket_by_id-Sees_example = get_ticket_by_id-Sees store desk 7 2 "user" broken_printer refl

abbrev note : Bool → ℕ → TicketComment
note is_internal id = record {
  id = id;
  ticket_id = 7;
  author_id = 3;
  author_role = "agent";
  body = "no toner";
  is_internal = is_internal;
  created_at = id;
}

abbrev photo : TicketAttachment
photo = record {
  id = 4;
  ticket_id = 7;
  uploader_id = 2;
  filename = "printer.png";
  content_type = "image/png";
  size = 3;
  content = 1 ∷ 2 ∷ 3 ∷ [];
  created_at = 12;
}

abbrev no_filter : TicketFilter
no_filter = record {
  status = "";
  priority = "High";
  department = "";
  from = none;
  to = none;
  search = "";
  overdue = false;
}

get_tickets-IsPage_example : IsPage store 30 3 "agent" "" no_filter 10 (broken_printer ∷ [])
unfolding get_tickets find_by_agent apply_filter memory_store select_in keep
get_tickets-IsPage_example =
    get_tickets-IsPage store desk 30 3 "agent" "" no_filter 10 (pos 0) (broken_printer ∷ []) refl

abbrev asked_by : (user role : String) → Headers
asked_by user role = record {
  authorization = "";
  request_id = "r1";
  internal_secret = "s";
  user_id = user;
  user_role = role;
}

abbrev asking : CreateCommentRequest
asking = record { body = "no toner"; is_internal = false }

try_post_comment-Announces_example :
    (user : ℕ) × (role : String) × (req : CreateCommentRequest) × (ticket : Ticket) × IsCaller
      (asked_by "3" "agent")
      user
      role
    × (◌≡◌ {A = Option CreateCommentRequest} (some asking) (some req))
    × (3 ≡ user)
    × ("no toner" ≡ req.body)
    × (sscanf_uint "7" ≡ some 7)
    × (find_by (has_key (λ (t : Ticket). t.id) 7) (store.tickets.rows desk) ≡ some ticket)
    × Announces true ticket role
        (record (note false 1) { created_at = 50 })
        ((record {
          kind = "ticket_commented";
          ticket_id = 7;
          title = "no toner";
          status = "";
          target_user_id = some 2;
          target_roles = [];
        })
          ∷ [])
unfolding try_post_comment require_user scan_id sscanf_uint add_comment get_ticket_by_id may_see
    find_by_id create_comment comment_events publish_event ticket_activity_target memory_store
    create_in
try_post_comment-Announces_example =
    try_post_comment-Announces store true desk
      (record desk { comments = record (note false 1) { created_at = 50 } ∷ [] })
      (asked_by "3" "agent") "7" (some asking) (record (note false 1) { created_at = 50 }) _ refl

desk-Audited : Audited store desk
unfolding memory_store keep
desk-Audited = record {
  distinct = (tt, tt);
  explained = ((refl, refl), tt);
  anchored = ((λ none_such. none_such.0 refl), tt);
}

abbrev busy_day : List Request
busy_day =
    Request.moves 30 (asked_by "3" "agent") "7" (some "in_progress")
    ∷ Request.assigns 40 (asked_by "1" "admin") "7" 5
    ∷ Request.moves 50 (asked_by "5" "agent") "7" (some "closed")
    ∷ []

after_requests-Audited_example : Audited store (after_requests store true desk busy_day)
after_requests-Audited_example = after_requests-Audited store true desk busy_day desk-Audited

reach-Guarded_example : Guarded "s" false true (asked_by "3" "agent") Endpoint.create_attachment
unfolding reach only_internal find_by
reach-Guarded_example =
    reach-Guarded "s" false true (asked_by "3" "agent") "POST"
      ("tickets" ∷ "7" ∷ "attachments" ∷ []) Endpoint.create_attachment refl
