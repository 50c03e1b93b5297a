-- ===== src/Tickets/Store/Defs.antt =====
-- ticket_repository.go, comment_repository.go and attachment_repository.go.
use helpdesk_microservices.Base.{
  ℕ, ◌≡◌, ltb, leb, ◌==◌, ◌=s=◌, Bool, true, false, not, ◌&&◌, ◌||◌, Option, none, some, String,
  List, [], map, Result, ok, ◌>>=◌, if◌then◌else◌, ℤ, pos,
}
use helpdesk_microservices.Db.{DbError, asc, desc, Query, Table}
use helpdesk_microservices.Tickets.Domain.{
  Ticket, ticket_defaults, TicketStatusHistory, history_defaults, TicketComment, comment_defaults,
  TicketAttachment, attachment_defaults, TicketFilter, status_assigned, status_resolved,
  status_closed,
}

-- The database of the service: its tables, `Transaction`, and the operator ILIKE. A transaction
-- that succeeds has made the changes of its body, and one that fails has made none. A statement on
-- one table leaves the rows of the others alone.
pub record TicketStore (Db : Type 0) : Type 0 where
  pub tickets : Table Db Ticket (λ t. t.id) ticket_defaults
  pub histories : Table Db TicketStatusHistory (λ h. h.id) history_defaults
  pub comments : Table Db TicketComment (λ c. c.id) comment_defaults
  pub attachments : Table Db TicketAttachment (λ a. a.id) attachment_defaults
  pub transaction : Db → (Db → Result DbError Db) → Result DbError Db
  pub ilike : String → String → Bool
  pub transaction_body :
      (d e : Db) (body : Db → Result DbError Db) → transaction d body ≡ ok e → body d ≡ ok e
  pub updates_keep_histories :
      (d e : Db) (p : Ticket → Bool) (f : Ticket → Ticket)
      → tickets.updates d p f ≡ ok e
      → histories.rows e ≡ histories.rows d
  pub tickets_keep_histories :
      (d e : Db) (row stored : Ticket)
      → tickets.create d row ≡ ok (stored, e)
      → histories.rows e ≡ histories.rows d
  pub histories_keep_tickets :
      (d e : Db) (row stored : TicketStatusHistory)
      → histories.create d row ≡ ok (stored, e)
      → tickets.rows e ≡ tickets.rows d
  pub comments_keep_tickets :
      (d e : Db) (row stored : TicketComment)
      → comments.create d row ≡ ok (stored, e)
      → (tickets.rows e ≡ tickets.rows d) × (histories.rows e ≡ histories.rows d)
  pub attachments_keep_tickets :
      (d e : Db) (row stored : TicketAttachment)
      → attachments.create d row ≡ ok (stored, e)
      → (tickets.rows e ≡ tickets.rows d) × (histories.rows e ≡ histories.rows d)

-- `column = ?` for a column that may be NULL.
abbrev pub is_id : Option ℕ → ℕ → Bool
is_id none i = false
is_id (some j) i = j == i

abbrev pub is_null : Option ℕ → Bool
is_null none = true
is_null (some _) = false

-- `Order("id desc").Limit(…).Offset(…)`.
abbrev pub newest_first : (Ticket → Bool) → ℕ → ℤ → Query Ticket
newest_first p limit offset = record {
  matching = p;
  sort_key = λ t. t.id;
  direction = desc;
  limit = some limit;
  offset = offset;
}

-- The columns that an assignment writes.
abbrev pub assigned_to : ℕ → ℕ → Ticket → Ticket
assigned_to agent now t = record t {
  assigned_agent_id = some agent;
  assigned_at = some now;
  status = status_assigned;
}

-- The columns that a status change writes.
abbrev pub moved_to : String → ℕ → Ticket → Ticket
moved_to to_status now t = record t {
  status = to_status;
  resolved_at = if to_status =s= status_resolved then some now else t.resolved_at;
  closed_at = if to_status =s= status_closed then some now else t.closed_at;
}

abbrev pub without_content : TicketAttachment → TicketAttachment
without_content a = record a { content = [] }

module _ {Db : Type 0} (store : TicketStore Db) where
  -- The WHERE clause that a filter adds; `now` is the clock that an overdue filter reads.
  unfoldable pub apply_filter : ℕ → TicketFilter → Ticket → Bool
  apply_filter now f t =
      (f.status =s= "" || t.status =s= f.status)
      && (f.priority =s= "" || t.priority =s= f.priority)
      && (f.department =s= "" || t.department =s= f.department)
      && (elim f.from [ none ↦ true | some from ↦ leb from t.created_at ])
      && (elim f.to [ none ↦ true | some to ↦ leb t.created_at to ])
      && (f.search =s= "" || store.ilike t.title f.search || store.ilike t.description f.search)
      && (not f.overdue
          || (elim t.due_at [ none ↦ false | some due ↦ ltb due now ])
            && not (t.status =s= status_resolved || t.status =s= status_closed))

  unfoldable pub create_ticket : Db → Ticket → Result DbError (Ticket × Db)
  create_ticket d t = store.tickets.create d t

  unfoldable pub find_all : Db → ℕ → TicketFilter → ℕ → ℤ → Result DbError (List Ticket)
  find_all d now f limit offset =
      store.tickets.find d (newest_first (apply_filter now f) limit offset)

  unfoldable pub find_by_user : Db → ℕ → ℕ → TicketFilter → ℕ → ℤ → Result DbError (List Ticket)
  find_by_user d now user f limit offset =
      store.tickets.find d
        (newest_first (λ t. t.user_id == user && apply_filter now f t) limit offset)

  unfoldable pub find_by_agent : Db → ℕ → ℕ → TicketFilter → ℕ → ℤ → Result DbError (List Ticket)
  find_by_agent d now agent f limit offset =
      store.tickets.find d
        (newest_first (λ t. is_id t.assigned_agent_id agent && apply_filter now f t) limit offset)

  unfoldable pub find_unassigned : Db → ℕ → TicketFilter → ℕ → ℤ → Result DbError (List Ticket)
  find_unassigned d now f limit offset =
      store.tickets.find d
        (newest_first (λ t. is_null t.assigned_agent_id && apply_filter now f t) limit offset)

  unfoldable pub find_by_id : Db → ℕ → Result DbError Ticket
  find_by_id d id = store.tickets.first d id

  unfoldable pub assign_and_transition :
      Db → (ticket agent changed_by changed_at : ℕ) → Result DbError Db
  assign_and_transition d id agent changed_by changed_at = store.transaction d λ tx. do
    ticket ← store.tickets.first tx id
    tx' ← store.tickets.updates tx (λ t. t.id == ticket.id) (assigned_to agent changed_at)
    (_, tx'') ← store.histories.create tx' (record {
      id = 0;
      ticket_id = id;
      from_status = ticket.status;
      to_status = status_assigned;
      changed_by = changed_by;
      changed_at = changed_at;
    })
    ok tx''

  unfoldable pub transition_status :
      Db → ℕ → (from_status to_status : String) → (changed_by changed_at : ℕ) → Result DbError Db
  transition_status d id from_status to_status changed_by changed_at = store.transaction d λ tx. do
    tx' ← store.tickets.updates tx (λ t. t.id == id) (moved_to to_status changed_at)
    (_, tx'') ← store.histories.create tx' (record {
      id = 0;
      ticket_id = id;
      from_status = from_status;
      to_status = to_status;
      changed_by = changed_by;
      changed_at = changed_at;
    })
    ok tx''

  unfoldable pub find_history : Db → ℕ → Result DbError (List TicketStatusHistory)
  find_history d id = store.histories.find d (record {
    matching = λ h. h.ticket_id == id;
    sort_key = λ h. h.changed_at;
    direction = asc;
    limit = none;
    offset = pos 0;
  })

  unfoldable pub create_comment : Db → TicketComment → Result DbError (TicketComment × Db)
  create_comment d c = store.comments.create d c

  unfoldable pub find_comments : Db → ℕ → Result DbError (List TicketComment)
  find_comments d id = store.comments.find d (record {
    matching = λ c. c.ticket_id == id;
    sort_key = λ c. c.created_at;
    direction = asc;
    limit = none;
    offset = pos 0;
  })

  unfoldable pub create_attachment : Db → TicketAttachment → Result DbError (TicketAttachment × Db)
  create_attachment d a = store.attachments.create d a

  -- `Select` leaves the content out of a listing.
  unfoldable pub find_attachments : Db → ℕ → Result DbError (List TicketAttachment)
  find_attachments d id = do
    found ← store.attachments.find d (record {
      matching = λ a. a.ticket_id == id;
      sort_key = λ a. a.created_at;
      direction = asc;
      limit = none;
      offset = pos 0;
    })
    ok (map without_content found)

  unfoldable pub find_attachment : Db → ℕ → Result DbError TicketAttachment
  find_attachment d id = store.attachments.first d id
