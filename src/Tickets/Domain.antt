-- ===== src/Tickets/Domain.antt =====
-- internal/domain of the ticket service. Instants are natural numbers of seconds, 0 being Go's zero
-- time; `UpdatedAt`, which GORM alone writes and nothing reads, is left out.
use helpdesk_microservices.Base.{ℕ, ◌==◌, ◌=s=◌, Bool, Option, String, List, if◌then◌else◌}

abbrev pub status_open : String
status_open = "open"

abbrev pub status_assigned : String
status_assigned = "assigned"

abbrev pub status_in_progress : String
status_in_progress = "in_progress"

abbrev pub status_pending : String
status_pending = "pending"

abbrev pub status_resolved : String
status_resolved = "resolved"

abbrev pub status_closed : String
status_closed = "closed"

pub record Ticket : Type 0 where
  pub id : ℕ
  pub title : String
  pub description : String
  pub user_id : ℕ
  pub assigned_agent_id : Option ℕ
  pub status : String
  pub priority : String
  pub department : String
  pub assigned_at : Option ℕ
  pub resolved_at : Option ℕ
  pub closed_at : Option ℕ
  pub due_at : Option ℕ
  pub created_at : ℕ

-- What an insert fills in: the key, the column defaults of the struct tags, the creation time.
abbrev pub or_id : ℕ → ℕ → ℕ
or_id given new = if given == 0 then new else given

abbrev pub or_text : String → String → String
or_text given default = if given =s= "" then default else given

abbrev pub ticket_defaults : ℕ → ℕ → Ticket → Ticket
ticket_defaults id now t = record t {
  id = or_id t.id id;
  status = or_text t.status status_open;
  priority = or_text t.priority "Medium";
  created_at = or_id t.created_at now;
}

pub record TicketStatusHistory : Type 0 where
  pub id : ℕ
  pub ticket_id : ℕ
  pub from_status : String
  pub to_status : String
  pub changed_by : ℕ
  pub changed_at : ℕ

abbrev pub history_defaults : ℕ → ℕ → TicketStatusHistory → TicketStatusHistory
history_defaults id now h = record h { id = or_id h.id id }

pub record TicketComment : Type 0 where
  pub id : ℕ
  pub ticket_id : ℕ
  pub author_id : ℕ
  pub author_role : String
  pub body : String
  pub is_internal : Bool
  pub created_at : ℕ

abbrev pub comment_defaults : ℕ → ℕ → TicketComment → TicketComment
comment_defaults id now c = record c { id = or_id c.id id; created_at = or_id c.created_at now }

-- `Data` is the file's bytes.
pub record TicketAttachment : Type 0 where
  pub id : ℕ
  pub ticket_id : ℕ
  pub uploader_id : ℕ
  pub filename : String
  pub content_type : String
  pub size : ℕ
  pub content : List ℕ
  pub created_at : ℕ

abbrev pub attachment_defaults : ℕ → ℕ → TicketAttachment → TicketAttachment
attachment_defaults id now a = record a { id = or_id a.id id; created_at = or_id a.created_at now }

-- Empty texts and `none` mean "no filter".
pub record TicketFilter : Type 0 where
  pub status : String
  pub priority : String
  pub department : String
  pub from : Option ℕ
  pub to : Option ℕ
  pub search : String
  pub overdue : Bool
