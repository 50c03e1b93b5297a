-- ===== src/Tickets/Usecase.antt =====
-- internal/usecase/ticket_usecase.go: who may see, assign and move a ticket. The clock that the code
-- reads is an argument, and the database is passed through.
use helpdesk_microservices.Base.{
  ℕ, ◌+◌, ◌*◌, ◌==◌, ◌=s=◌, Bool, true, false, not, ◌&&◌, ◌||◌, some, String, List, [], ◌∷◌, Result,
  ok, err, lift, ◌>>=◌, ◌>>◌, guard, if◌then◌else◌, ℤ,
}
use helpdesk_microservices.Db.{DbError}
use helpdesk_microservices.Tickets.Domain.{
  Ticket, TicketStatusHistory, TicketFilter, status_assigned, status_in_progress, status_pending,
  status_resolved, status_closed,
}
use helpdesk_microservices.Tickets.Store.{
  TicketStore, is_id, is_null, create_ticket, find_all, find_unassigned, find_by_agent,
  find_by_user, find_by_id, find_history, assign_and_transition, transition_status,
}

-- The sentinel errors of the use cases, and what the database returned.
pub data Error : Type 0 where
  forbidden already_assigned invalid_transition attachment_too_large : Error
  database : DbError → Error

-- allowedTransitions[status], which is empty for a status that the map lacks.
unfoldable pub allowed_transitions : String → List String
allowed_transitions s =
    if s =s= status_assigned
    then status_in_progress ∷ []
    else if s =s= status_in_progress
    then status_pending ∷ status_resolved ∷ []
    else if s =s= status_pending
    then status_in_progress ∷ status_resolved ∷ []
    else if s =s= status_resolved
    then status_closed ∷ status_in_progress ∷ []
    else []

unfoldable pub contains_text : List String → String → Bool
contains_text [] s = false
contains_text (x ∷ xs) s = x =s= s || contains_text xs s

-- Seconds until a ticket is overdue.
unfoldable pub sla_duration : String → ℕ
sla_duration priority =
    if priority =s= "High" then 4 * 3600 else if priority =s= "Low" then 72 * 3600 else 24 * 3600

-- The `switch` on the role in `GetTicketByID`.
unfoldable pub may_see : ℕ → String → Ticket → Bool
may_see user role ticket =
    if role =s= "admin"
    then true
    else if role =s= "agent"
    then is_id ticket.assigned_agent_id user
    else ticket.user_id == user

-- The `switch` on the role in `AssignTicket`: the agent that the ticket goes to.
unfoldable pub assignee : Ticket → (requester : ℕ) → String → (target : ℕ) → Result Error ℕ
assignee ticket requester role target =
    if role =s= "admin"
    then ok target
    else if role =s= "agent"
    then (if not (target == 0) && not (target == requester)
        then err forbidden
        else if is_null ticket.assigned_agent_id
        then ok requester
        else err already_assigned)
    else err forbidden

-- The guard of `UpdateStatus`: an admin, or the agent whose ticket it is.
unfoldable pub may_move : ℕ → String → Ticket → Bool
may_move requester role ticket =
    role =s= "admin" || role =s= "agent" && is_id ticket.assigned_agent_id requester

module _ {Db : Type 0} (store : TicketStore Db) where
  unfoldable pub create : Db → ℕ → Ticket → Result Error (Ticket × Db)
  create d now ticket =
      lift database (
        create_ticket store d
          (record ticket { due_at = some (now + sla_duration ticket.priority) }))

  unfoldable pub get_tickets :
      Db
      → (now user : ℕ) → (role scope : String) → TicketFilter
      → ℕ
      → ℤ
      → Result Error (List Ticket)
  get_tickets d now user role scope filter limit offset =
      if role =s= "admin"
      then lift database (find_all store d now filter limit offset)
      else if role =s= "agent"
      then (if scope =s= "queue"
          then lift database (find_unassigned store d now filter limit offset)
          else lift database (find_by_agent store d now user filter limit offset))
      else lift database (find_by_user store d now user filter limit offset)

  unfoldable pub get_ticket_by_id : Db → (id user : ℕ) → String → Result Error Ticket
  get_ticket_by_id d id user role = do
    ticket ← lift database (find_by_id store d id)
    guard (may_see user role ticket) forbidden
    ok ticket

  unfoldable pub get_ticket_history :
      Db → (id user : ℕ) → String → Result Error (List TicketStatusHistory)
  get_ticket_history d id user role = do
    _ ← get_ticket_by_id d id user role
    lift database (find_history store d id)

  unfoldable pub assign_ticket :
      Db → (now ticket requester : ℕ) → String → (target : ℕ) → Result Error (ℕ × Db)
  assign_ticket d now id requester role target = do
    ticket ← lift database (find_by_id store d id)
    agent ← assignee ticket requester role target
    d' ← lift database (assign_and_transition store d id agent requester now)
    ok (agent, d')

  unfoldable pub update_status :
      Db → (now ticket requester : ℕ) → (role new_status : String) → Result Error (Ticket × Db)
  update_status d now id requester role new_status = do
    ticket ← lift database (find_by_id store d id)
    guard (may_move requester role ticket) forbidden
    guard (contains_text (allowed_transitions ticket.status) new_status) invalid_transition
    d' ← lift database (transition_status store d id ticket.status new_status requester now)
    ok (record ticket { status = new_status }, d')
