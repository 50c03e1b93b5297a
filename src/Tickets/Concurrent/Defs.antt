-- ===== src/Tickets/Concurrent/Defs.antt =====
-- The two halves of `AssignTicket` and `UpdateStatus` in ticket_usecase.go, and how requests overlap.
-- A transaction is one step.
use helpdesk_microservices.Base.{
  ℕ, ◌≡◌, Bool, none, String, List, ◌∷◌, ◌++◌, Result, ok, ◌>>=◌, ◌>>◌, guard, lift,
}
use helpdesk_microservices.Db.{DbError}
use helpdesk_microservices.Tickets.Domain.{Ticket, TicketComment, TicketAttachment}
use helpdesk_microservices.Tickets.Store.{
  TicketStore, find_by_id, assign_and_transition, transition_status,
}
use helpdesk_microservices.Tickets.Usecase.{
  Error, forbidden, invalid_transition, database, assignee, may_move, contains_text,
  allowed_transitions, create,
}
use helpdesk_microservices.Tickets.Discussion.{add_comment, add_attachment}

-- The transaction that a use case has decided on, with what it read.
pub data Write : Type 0 where
  assigns : (id agent by at : ℕ) → Write
  moves : (id : ℕ) (from_status to_status : String) (by at : ℕ) → Write

module _ {Db : Type 0} (store : TicketStore Db) where
  -- `AssignTicket` as far as its transaction.
  unfoldable pub plan_assign :
      Db → (now ticket requester : ℕ) → String → (target : ℕ) → Result Error Write
  plan_assign d now id requester role target = do
    ticket ← lift database (find_by_id store d id)
    agent ← assignee ticket requester role target
    ok (Write.assigns id agent requester now)

  -- `UpdateStatus` as far as its transaction.
  unfoldable pub plan_move :
      Db → (now ticket requester : ℕ) → (role new_status : String) → Result Error Write
  plan_move d now id requester role new_status = do
    ticket ← lift database (find_by_id store d id)
    guard (may_move requester role ticket) forbidden
    guard (contains_text (allowed_transitions ticket.status) new_status) invalid_transition
    ok (Write.moves id ticket.status new_status requester now)

  unfoldable pub perform : Db → Write → Result DbError Db
  perform d (assigns id agent by at) = assign_and_transition store d id agent by at
  perform d (moves id from_status to_status by at) =
      transition_status store d id from_status to_status by at

  -- The database, and the transactions that are decided on and not made yet.
  pub record Desk : Type 0 where
    pub db : Db
    pub planned : List Write

  abbrev pub desk : Db → List Write → Desk
  desk d ws = record { db = d; planned = ws }

  -- A step of one of the requests in progress. Any of the transactions that were decided on may come
  -- next, or fail.
  pub data Step : Desk → Desk → Type 0 where
    posts :
        (d e : Db) (ws : List Write) (now : ℕ) (row stored : Ticket)
        → row.status ≡ ""
        → row.assigned_agent_id ≡ none
        → create store d now row ≡ ok (stored, e)
        → Step (desk d ws) (desk e ws)
    plans_assign :
        (d : Db) (ws : List Write) (w : Write) (now id requester : ℕ) (role : String) (target : ℕ)
        → plan_assign d now id requester role target ≡ ok w
        → Step (desk d ws) (desk d (w ∷ ws))
    plans_move :
        (d : Db) (ws : List Write) (w : Write) (now id requester : ℕ) (role new_status : String)
        → plan_move d now id requester role new_status ≡ ok w
        → Step (desk d ws) (desk d (w ∷ ws))
    commits :
        (d e : Db) (ws vs : List Write) (w : Write)
        → perform d w ≡ ok e
        → Step (desk d (ws ++ w ∷ vs)) (desk e (ws ++ vs))
    fails :
        (d : Db) (ws vs : List Write) (w : Write) → Step (desk d (ws ++ w ∷ vs)) (desk d (ws ++ vs))
    comments :
        (d e : Db) (ws : List Write) (id author : ℕ) (role body : String) (is_internal : Bool)
        (r : TicketComment × Ticket)
        → add_comment store d id author role body is_internal ≡ ok (r, e)
        → Step (desk d ws) (desk e ws)
    attaches :
        (d e : Db) (ws : List Write) (id uploader : ℕ) (role filename content_type : String)
        (content : List ℕ) (r : TicketAttachment × Ticket)
        → add_attachment store d id uploader role filename content_type content ≡ ok (r, e)
        → Step (desk d ws) (desk e ws)

  pub data Steps : Desk → Desk → Type 0 where
    done : {s : Desk} → Steps s s
    next : {s t u : Desk} → Step s t → Steps t u → Steps s u
