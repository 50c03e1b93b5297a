-- ===== src/Tickets/Handler/Requests.antt =====
-- What the endpoints share: the caller, ids in the path, events and their targets, refusals.
use Prim.Native.String.{count}
use helpdesk_microservices.Base.{
  ℕ, leb, ◌==◌, ◌=s=◌, Bool, not, ◌&&◌, ◌||◌, Option, none, some, String, List, [], ◌∷◌, Result, ok,
  err, ◌>>=◌, ◌>>◌, guard, if◌then◌else◌,
}
use helpdesk_microservices.Http.{Headers, Refusal, refusal}
use helpdesk_microservices.Numeral.{sscanf_uint}
use helpdesk_microservices.Tickets.Domain.{Ticket}
use helpdesk_microservices.Tickets.Usecase.{
  Error, forbidden, already_assigned, invalid_transition, attachment_too_large,
}

-- messaging/event.go
pub record Event : Type 0 where
  pub kind : String
  pub ticket_id : ℕ
  pub title : String
  pub status : String
  pub target_user_id : Option ℕ
  pub target_roles : List String

-- An id that is not 0 and that Sscanf reads.
unfoldable pub scan_id : String → Refusal → Result Refusal ℕ
scan_id text r = elim (sscanf_uint text) [
  | none ↦ err r
  | some id ↦ if id == 0 then err r else ok id
]

unfoldable pub require_user : Headers → Result Refusal (ℕ × String)
unfolding scan_id
require_user h = do
  guard (not (h.user_id =s= "")) (refusal 401 "unauthorized" "UNAUTHORIZED")
  guard (h.user_role =s= "user" || h.user_role =s= "agent" || h.user_role =s= "admin")
      (refusal 403 "forbidden" "FORBIDDEN")
  user ← scan_id h.user_id (refusal 400 "invalid user id" "BAD_REQUEST")
  ok (user, h.user_role)

abbrev pub invalid_ticket_id : Refusal
invalid_ticket_id = refusal 400 "invalid ticket id" "BAD_REQUEST"

abbrev pub invalid_input : Refusal
invalid_input = refusal 400 "invalid input" "BAD_REQUEST"

abbrev pub ticket_not_found : Refusal
ticket_not_found = refusal 404 "ticket not found" "NOT_FOUND"

-- The publisher may be absent.
unfoldable pub publish_event : Bool → Event → List Event
publish_event connected event = if connected then event ∷ [] else []

-- activity_target.go
unfoldable pub ticket_activity_target : Ticket → String → Option ℕ × List String
ticket_activity_target ticket actor_role =
    if actor_role =s= "user"
    then (elim ticket.assigned_agent_id [
      | none ↦ (none, "admin" ∷ [])
      | some agent ↦ (some agent, [])
    ])
    else (some ticket.user_id, [])

abbrev pub assign_refusal : Error → Refusal
assign_refusal forbidden = refusal 403 "forbidden" "FORBIDDEN"
assign_refusal already_assigned = refusal 409 "ticket already assigned" "CONFLICT"
assign_refusal _ = ticket_not_found

abbrev pub status_refusal : Error → Refusal
status_refusal forbidden = refusal 403 "forbidden" "FORBIDDEN"
status_refusal invalid_transition = refusal 400 "invalid status transition" "BAD_REQUEST"
status_refusal _ = ticket_not_found

abbrev pub upload_refusal : Error → Refusal
upload_refusal attachment_too_large =
    refusal 413 "attachment too large (max 5MB)" "PAYLOAD_TOO_LARGE"
upload_refusal _ = ticket_not_found

pub record CreateTicketRequest : Type 0 where
  pub title : String
  pub description : String
  pub priority : String
  pub department : String

pub record CreateCommentRequest : Type 0 where
  pub body : String
  pub is_internal : Bool

-- The binding tags.
abbrev pub valid_ticket : CreateTicketRequest → Bool
valid_ticket r = not (r.title =s= "")

abbrev pub valid_status : String → Bool
valid_status s = not (s =s= "")

abbrev pub valid_comment : CreateCommentRequest → Bool
valid_comment r = not (r.body =s= "") && leb 1 (count r.body) && leb (count r.body) 4000
