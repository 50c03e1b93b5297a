-- ===== src/Notices/Announced.antt =====
-- What PATCH /tickets/{id}/assign and PATCH /tickets/{id}/status of handler.go announce.
use helpdesk_microservices.Base.{
  ℕ, ◌≡◌, refl, sym, ap, ◌∙◌, subst, true, All, Option, some, String, List, [], ◌∷◌, ok, bind-eq-ok,
  ok-injective, find_by, find_by_holds,
}
use helpdesk_microservices.Db.{has_key}
use helpdesk_microservices.Db.Rows.{find_by-update_where}
use helpdesk_microservices.Http.{Headers, answered-eq-ok, bind_json}
use helpdesk_microservices.Tickets.Domain.{Ticket, status_assigned}
use helpdesk_microservices.Tickets.Store.{TicketStore, assigned_to, moved_to, Recorded}
use helpdesk_microservices.Tickets.Usecase.{assign_ticket, update_status}
use helpdesk_microservices.Tickets.Lifecycle.{update_status-StatusChanged}
use helpdesk_microservices.Tickets.Assignment.{assign_ticket-Assignment}
use helpdesk_microservices.Tickets.Handler.{
  Event, scan_id, require_user, invalid_ticket_id, invalid_input, publish_event, try_patch_assign,
  try_patch_status, valid_status, assign_refusal, status_refusal,
}

-- The requests that change a ticket, answered and with one event to publish.
pub data Change {Db : Type 0} (store : TicketStore Db) (now : ℕ) (d e : Db) (event : Event)
    : Type 0 where
  assignment :
      (h : Headers) (id_param : String) (agent_id : ℕ) (p : String)
      → try_patch_assign store true d now h id_param agent_id ≡ ok (p, e, event ∷ [])
      → Change store now d e event
  move :
      (h : Headers) (id_param : String) (body : Option String) (p : String)
      → try_patch_status store true d now h id_param body ≡ ok (p, e, event ∷ [])
      → Change store now d e event

-- Whom an event of each kind is for.
pub data Recipient (ticket : Ticket) (user : ℕ) : String → Type 0 where
  new_agent : ticket.assigned_agent_id ≡ some user → Recipient ticket user "ticket_assigned"
  creator : ticket.user_id ≡ user → Recipient ticket user "ticket_status_changed"

-- The event tells of the ticket as it is in the database, and names a user.
pub record Truthful {Db : Type 0} (store : TicketStore Db) (e : Db) (event : Event) : Type 0 where
  pub ticket : Ticket
  pub current : find_by (has_key (λ t. t.id) event.ticket_id) (store.tickets.rows e) ≡ some ticket
  pub status_told : ticket.status ≡ event.status
  pub user : ℕ
  pub named : event.target_user_id ≡ some user
  pub recipient : Recipient ticket user event.kind

module _ {Db : Type 0} (store : TicketStore Db) where
  rewritten_found :
      (id : ℕ) (f : Ticket → Ticket) (from_status to_status : String) (by at : ℕ) (d e : Db)
      (before : Ticket)
      → ((t : Ticket) → (f t).id ≡ t.id)
      → find_by (has_key (λ t. t.id) id) (store.tickets.rows d) ≡ some before
      → Recorded store id f from_status to_status by at d e
      → find_by (has_key (λ t. t.id) id) (store.tickets.rows e) ≡ some (f before)
  rewritten_found id f from_status to_status by at d e before same_id found r =
      let here = find_by_holds _ _ before found in
      rw r.rewritten
        (find_by-update_where (λ t. t.id) id id f same_id _ before found ∙ rw here refl)

  assign_ticket-Truthful :
      (now : ℕ) (d e : Db) (id requester : ℕ) (role : String) (target agent : ℕ)
      → assign_ticket store d now id requester role target ≡ ok (agent, e)
      → Truthful store e (record {
        kind = "ticket_assigned";
        ticket_id = id;
        title = "";
        status = status_assigned;
        target_user_id = some agent;
        target_roles = [];
      })
  assign_ticket-Truthful now d e id requester role target agent h =
      let a = assign_ticket-Assignment store d e now id requester role target agent h in
      record {
        ticket = assigned_to agent now a.before;
        current =
            rewritten_found id (assigned_to agent now) a.before.status status_assigned requester now
              d e a.before (λ t. refl) a.found a.recorded;
        status_told = refl;
        user = agent;
        named = refl;
        recipient = new_agent refl;
      }

  update_status-Truthful :
      (now : ℕ) (d e : Db) (id requester : ℕ) (role new_status : String) (result : Ticket)
      → update_status store d now id requester role new_status ≡ ok (result, e)
      → Truthful store e (record {
        kind = "ticket_status_changed";
        ticket_id = id;
        title = "";
        status = new_status;
        target_user_id = some result.user_id;
        target_roles = [];
      })
  update_status-Truthful now d e id requester role new_status result h =
      let c = update_status-StatusChanged store d e now id requester role new_status result h in
      record {
        ticket = moved_to new_status now c.before;
        current =
            rewritten_found id (moved_to new_status now) c.before.status new_status requester now d
              e c.before (λ t. refl) c.found c.recorded;
        status_told = refl;
        user = result.user_id;
        named = refl;
        recipient = creator (ap (λ (t : Ticket). t.user_id) (sym c.returned));
      }

  abbrev AllTruthful : String × Db × List Event → Type 0
  AllTruthful answer = All (Truthful store answer.1) answer.2

  -- What an assignment and a change of status announce is so.
  pub Change-Truthful :
      (now : ℕ) (d e : Db) (event : Event) → Change store now d e event → Truthful store e event
  unfolding try_patch_assign try_patch_status publish_event
  Change-Truthful now d e event (assignment h id_param agent_id p made) =
      let (who, _, made') = bind-eq-ok (require_user h) _ made in
      let (id, _, made'') = bind-eq-ok (scan_id id_param invalid_ticket_id) _ made' in
      let (given, done, last) =
        answered-eq-ok assign_refusal (assign_ticket store d now id who.0 who.1 agent_id) _
          made'' in
      (subst AllTruthful (ok-injective last)
        (assign_ticket-Truthful now d given.1 id who.0 who.1 agent_id given.0 done, tt)).0
  Change-Truthful now d e event (move h id_param body p made) =
      let (who, _, made1) = bind-eq-ok (require_user h) _ made in
      let (id, _, made2) = bind-eq-ok (scan_id id_param invalid_ticket_id) _ made1 in
      let (new_status, _, made3) = bind-eq-ok (bind_json valid_status invalid_input body) _ made2 in
      let (moved, done, last) =
        answered-eq-ok status_refusal (update_status store d now id who.0 who.1 new_status) _
          made3 in
      (subst AllTruthful (ok-injective last)
        (update_status-Truthful now d moved.1 id who.0 who.1 new_status moved.0 done, tt)).0
