-- ===== src/Tickets/Concurrent/Whole.antt =====
-- The halves of the use cases of ticket_usecase.go, one after the other, are the use cases.
use helpdesk_microservices.Base.{
  ℕ, ◌≡◌, sym, subst, String, ok, ok-injective, guard, bind-eq-ok, lifted-eq-ok,
}
use helpdesk_microservices.Tickets.Domain.{Ticket}
use helpdesk_microservices.Tickets.Store.{TicketStore, find_by_id}
use helpdesk_microservices.Tickets.Usecase.{
  forbidden, invalid_transition, database, assignee, may_move, contains_text, allowed_transitions,
  assign_ticket, update_status,
}
use helpdesk_microservices.Tickets.Concurrent.Defs.{Write, plan_assign, plan_move, perform}

module _ {Db : Type 0} (store : TicketStore Db) where
  -- An assignment that was decided on and is made at once is what `AssignTicket` does.
  pub plan_assign-perform :
      (d e : Db) (now id requester : ℕ) (role : String) (target : ℕ) (w : Write)
      → plan_assign store d now id requester role target ≡ ok w
      → perform store d w ≡ ok e
      → (agent : ℕ) × (assign_ticket store d now id requester role target ≡ ok (agent, e))
  unfolding plan_assign assign_ticket find_by_id perform
  plan_assign-perform d e now id requester role target w h made =
      let (ticket, seen, rest) = lifted-eq-ok database (store.tickets.first d id) _ h in
      let (agent, allowed, last) = bind-eq-ok (assignee ticket requester role target) _ rest in
      let done = subst (λ v. perform store d v ≡ ok e) (sym (ok-injective last)) made in
      (agent, rw (seen, allowed, done))

  -- A move that was decided on and is made at once is what `UpdateStatus` does.
  pub plan_move-perform :
      (d e : Db) (now id requester : ℕ) (role new_status : String) (w : Write)
      → plan_move store d now id requester role new_status ≡ ok w
      → perform store d w ≡ ok e
      → (t : Ticket) × (update_status store d now id requester role new_status ≡ ok (t, e))
  unfolding plan_move update_status find_by_id perform
  plan_move-perform d e now id requester role new_status w h made =
      let (t, seen, rest) = lifted-eq-ok database (store.tickets.first d id) _ h in
      let (_, may, rest') = bind-eq-ok (guard (may_move requester role t) forbidden) _ rest in
      let (_, allowed, last) =
        bind-eq-ok
          (guard (contains_text (allowed_transitions t.status) new_status) invalid_transition) _
          rest' in
      let done = subst (λ v. perform store d v ≡ ok e) (sym (ok-injective last)) made in
      (record t { status = new_status }, rw (seen, may, allowed, done))
