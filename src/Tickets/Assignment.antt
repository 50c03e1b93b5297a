-- ===== src/Tickets/Assignment.antt =====
-- `AssignTicket` of ticket_usecase.go: who may give a ticket to whom, and what it does.
use helpdesk_microservices.Base.{
  ℕ, ◌≡◌, ap, ◌∙◌, ◌⊎◌, inl, inr, none, some, String, ok, err, lifted-eq-ok, bind-eq-ok, find_by,
  arith, eq_iff, ◌=s=◌, Bool-cases,
}
use helpdesk_microservices.Db.{has_key}
use helpdesk_microservices.Tickets.Domain.{Ticket, status_assigned}
use helpdesk_microservices.Tickets.Store.{
  TicketStore, find_by_id, assigned_to, assign_and_transition, assign_and_transition-Recorded,
  Recorded,
}
use helpdesk_microservices.Tickets.Usecase.{already_assigned, database, assignee, assign_ticket}

-- The assignments that the comment on `AssignTicket` allows: an admin gives any ticket to anyone, an
-- agent takes a ticket that nobody has, naming nobody or himself.
pub data Assigns (ticket : Ticket) (requester target : ℕ) : String → ℕ → Type 0 where
  by_admin : Assigns ticket requester target "admin" target
  self_claim :
      ticket.assigned_agent_id ≡ none
      → (target ≡ 0) ⊎ (target ≡ requester)
      → Assigns ticket requester target "agent" requester

assignee-Assigns :
    (ticket : Ticket) (requester : ℕ) (role : String) (target agent : ℕ)
    → assignee ticket requester role target ≡ ok agent
    → Assigns ticket requester target role agent
unfolding assignee
assignee-Assigns ticket requester role target agent h = elim (Bool-cases (role =s= "admin")) [
  | inl a ↦
      let same : target ≡ agent = ground (arith, a) in
      rw ((eq_iff role "admin").0 a, ← same) by_admin
  | inr na ↦ elim (Bool-cases (role =s= "agent")) [
    | inl b ↦
        let same : requester ≡ agent = ground (arith, na, b) in
        rw ((eq_iff role "agent").0 b, ← same)
          (self_claim (ground (arith, na, b)) (ground (arith, na, b)))
    | inr nb ↦ absurd (let no = rw (na, nb) at h in cc)
  ]
]

module _ {Db : Type 0} (store : TicketStore Db) where
  pub record Assignment (id requester : ℕ) (role : String) (target now : ℕ) (d : Db) (agent : ℕ)
      (e : Db) : Type 0 where
    pub read : Ticket
    pub seen : store.tickets.first d id ≡ ok read
    pub right : Assigns read requester target role agent
    pub before : Ticket
    pub found : find_by (has_key (λ t. t.id) id) (store.tickets.rows d) ≡ some before
    pub recorded :
        Recorded store id (assigned_to agent now) before.status status_assigned requester now d e

  -- An assignment that succeeds is one that the rules allow; it sets the agent, the time and
  -- the status of that ticket alone and adds one entry to the audit trail.
  pub assign_ticket-Assignment :
      (d e : Db) (now id requester : ℕ) (role : String) (target agent : ℕ)
      → assign_ticket store d now id requester role target ≡ ok (agent, e)
      → Assignment id requester role target now d agent e
  unfolding assign_ticket find_by_id
  assign_ticket-Assignment d e now id requester role target agent h =
      let (read, seen, rest) = lifted-eq-ok database (store.tickets.first d id) _ h in
      let (who, allowed, rest') = bind-eq-ok (assignee read requester role target) _ rest in
      let (e', done, last) =
        lifted-eq-ok database (assign_and_transition store d id who requester now) _ rest' in
      let same : e' ≡ e = ground (arith, last) in
      let agent_is : who ≡ agent = ground (arith, last) in
      let (before, found, recorded) =
        assign_and_transition-Recorded store d e id agent requester now
          (rw (← agent_is) (done ∙ ap ok same)) in
      record {
        read = read;
        seen = seen;
        right = assignee-Assigns read requester role target agent (allowed ∙ ap ok agent_is);
        before = before;
        found = found;
        recorded = recorded;
      }

  -- An agent who asks for a ticket that an agent has, naming nobody or himself, gets the error
  -- that it is already assigned.
  pub assign_ticket-taken :
      (d : Db) (now id requester agent : ℕ) (target : ℕ) (ticket : Ticket)
      → store.tickets.first d id ≡ ok ticket
      → ticket.assigned_agent_id ≡ some agent
      → (target ≡ 0) ⊎ (target ≡ requester)
      → assign_ticket store d now id requester "agent" target ≡ err already_assigned
  unfolding assign_ticket find_by_id assignee
  assign_ticket-taken d now id requester agent target ticket seen has who = elim who [
    | inl e ↦ rw (seen, e, has)
    | inr e ↦ rw (seen, e, has) (ground arith)
  ]
