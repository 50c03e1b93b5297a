-- ===== src/Tickets/Lifecycle.antt =====
-- The status machine of ticket_usecase.go, and what a status change needs and does.
use helpdesk_microservices.Base.{
  ℕ, ◌≡◌, ◌↔◌, refl, ap, ◌∙◌, ◌⊎◌, inl, inr, true, Option, none, some, String, [], ◌∷◌, ok, err,
  guard, guard-eq-ok, lifted-eq-ok, bind-eq-ok, find_by, arith, eq_iff, ◌=s=◌, Bool-cases,
}
use helpdesk_microservices.Db.{has_key}
use helpdesk_microservices.Tickets.Domain.{
  Ticket, status_open, status_assigned, status_in_progress, status_pending, status_resolved,
  status_closed,
}
use helpdesk_microservices.Tickets.Store.{
  TicketStore, is_id, find_by_id, moved_to, transition_status, transition_status-Recorded, Recorded,
}
use helpdesk_microservices.Tickets.Usecase.{
  forbidden, invalid_transition, database, allowed_transitions, contains_text, may_move,
  update_status,
}

pub data Phase : Type 0 where
  opened assigned in_progress pending resolved closed : Phase

-- The moves that the comment on `allowedTransitions` describes: `open` is left by assignment only,
-- and `closed` is not left.
pub data Legal : Phase → Phase → Type 0 where
  start : Legal Phase.assigned Phase.in_progress
  park : Legal Phase.in_progress Phase.pending
  resume : Legal Phase.pending Phase.in_progress
  resolve : Legal Phase.in_progress Phase.resolved
  resolve_parked : Legal Phase.pending Phase.resolved
  close : Legal Phase.resolved Phase.closed
  reopen : Legal Phase.resolved Phase.in_progress

abbrev pub status_name : Phase → String
status_name Phase.opened = status_open
status_name Phase.assigned = status_assigned
status_name Phase.in_progress = status_in_progress
status_name Phase.pending = status_pending
status_name Phase.resolved = status_resolved
status_name Phase.closed = status_closed

-- A legal move between two texts.
pub record LegalMove (from_status to_status : String) : Type 0 where
  pub source : Phase
  pub target : Phase
  pub legal : Legal source target
  pub named_from : from_status ≡ status_name source
  pub named_to : to_status ≡ status_name target

abbrev move :
    {p q : Phase} {s t : String} → Legal p q → s ≡ status_name p → t ≡ status_name q → LegalMove s t
move {p} {q} l e f = record { source = p; target = q; legal = l; named_from = e; named_to = f }

contains_none : (t : String) → contains_text [] t ≡ true → ⊥
unfolding contains_text
contains_none t h = cc

contains_one : (a t : String) → contains_text (a ∷ []) t ≡ true → t ≡ a
unfolding contains_text
contains_one a t h = ground (arith, eq_iff a t)

contains_two : (a b t : String) → contains_text (a ∷ b ∷ []) t ≡ true → (t ≡ a) ⊎ (t ≡ b)
unfolding contains_text
contains_two a b t h = ground (arith, eq_iff a t, eq_iff b t)

-- The table allows a move exactly where it is legal.
pub allowed-sound : (s t : String) → contains_text (allowed_transitions s) t ≡ true → LegalMove s t
unfolding allowed_transitions
allowed-sound s t h = elim (Bool-cases (s =s= status_assigned)) [
  | inl a ↦ move Legal.start ((eq_iff _ _).0 a) (contains_one _ t (ground arith))
  | inr na ↦ elim (Bool-cases (s =s= status_in_progress)) [
    | inl b ↦ elim (contains_two status_pending status_resolved t (ground arith)) [
      | inl u ↦ move Legal.park ((eq_iff _ _).0 b) u
      | inr u ↦ move Legal.resolve ((eq_iff _ _).0 b) u
    ]
    | inr nb ↦ elim (Bool-cases (s =s= status_pending)) [
      | inl c ↦ elim (contains_two status_in_progress status_resolved t (ground arith)) [
        | inl u ↦ move Legal.resume ((eq_iff _ _).0 c) u
        | inr u ↦ move Legal.resolve_parked ((eq_iff _ _).0 c) u
      ]
      | inr nc ↦ elim (Bool-cases (s =s= status_resolved)) [
        | inl e ↦ elim (contains_two status_closed status_in_progress t (ground arith)) [
          | inl u ↦ move Legal.close ((eq_iff _ _).0 e) u
          | inr u ↦ move Legal.reopen ((eq_iff _ _).0 e) u
        ]
        | inr ne ↦ absurd (contains_none t (ground arith))
      ]
    ]
  ]
]

pub allowed_complete :
    {p q : Phase}
    → Legal p q
    → contains_text (allowed_transitions (status_name p)) (status_name q) ≡ true
unfolding allowed_transitions contains_text
allowed_complete start = refl
allowed_complete park = refl
allowed_complete resume = refl
allowed_complete resolve = refl
allowed_complete resolve_parked = refl
allowed_complete close = refl
allowed_complete reopen = refl

LegalMove-allowed : {s t : String} → LegalMove s t → contains_text (allowed_transitions s) t ≡ true
LegalMove-allowed m = rw (m.named_from, m.named_to) (allowed_complete m.legal)

-- Who may move a ticket: an admin, or the agent that it is assigned to.
pub data Mover (requester : ℕ) (ticket : Ticket) : String → Type 0 where
  as_admin : Mover requester ticket "admin"
  as_assignee : ticket.assigned_agent_id ≡ some requester → Mover requester ticket "agent"

pub is_id_iff : (o : Option ℕ) (i : ℕ) → (is_id o i ≡ true) ↔ (o ≡ some i)
is_id_iff none i = ((λ h. cc), (λ h. cc))
is_id_iff (some j) i = ground arith

may_move-Mover :
    (requester : ℕ) (role : String) (ticket : Ticket)
    → may_move requester role ticket ≡ true
    → Mover requester ticket role
unfolding may_move
may_move-Mover requester role ticket h = elim (Bool-cases (role =s= "admin")) [
  | inl a ↦ rw ((eq_iff role "admin").0 a) as_admin
  | inr na ↦ elim (Bool-cases (role =s= "agent")) [
    | inl b ↦
        rw ((eq_iff role "agent").0 b) (as_assignee ((is_id_iff _ requester).0 (rw (na, b) at h)))
    | inr nb ↦ absurd (let no = rw (na, nb) at h in cc)
  ]
]

Mover-may_move :
    {requester : ℕ} {role : String} {ticket : Ticket}
    → Mover requester ticket role
    → may_move requester role ticket ≡ true
unfolding may_move
Mover-may_move as_admin = refl
Mover-may_move {requester} {ticket} (as_assignee e) = rw e (ground arith)

module _ {Db : Type 0} (store : TicketStore Db) where
  pub record StatusChanged (id requester : ℕ) (role new_status : String) (now : ℕ) (d : Db)
      (result : Ticket) (e : Db) : Type 0 where
    pub before : Ticket
    pub found : find_by (has_key (λ t. t.id) id) (store.tickets.rows d) ≡ some before
    pub mover : Mover requester before role
    pub legal : LegalMove before.status new_status
    pub returned : result ≡ record before { status = new_status }
    pub recorded :
        Recorded store id (moved_to new_status now) before.status new_status requester now d e

  -- A status change that succeeds was asked for by an admin or by the agent of the ticket,
  -- follows an edge of the status machine, rewrites that ticket alone, and adds one entry to
  -- the audit trail, from the old status to the new one.
  pub update_status-StatusChanged :
      (d e : Db) (now id requester : ℕ) (role new_status : String) (result : Ticket)
      → update_status store d now id requester role new_status ≡ ok (result, e)
      → StatusChanged id requester role new_status now d result e
  unfolding update_status find_by_id
  update_status-StatusChanged d e now id requester role new_status result h =
      let (before, read, rest) = lifted-eq-ok database (store.tickets.first d id) _ h in
      let (_, may, rest') = bind-eq-ok (guard (may_move requester role before) forbidden) _ rest in
      let (_, allowed, rest'') =
        bind-eq-ok
          (guard (contains_text (allowed_transitions before.status) new_status) invalid_transition)
          _ rest' in
      let (e', done, last) =
        lifted-eq-ok database (transition_status store d id before.status new_status requester now)
          _ rest'' in
      let same : e' ≡ e = ground (arith, last) in
      record {
        before = before;
        found = store.tickets.first_found d id before read;
        mover = may_move-Mover requester role before (guard-eq-ok _ forbidden may);
        legal = allowed-sound before.status new_status (guard-eq-ok _ invalid_transition allowed);
        returned = ground (arith, last);
        recorded =
            transition_status-Recorded store d e id before.status new_status requester now
              (done ∙ ap ok same);
      }

  -- Somebody who is neither an admin nor the agent of the ticket is refused, whatever the status asked
  -- for, and learns nothing of the status machine.
  pub update_status-forbidden :
      (d : Db) (now id requester : ℕ) (role new_status : String) (before : Ticket)
      → store.tickets.first d id ≡ ok before
      → (Mover requester before role → ⊥)
      → update_status store d now id requester role new_status ≡ err forbidden
  unfolding update_status find_by_id
  update_status-forbidden d now id requester role new_status before read none_such =
      elim (Bool-cases (may_move requester role before)) [
        | inl may ↦ absurd (none_such (may_move-Mover requester role before may))
        | inr not_his ↦ rw (read, not_his)
      ]

  -- One who may move the ticket, and asks for a move that is not legal, gets that error.
  pub update_status-invalid :
      (d : Db) (now id requester : ℕ) (role new_status : String) (before : Ticket)
      → store.tickets.first d id ≡ ok before
      → Mover requester before role
      → (LegalMove before.status new_status → ⊥)
      → update_status store d now id requester role new_status ≡ err invalid_transition
  unfolding update_status find_by_id
  update_status-invalid d now id requester role new_status before read m illegal =
      elim (Bool-cases (contains_text (allowed_transitions before.status) new_status)) [
        | inl allowed ↦ absurd (illegal (allowed-sound _ _ allowed))
        | inr refused ↦ rw (read, Mover-may_move m, refused)
      ]

  -- A legal move of a ticket that is found, by one who may make it, succeeds as soon as the
  -- transaction does, and returns the ticket with the new status.
  pub update_status_complete :
      (d e : Db) (now id requester : ℕ) (role new_status : String) (before : Ticket)
      → store.tickets.first d id ≡ ok before
      → Mover requester before role
      → LegalMove before.status new_status
      → transition_status store d id before.status new_status requester now ≡ ok e
      → update_status store d now id requester role new_status
        ≡ ok (record before { status = new_status }, e)
  unfolding update_status find_by_id
  update_status_complete d e now id requester role new_status before read m l done =
      rw (read, Mover-may_move m, LegalMove-allowed l, done)
