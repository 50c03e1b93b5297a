-- ===== src/Tickets/OverlapExamples.antt =====
-- Two requests of one agent that overlap, on a ticket that is in progress.
use helpdesk_microservices.Base.{ℕ, ◌≡◌, refl, inl, inr, false, none, some, String, [], ◌∷◌}
use helpdesk_microservices.Db.Memory.{create_in}
use helpdesk_microservices.Tickets.Domain.{Ticket, TicketStatusHistory}
use helpdesk_microservices.Tickets.Store.{TicketStore, find_by_id, transition_status}
use helpdesk_microservices.Tickets.Store.Memory.{MemoryDb, memory_store}
use helpdesk_microservices.Tickets.Usecase.{allowed_transitions, contains_text, may_move}
use helpdesk_microservices.Tickets.Lifecycle.{Phase, Legal}
use helpdesk_microservices.Tickets.Concurrent.{
  Write, plan_move, perform, desk, Step, Steps, Consistent, Steps-Consistent,
}

abbrev store : TicketStore MemoryDb
store = memory_store 50

abbrev ticket : String → Ticket
ticket status = record {
  id = 7;
  title = "printer";
  description = "broken";
  user_id = 2;
  assigned_agent_id = some 3;
  status = status;
  priority = "High";
  department = "Helpdesk";
  assigned_at = some 20;
  resolved_at = none;
  closed_at = none;
  due_at = some 14410;
  created_at = 10;
}

abbrev entry : (id : ℕ) → (from_status to_status : String) → (at : ℕ) → TicketStatusHistory
entry id from_status to_status at = record {
  id = id;
  ticket_id = 7;
  from_status = from_status;
  to_status = to_status;
  changed_by = 3;
  changed_at = at;
}

abbrev working : MemoryDb
working = record {
  tickets = ticket "in_progress" ∷ [];
  histories = entry 1 "open" "assigned" 20 ∷ entry 2 "assigned" "in_progress" 30 ∷ [];
  comments = [];
  attachments = [];
}

-- Resolved first; the other request, which had read the ticket in progress, parks it.
abbrev resolved : MemoryDb
resolved = record working {
  tickets = record (ticket "resolved") { resolved_at = some 41 } ∷ [];
  histories =
      entry 1 "open" "assigned" 20
      ∷ entry 2 "assigned" "in_progress" 30
      ∷ entry 3 "in_progress" "resolved" 41
      ∷ [];
}

abbrev parked : MemoryDb
parked = record working {
  tickets = record (ticket "pending") { resolved_at = some 41 } ∷ [];
  histories =
      entry 1 "open" "assigned" 20
      ∷ entry 2 "assigned" "in_progress" 30
      ∷ entry 3 "in_progress" "resolved" 41
      ∷ entry 4 "in_progress" "pending" 40
      ∷ [];
}

abbrev park : Write
park = Write.moves 7 "in_progress" "pending" 3 40

abbrev resolve : Write
resolve = Write.moves 7 "in_progress" "resolved" 3 41

overlap : Steps store (desk store working []) (desk store parked [])
unfolding plan_move perform find_by_id transition_status memory_store create_in may_move
    contains_text allowed_transitions
overlap = Steps.next (Step.plans_move working [] park 40 7 3 "agent" "pending" refl) (
    Steps.next (Step.plans_move working (park ∷ []) resolve 41 7 3 "agent" "resolved" refl) (
      Steps.next (Step.commits working resolved [] (park ∷ []) resolve refl)
        (Steps.next (Step.commits resolved parked [] [] park refl) Steps.done)))

working-Consistent : Consistent store (desk store working [])
unfolding memory_store
working-Consistent = record {
  distinct = (tt, tt);
  standing = (inr ((Phase.in_progress, (λ e. cc), refl), (3, refl)), tt);
  tracked = (
    inr refl,
    (
      inl (record {
        source = _;
        target = _;
        legal = Legal.start;
        named_from = refl;
        named_to = refl;
      }),
      tt,
    ),
  );
  fitting = tt;
}

Steps-Consistent_example : Consistent store (desk store parked [])
Steps-Consistent_example = Steps-Consistent store overlap working-Consistent

-- The ticket has gone from resolved to pending, which the status machine does not allow.
resolved_to_pending : contains_text (allowed_transitions "resolved") "pending" ≡ false
unfolding contains_text allowed_transitions
resolved_to_pending = refl
