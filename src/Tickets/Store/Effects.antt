-- ===== src/Tickets/Store/Effects.antt =====
-- What the two transactions of ticket_repository.go do to the rows.
use helpdesk_microservices.Base.{
  ℕ, ◌≡◌, refl, ap, ◌∙◌, some, String, [], ◌∷◌, ◌++◌, ok, ◌>>=◌, bind-eq-ok, ok-injective, find_by,
  find_by_holds, ==_iff,
}
use helpdesk_microservices.Db.{has_key, update_where}
use helpdesk_microservices.Tickets.Domain.{Ticket, TicketStatusHistory, status_assigned}
use helpdesk_microservices.Tickets.Store.Defs.{
  TicketStore, assigned_to, moved_to, assign_and_transition, transition_status,
}

-- The entry tells of a change of the ticket `id`.
pub record Tells (id : ℕ) (from_status to_status : String) (changed_by changed_at : ℕ)
    (entry : TicketStatusHistory) : Type 0 where
  pub of_ticket : entry.ticket_id ≡ id
  pub from : entry.from_status ≡ from_status
  pub to : entry.to_status ≡ to_status
  pub by : entry.changed_by ≡ changed_by
  pub at : entry.changed_at ≡ changed_at

abbrev new_entry : ℕ → (from_status to_status : String) → (by at : ℕ) → TicketStatusHistory
new_entry id from_status to_status by at = record {
  id = 0;
  ticket_id = id;
  from_status = from_status;
  to_status = to_status;
  changed_by = by;
  changed_at = at;
}

module _ {Db : Type 0} (store : TicketStore Db) where
  -- One ticket is rewritten by `f`, one entry is added to the audit trail, and that is all.
  pub record Recorded (id : ℕ) (f : Ticket → Ticket) (from_status to_status : String)
      (changed_by changed_at : ℕ) (d e : Db) : Type 0 where
    pub entry : TicketStatusHistory
    pub tells : Tells id from_status to_status changed_by changed_at entry
    pub rewritten :
        store.tickets.rows e ≡ update_where (has_key (λ t. t.id) id) f (store.tickets.rows d)
    pub logged : store.histories.rows e ≡ store.histories.rows d ++ entry ∷ []

  update_and_log-Recorded :
      (id : ℕ) (f : Ticket → Ticket) (from_status to_status : String) (by at : ℕ) (d mid e : Db)
      (stored : TicketStatusHistory)
      → store.tickets.updates d (has_key (λ t. t.id) id) f ≡ ok mid
      → store.histories.create mid (new_entry id from_status to_status by at) ≡ ok (stored, e)
      → Recorded id f from_status to_status by at d e
  update_and_log-Recorded id f from_status to_status by at d mid e stored up made =
      let ins = store.histories.create_inserted mid e _ stored made in
      let filled = ins.filled in
      record {
        entry = stored;
        tells =
            rw filled (record { of_ticket = refl; from = refl; to = refl; by = refl; at = refl });
        rewritten =
            store.histories_keep_tickets mid e _ stored made
            ∙ store.tickets.updates_rows d mid _ f up;
        logged =
            ins.appended ∙ ap (λ l. l ++ stored ∷ []) (store.updates_keep_histories d mid _ f up);
      }

  -- The tail that both transactions share.
  update_and_log :
      (id : ℕ) (f : Ticket → Ticket) (from_status to_status : String) (by at : ℕ) (d e : Db)
      → (do
        mid ← store.tickets.updates d (has_key (λ t. t.id) id) f
        (_, tx) ← store.histories.create mid (new_entry id from_status to_status by at)
        ok tx)
        ≡ ok e
      → Recorded id f from_status to_status by at d e
  update_and_log id f from_status to_status by at d e h =
      let (mid, up, rest) = bind-eq-ok _ _ h in
      let (made, eq, last) = bind-eq-ok _ _ rest in
      update_and_log-Recorded id f from_status to_status by at d mid e made.0 up
        (eq ∙ ap (λ x. ok (made.0, x)) (ok-injective last))

  pub transition_status-Recorded :
      (d e : Db) (id : ℕ) (from_status to_status : String) (by at : ℕ)
      → transition_status store d id from_status to_status by at ≡ ok e
      → Recorded id (moved_to to_status at) from_status to_status by at d e
  unfolding transition_status
  transition_status-Recorded d e id from_status to_status by at h =
      update_and_log id _ from_status to_status by at d e (store.transaction_body d e _ h)

  pub assign_and_transition-Recorded :
      (d e : Db) (id agent by at : ℕ)
      → assign_and_transition store d id agent by at ≡ ok e
      → (ticket : Ticket) × (find_by (has_key (λ t. t.id) id) (store.tickets.rows d) ≡ some ticket)
        × Recorded id (assigned_to agent at) ticket.status status_assigned by at d e
  unfolding assign_and_transition
  assign_and_transition-Recorded d e id agent by at h =
      let (ticket, found, rest) = bind-eq-ok _ _ (store.transaction_body d e _ h) in
      let row = store.tickets.first_found d id ticket found in
      let key = (==_iff _ _).0 (find_by_holds _ _ ticket row) in
      (
        ticket,
        row,
        update_and_log id (assigned_to agent at) ticket.status status_assigned by at d e
            (rw key at rest),
      )
