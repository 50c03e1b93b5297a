-- ===== src/Tickets/Audit/Requests.antt =====
-- Every request that the ticket service serves keeps the audit trail in step with the tickets.
use helpdesk_microservices.Base.{
  ℕ, ◌≡◌, ◌≢◌, refl, sym, ap, ◌∙◌, subst, inl, inr, Bool, false, Bool-cases, ==_iff, String, List,
  [], ◌∷◌, ◌++◌, All, All-append, All-map, ok, guard, length, ltb, not, bind-eq-ok, lift-eq-ok,
  lifted-eq-ok, arith,
}
use helpdesk_microservices.Db.Rows.{Distinct-append}
use helpdesk_microservices.Tickets.Domain.{
  Ticket, TicketComment, TicketAttachment, TicketStatusHistory, status_open, status_assigned,
}
use helpdesk_microservices.Tickets.Store.{
  TicketStore, assigned_to, moved_to, create_ticket, create_comment, create_attachment,
}
use helpdesk_microservices.Tickets.Usecase.{
  attachment_too_large, get_ticket_by_id, create, assign_ticket, update_status, database,
}
use helpdesk_microservices.Tickets.Lifecycle.{update_status-StatusChanged}
use helpdesk_microservices.Tickets.Assignment.{assign_ticket-Assignment}
use helpdesk_microservices.Tickets.Discussion.{max_attachment_size, add_comment, add_attachment}
use helpdesk_microservices.Tickets.Audit.Trail.{Exists, about, Audited, Recorded-Audited, keep-none}

All-prefix : {A : Type 0} (P : A → Type 0) (xs ys : List A) → All P (xs ++ ys) → All P xs
All-prefix P [] ys h = tt
All-prefix P (x ∷ xs) ys h = (h.0, All-prefix P xs ys h.1)

no_entry :
    (ts : List Ticket) (id : ℕ)
    → All (λ t. t.id ≢ id) ts
    → (h : TicketStatusHistory) → Exists ts h
    → about id h ≡ false
no_entry ts id fresh h known = elim (Bool-cases (about id h)) [
  | inl same ↦
      absurd (known (subst (λ i. All (λ t. t.id ≢ i) ts) (sym ((==_iff _ _).0 same)) fresh))
  | inr other ↦ other
]

module _ {Db : Type 0} (store : TicketStore Db) where
  -- A ticket stored with no status given is open, under an id that no ticket and no entry has.
  inserted-Audited :
      (d e : Db) (row stored : Ticket)
      → row.status ≡ ""
      → store.tickets.create d row ≡ ok (stored, e)
      → Audited store d
      → Audited store e
  inserted-Audited d e row stored blank made a =
      let ins = store.tickets.create_inserted d e row stored made in
      let log = store.tickets_keep_histories d e row stored made in
      let opened : status_open ≡ stored.status =
        sym (ap (λ (t : Ticket). t.status) ins.filled ∙ rw blank refl) in
      let no_trail =
        keep-none (about stored.id) (store.histories.rows d)
          (All-map (no_entry (store.tickets.rows d) stored.id ins.fresh) _ a.anchored) in
      record {
        distinct =
            rw ins.appended
              (Distinct-append (λ t. t.id) (store.tickets.rows d) stored a.distinct ins.fresh);
        explained =
            rw (ins.appended, log)
              (All-append _ (store.tickets.rows d) (stored ∷ []) a.explained
                (rw no_trail opened, tt));
        anchored =
            rw (ins.appended, log)
              (All-map
                (λ h known all. known (All-prefix _ (store.tickets.rows d) (stored ∷ []) all)) _
                a.anchored);
      }

  pub create-Audited :
      (d e : Db) (now : ℕ) (row stored : Ticket)
      → row.status ≡ ""
      → create store d now row ≡ ok (stored, e)
      → Audited store d
      → Audited store e
  unfolding create create_ticket
  create-Audited d e now row stored blank h a =
      inserted-Audited d e _ stored blank (lift-eq-ok database _ h) a

  pub assign_ticket-Audited :
      (d e : Db) (now id requester : ℕ) (role : String) (target agent : ℕ)
      → assign_ticket store d now id requester role target ≡ ok (agent, e)
      → Audited store d
      → Audited store e
  assign_ticket-Audited d e now id requester role target agent h a =
      let done = assign_ticket-Assignment store d e now id requester role target agent h in
      Recorded-Audited store id (assigned_to agent now) status_assigned requester now d e
        done.before (λ t. refl) (λ t. refl) done.found done.recorded a

  pub update_status-Audited :
      (d e : Db) (now id requester : ℕ) (role new_status : String) (result : Ticket)
      → update_status store d now id requester role new_status ≡ ok (result, e)
      → Audited store d
      → Audited store e
  update_status-Audited d e now id requester role new_status result h a =
      let done = update_status-StatusChanged store d e now id requester role new_status result h in
      Recorded-Audited store id (moved_to new_status now) new_status requester now d e done.before
        (λ t. refl) (λ t. refl) done.found done.recorded a

  same_tables-Audited :
      (d e : Db)
      → (store.tickets.rows e ≡ store.tickets.rows d)
        × (store.histories.rows e ≡ store.histories.rows d)
      → Audited store d
      → Audited store e
  same_tables-Audited d e k a = record {
    distinct = rw k.0 a.distinct;
    explained = rw (k.0, k.1) a.explained;
    anchored = rw (k.0, k.1) a.anchored;
  }

  -- A comment and an attachment leave the tickets and their histories alone.
  pub add_comment-keeps :
      (d e : Db) (id author : ℕ) (role body : String) (is_internal : Bool)
      (r : TicketComment × Ticket)
      → add_comment store d id author role body is_internal ≡ ok (r, e)
      → (store.tickets.rows e ≡ store.tickets.rows d)
        × (store.histories.rows e ≡ store.histories.rows d)
  unfolding add_comment create_comment
  add_comment-keeps d e id author role body is_internal r h =
      let (ticket, seen, rest) = bind-eq-ok (get_ticket_by_id store d id author role) _ h in
      let (made, eq, last) = lifted-eq-ok database (store.comments.create d _) _ rest in
      let state : made.1 ≡ e = ground (arith, last) in
      store.comments_keep_tickets d e _ made.0 (eq ∙ ap (λ x. ok (made.0, x)) state)

  pub add_attachment-keeps :
      (d e : Db) (id uploader : ℕ) (role filename content_type : String) (content : List ℕ)
      (r : TicketAttachment × Ticket)
      → add_attachment store d id uploader role filename content_type content ≡ ok (r, e)
      → (store.tickets.rows e ≡ store.tickets.rows d)
        × (store.histories.rows e ≡ store.histories.rows d)
  unfolding add_attachment create_attachment
  add_attachment-keeps d e id uploader role filename content_type content r h =
      let (_, fits, h') =
        bind-eq-ok (guard (not (ltb max_attachment_size (length content))) attachment_too_large) _
          h in
      let (ticket, seen, rest) = bind-eq-ok (get_ticket_by_id store d id uploader role) _ h' in
      let (made, eq, last) = lifted-eq-ok database (store.attachments.create d _) _ rest in
      let state : made.1 ≡ e = ground (arith, last) in
      store.attachments_keep_tickets d e _ made.0 (eq ∙ ap (λ x. ok (made.0, x)) state)

  pub add_comment-Audited :
      (d e : Db) (id author : ℕ) (role body : String) (is_internal : Bool)
      (r : TicketComment × Ticket)
      → add_comment store d id author role body is_internal ≡ ok (r, e)
      → Audited store d
      → Audited store e
  add_comment-Audited d e id author role body is_internal r h =
      same_tables-Audited d e (add_comment-keeps d e id author role body is_internal r h)

  pub add_attachment-Audited :
      (d e : Db) (id uploader : ℕ) (role filename content_type : String) (content : List ℕ)
      (r : TicketAttachment × Ticket)
      → add_attachment store d id uploader role filename content_type content ≡ ok (r, e)
      → Audited store d
      → Audited store e
  add_attachment-Audited d e id uploader role filename content_type content r h =
      same_tables-Audited d e
        (add_attachment-keeps d e id uploader role filename content_type content r h)
