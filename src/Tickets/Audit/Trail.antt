-- ===== src/Tickets/Audit/Trail.antt =====
-- The audit trail: the history of each ticket leads from `open` to the status that it has.
use helpdesk_microservices.Base.{
  ℕ, ◌≡◌, ◌≢◌, refl, sym, ◌∙◌, subst, inl, inr, Bool, true, false, some, String, List, [], ◌∷◌,
  ◌++◌, All, All-append, All-map, keep, find_by, find_by_holds, arith, ◌==◌, Bool-cases, ==_iff,
}
use helpdesk_microservices.Db.{has_key, update_where}
use helpdesk_microservices.Db.Rows.{Distinct, update_where-Distinct, update_where-All, find_by-All}
use helpdesk_microservices.Tickets.Domain.{Ticket, TicketStatusHistory, status_open}
use helpdesk_microservices.Tickets.Store.{TicketStore, Recorded}

-- The entries lead from one status to another, each starting where the one before ended.
abbrev pub Leads : String → List TicketStatusHistory → String → Type 0
Leads s [] t = s ≡ t
Leads s (h ∷ hs) t = (h.from_status ≡ s) × Leads h.to_status hs t

Leads-append :
    (s t : String) (hs : List TicketStatusHistory) (h : TicketStatusHistory)
    → Leads s hs t
    → h.from_status ≡ t
    → Leads s (hs ++ h ∷ []) h.to_status
Leads-append s t [] h l e = (e ∙ sym l, refl)
Leads-append s t (x ∷ hs) h l e = (l.0, Leads-append x.to_status t hs h l.1 e)

-- The entries of one ticket.
abbrev pub about : ℕ → TicketStatusHistory → Bool
about id h = h.ticket_id == id

module _ {A : Type 0} (p : A → Bool) where
  keep-append_hit : (xs : List A) (y : A) → p y ≡ true → keep p (xs ++ y ∷ []) ≡ keep p xs ++ y ∷ []
  unfolding keep
  keep-append_hit [] y h = ground arith
  keep-append_hit (x ∷ xs) y h = ground (arith, keep-append_hit xs y h)

  keep-append_miss : (xs : List A) (y : A) → p y ≡ false → keep p (xs ++ y ∷ []) ≡ keep p xs
  unfolding keep
  keep-append_miss [] y h = ground arith
  keep-append_miss (x ∷ xs) y h = ground (arith, keep-append_miss xs y h)

  pub keep-none : (xs : List A) → All (λ x. p x ≡ false) xs → keep p xs ≡ []
  unfolding keep
  keep-none [] h = refl
  keep-none (x ∷ xs) h = ground (arith, keep-none xs h.1)

-- Where the audit trail of a ticket stands.
abbrev pub Explains : List TicketStatusHistory → Ticket → Type 0
Explains hs t = Leads status_open (keep (about t.id) hs) t.status

-- An entry is of a ticket that exists.
abbrev pub Exists : List Ticket → TicketStatusHistory → Type 0
Exists ts h = (All (λ t. t.id ≢ h.ticket_id) ts → ⊥)

module _ (f : Ticket → Ticket) (same_id : (t : Ticket) → (f t).id ≡ t.id) where
  update_where-ids :
      (id n : ℕ) (ts : List Ticket)
      → All (λ t. t.id ≢ n) (update_where (has_key (λ t. t.id) id) f ts)
      → All (λ t. t.id ≢ n) ts
  update_where-ids id n [] h = tt
  update_where-ids id n (t ∷ ts) h = elim (Bool-cases (t.id == id)) [
    | inl e ↦ let split = rw (e, same_id t) at h in (split.0, update_where-ids id n ts split.1)
    | inr e ↦ let split = rw e at h in (split.0, update_where-ids id n ts split.1)
  ]

Exists-of_found :
    (ts : List Ticket) (t : Ticket) (h : TicketStatusHistory)
    → find_by (has_key (λ t. t.id) h.ticket_id) ts ≡ some t
    → Exists ts h
Exists-of_found ts t h found none_such =
    find_by-All (λ t. t.id ≢ h.ticket_id) _ ts t found none_such
      ((==_iff _ _).0 (find_by_holds _ ts t found))

module _ {Db : Type 0} (store : TicketStore Db) where
  -- The tables agree: ids are distinct, each ticket's history explains its status, and no history is
  -- of a ticket that is not there.
  pub record Audited (d : Db) : Type 0 where
    pub distinct : Distinct (λ t. t.id) (store.tickets.rows d)
    pub explained : All (Explains (store.histories.rows d)) (store.tickets.rows d)
    pub anchored : All (Exists (store.tickets.rows d)) (store.histories.rows d)

  -- A change that is recorded, from the status that the ticket had, keeps the tables in agreement.
  pub Recorded-Audited :
      (id : ℕ) (f : Ticket → Ticket) (to_status : String) (by at : ℕ) (d e : Db) (before : Ticket)
      → ((t : Ticket) → (f t).id ≡ t.id)
      → ((t : Ticket) → (f t).status ≡ to_status)
      → find_by (has_key (λ t. t.id) id) (store.tickets.rows d) ≡ some before
      → Recorded store id f before.status to_status by at d e
      → Audited d
      → Audited e
  Recorded-Audited id f to_status by at d e before same_id new_status found r a = record {
    distinct = rw r.rewritten (update_where-Distinct (λ t. t.id) id f same_id _ a.distinct);
    explained =
        rw (r.rewritten, r.logged)
          (update_where-All (λ t. t.id) (Explains old) (Explains (old ++ r.entry ∷ [])) id f others
            _ before a.distinct found a.explained moved);
    anchored =
        rw (r.rewritten, r.logged)
          (All-append _ old (r.entry ∷ [])
            (All-map (λ h k g. k (update_where-ids f same_id id h.ticket_id _ g)) old a.anchored)
            (Exists_of_updated, tt));
  }
    where
      old : List TicketStatusHistory
      old = store.histories.rows d

      here : before.id ≡ id
      here = (==_iff _ _).0 (find_by_holds _ _ before found)

      hit : about before.id r.entry ≡ true
      hit = (==_iff _ _).1 (r.tells.of_ticket ∙ sym here)

      Exists_of_updated :
          Exists (update_where (has_key (λ t. t.id) id) f (store.tickets.rows d)) r.entry
      Exists_of_updated g =
          Exists-of_found (store.tickets.rows d) before r.entry (rw r.tells.of_ticket found)
            (update_where-ids f same_id id r.entry.ticket_id _ g)

      others : (t : Ticket) → t.id ≢ id → Explains old t → Explains (old ++ r.entry ∷ []) t
      others t ne l =
          rw (keep-append_miss (about t.id) old r.entry (ground (arith, r.tells.of_ticket))) l

      moved : Explains old before → Explains (old ++ r.entry ∷ []) (f before)
      moved l =
          rw (same_id before, keep-append_hit (about before.id) old r.entry hit)
            (subst (Leads status_open _) (r.tells.to ∙ sym (new_status before))
              (Leads-append status_open before.status _ r.entry l r.tells.from))
