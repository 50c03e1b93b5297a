-- ===== src/Tickets/Concurrent/Consistency.antt =====
-- What overlapping requests keep of ticket_usecase.go: a ticket is open exactly where no agent has it.
use helpdesk_microservices.Base.{
  ℕ, ◌≡◌, ◌≢◌, refl, sym, ap, ◌∙◌, subst, ◌⊎◌, inl, inr, Bool-cases, none, some, String, List, [],
  ◌∷◌, ◌++◌, All, All-append, All-map, ok, guard, guard-eq-ok, bind-eq-ok, lift-eq-ok, lifted-eq-ok,
  ok-injective, find_by, ◌==◌, if◌then◌else◌,
}
use helpdesk_microservices.Db.{has_key, update_where}
use helpdesk_microservices.Db.Rows.{
  Distinct, Distinct-append, update_where-Distinct, update_where-All, find_by-All, find_by-append,
  find_by-update_where,
}
use helpdesk_microservices.Tickets.Domain.{
  Ticket, TicketStatusHistory, status_open, status_assigned,
}
use helpdesk_microservices.Tickets.Store.{
  TicketStore, find_by_id, create_ticket, assigned_to, moved_to, Recorded,
  assign_and_transition-Recorded, transition_status-Recorded,
}
use helpdesk_microservices.Tickets.Usecase.{
  forbidden, invalid_transition, database, assignee, may_move, contains_text, allowed_transitions,
  create,
}
use helpdesk_microservices.Tickets.Lifecycle.{Phase, Legal, status_name, LegalMove, allowed-sound}
use helpdesk_microservices.Tickets.Audit.{add_comment-keeps, add_attachment-keeps}
use helpdesk_microservices.Tickets.Concurrent.Defs.{
  Write, assigns, moves, plan_assign, plan_move, perform, Desk, desk, Step, posts, plans_assign,
  plans_move, commits, fails, comments, attaches, Steps, done, next,
}

abbrev HasAgent : Ticket → Type 0
HasAgent t = (agent : ℕ) × (t.assigned_agent_id ≡ some agent)

-- The status is the name of a phase that is not `opened`.
abbrev IsWorked : String → Type 0
IsWorked s = (p : Phase) × (p ≢ Phase.opened) × (s ≡ status_name p)

-- A ticket is open and nobody has it, or it is in a later phase and an agent has it.
abbrev pub Stands : Ticket → Type 0
Stands t = (t.status ≡ status_open) × (t.assigned_agent_id ≡ none) ⊎ IsWorked t.status × HasAgent t

-- The entry is of a legal move, or of an assignment.
abbrev pub Tracks : TicketStatusHistory → Type 0
Tracks h = LegalMove h.from_status h.to_status ⊎ (h.to_status ≡ status_assigned)

-- A move that was decided on is legal from the status that was read, and its ticket has an agent.
abbrev pub Fits : List Ticket → Write → Type 0
Fits ts (Write.assigns id agent by at) = Unit {0}
Fits ts (Write.moves id from_status to_status by at) =
    LegalMove from_status to_status
    × (t : Ticket) × (find_by (has_key (λ t. t.id) id) ts ≡ some t)
    × HasAgent t

Legal-left : {p q : Phase} → Legal p q → (p ≢ Phase.opened) × (q ≢ Phase.opened)
Legal-left Legal.start = ((λ e. cc), (λ e. cc))
Legal-left Legal.park = ((λ e. cc), (λ e. cc))
Legal-left Legal.resume = ((λ e. cc), (λ e. cc))
Legal-left Legal.resolve = ((λ e. cc), (λ e. cc))
Legal-left Legal.resolve_parked = ((λ e. cc), (λ e. cc))
Legal-left Legal.close = ((λ e. cc), (λ e. cc))
Legal-left Legal.reopen = ((λ e. cc), (λ e. cc))

-- No move starts from an open ticket.
open_stays : {s t : String} → LegalMove s t → s ≢ status_open
open_stays m e = left m.source (sym m.named_from ∙ e) (Legal-left m.legal).0
  where
    left : (p : Phase) → status_name p ≡ status_open → p ≢ Phase.opened → ⊥
    left Phase.opened eq ne = ne refl
    left Phase.assigned eq ne = cc
    left Phase.in_progress eq ne = cc
    left Phase.pending eq ne = cc
    left Phase.resolved eq ne = cc
    left Phase.closed eq ne = cc

-- A write on one ticket that leaves it, and each other one, with an agent keeps the decisions fit.
update-Fits :
    (id : ℕ) (f : Ticket → Ticket) (ts : List Ticket) (w : Write)
    → ((t : Ticket) → (f t).id ≡ t.id)
    → ((t : Ticket) → HasAgent t → HasAgent (f t))
    → Fits ts w
    → Fits (update_where (has_key (λ t. t.id) id) f ts) w
update-Fits id f ts (assigns i agent by at) same_id keeps fit = tt
update-Fits id f ts (moves i from_status to_status by at) same_id keeps (l, t, found, has) =
    (l, _, find_by-update_where (λ t. t.id) id i f same_id ts t found, kept)
  where
    kept : HasAgent (if t.id == id then f t else t)
    kept = elim (Bool-cases (t.id == id)) [ inl e ↦ rw e (keeps t has) | inr e ↦ rw e has ]

append-Fits : (ts xs : List Ticket) (w : Write) → Fits ts w → Fits (ts ++ xs) w
append-Fits ts xs (assigns i agent by at) fit = tt
append-Fits ts xs (moves i from_status to_status by at) (l, t, found, has) =
    (l, t, find_by-append _ ts xs t found, has)

module _ (P : Write → Type 0) (w : Write) (vs : List Write) where
  All-at : (ws : List Write) → All P (ws ++ w ∷ vs) → P w
  All-at [] h = h.0
  All-at (v ∷ ws) h = All-at ws h.1

  All-drop_at : (ws : List Write) → All P (ws ++ w ∷ vs) → All P (ws ++ vs)
  All-drop_at [] h = h.1
  All-drop_at (v ∷ ws) h = (h.0, All-drop_at ws h.1)

module _ {Db : Type 0} (store : TicketStore Db) where
  -- The tables and the decisions agree.
  pub record Consistent (s : Desk store) : Type 0 where
    pub distinct : Distinct (λ t. t.id) (store.tickets.rows s.db)
    pub standing : All Stands (store.tickets.rows s.db)
    pub tracked : All Tracks (store.histories.rows s.db)
    pub fitting : All (Fits (store.tickets.rows s.db)) s.planned

  -- A transaction on a ticket that is found, which leaves it with an agent and past `open`.
  Recorded-Consistent :
      (id : ℕ) (f : Ticket → Ticket) (from_status to_status : String) (by now : ℕ) (d e : Db)
      (before : Ticket) (ws vs : List Write) (w : Write)
      → ((t : Ticket) → (f t).id ≡ t.id)
      → ((t : Ticket) → HasAgent t → HasAgent (f t))
      → Stands (f before)
      → LegalMove from_status to_status ⊎ (to_status ≡ status_assigned)
      → find_by (has_key (λ t. t.id) id) (store.tickets.rows d) ≡ some before
      → Recorded store id f from_status to_status by now d e
      → Consistent (desk store d (ws ++ w ∷ vs))
      → Consistent (desk store e (ws ++ vs))
  Recorded-Consistent id f from_status to_status by now d e before ws vs w same_id keeps stands
        tracks found r c =
      record {
        distinct = rw r.rewritten (update_where-Distinct (λ t. t.id) id f same_id _ c.distinct);
        standing = rw r.rewritten (
            update_where-All (λ t. t.id) Stands Stands id f (λ t ne h. h) _ before c.distinct found
              c.standing (λ h. stands));
        tracked =
            rw r.logged
              (All-append Tracks (store.histories.rows d) (r.entry ∷ []) c.tracked (entry, tt));
        fitting = rw r.rewritten (
            All-map (λ v fit. update-Fits id f (store.tickets.rows d) v same_id keeps fit)
              (ws ++ vs) (All-drop_at (Fits (store.tickets.rows d)) w vs ws c.fitting));
      }
    where
      entry : Tracks r.entry
      entry = elim tracks [
        | inl l ↦ inl (rw (r.tells.from, r.tells.to) l)
        | inr a ↦ inr (r.tells.to ∙ a)
      ]

  perform-Consistent :
      (d e : Db) (ws vs : List Write) (w : Write)
      → perform store d w ≡ ok e
      → Consistent (desk store d (ws ++ w ∷ vs))
      → Consistent (desk store e (ws ++ vs))
  unfolding perform
  perform-Consistent d e ws vs (assigns id agent by now) h c =
      let (before, found, r) = assign_and_transition-Recorded store d e id agent by now h in
      Recorded-Consistent id (assigned_to agent now) before.status status_assigned by now d e before
        ws vs _ (λ t. refl) (λ t has. (agent, refl))
        (inr ((Phase.assigned, (λ eq. cc), refl), (agent, refl))) (inr refl) found r c
  perform-Consistent d e ws vs (moves id from_status to_status by now) h c =
      let (l, t, found, has) = All-at (Fits (store.tickets.rows d)) _ vs ws c.fitting in
      Recorded-Consistent id (moved_to to_status now) from_status to_status by now d e t ws vs _
        (λ t. refl) (λ t has. has) (inr ((l.target, (Legal-left l.legal).1, l.named_to), has))
        (inl l) found (transition_status-Recorded store d e id from_status to_status by now h) c

  plan_assign-Fits :
      (d : Db) (now id requester : ℕ) (role : String) (target : ℕ) (w : Write)
      → plan_assign store d now id requester role target ≡ ok w
      → Fits (store.tickets.rows d) w
  unfolding plan_assign find_by_id
  plan_assign-Fits d now id requester role target w h =
      let (ticket, seen, rest) = lifted-eq-ok database (store.tickets.first d id) _ h in
      let (agent, allowed, last) = bind-eq-ok (assignee ticket requester role target) _ rest in
      subst (Fits (store.tickets.rows d)) (ok-injective last) tt

  plan_move-Fits :
      (d : Db) (now id requester : ℕ) (role new_status : String) (w : Write)
      → plan_move store d now id requester role new_status ≡ ok w
      → All Stands (store.tickets.rows d)
      → Fits (store.tickets.rows d) w
  unfolding plan_move find_by_id
  plan_move-Fits d now id requester role new_status w h standing =
      let (t, seen, rest) = lifted-eq-ok database (store.tickets.first d id) _ h in
      let (_, may, rest') = bind-eq-ok (guard (may_move requester role t) forbidden) _ rest in
      let (_, allowed, last) =
        bind-eq-ok
          (guard (contains_text (allowed_transitions t.status) new_status) invalid_transition) _
          rest' in
      let l = allowed-sound t.status new_status (guard-eq-ok _ invalid_transition allowed) in
      let found = store.tickets.first_found d id t seen in
      let has : HasAgent t = elim (find_by-All Stands _ _ t found standing) [
        | inl unclaimed ↦ absurd (open_stays l unclaimed.0)
        | inr worked ↦ worked.1
      ] in
      subst (Fits (store.tickets.rows d)) (ok-injective last) (l, t, found, has)

  create-Consistent :
      (d e : Db) (ws : List Write) (now : ℕ) (row stored : Ticket)
      → row.status ≡ ""
      → row.assigned_agent_id ≡ none
      → create store d now row ≡ ok (stored, e)
      → Consistent (desk store d ws)
      → Consistent (desk store e ws)
  unfolding create create_ticket
  create-Consistent d e ws now row stored blank nobody h c =
      let made = lift-eq-ok database _ h in
      let ins = store.tickets.create_inserted d e _ stored made in
      let log = store.tickets_keep_histories d e _ stored made in
      let opened : stored.status ≡ status_open =
        ap (λ (t : Ticket). t.status) ins.filled ∙ rw blank refl in
      let free : stored.assigned_agent_id ≡ none =
        ap (λ (t : Ticket). t.assigned_agent_id) ins.filled ∙ nobody in
      record {
        distinct =
            rw ins.appended
              (Distinct-append (λ t. t.id) (store.tickets.rows d) stored c.distinct ins.fresh);
        standing = rw ins.appended (
            All-append Stands (store.tickets.rows d) (stored ∷ []) c.standing
              (inl (opened, free), tt));
        tracked = rw log c.tracked;
        fitting = rw ins.appended (
            All-map (λ w fit. append-Fits (store.tickets.rows d) (stored ∷ []) w fit) ws c.fitting);
      }

  same_tables-Consistent :
      (d e : Db) (ws : List Write)
      → (store.tickets.rows e ≡ store.tickets.rows d)
        × (store.histories.rows e ≡ store.histories.rows d)
      → Consistent (desk store d ws)
      → Consistent (desk store e ws)
  same_tables-Consistent d e ws k c = record {
    distinct = rw k.0 c.distinct;
    standing = rw k.0 c.standing;
    tracked = rw k.1 c.tracked;
    fitting = rw k.0 c.fitting;
  }

  with_plan :
      (d : Db) (ws : List Write) (w : Write)
      → Fits (store.tickets.rows d) w
      → Consistent (desk store d ws)
      → Consistent (desk store d (w ∷ ws))
  with_plan d ws w fit c = record {
    distinct = c.distinct;
    standing = c.standing;
    tracked = c.tracked;
    fitting = (fit, c.fitting);
  }

  Step-Consistent : {s t : Desk store} → Step store s t → Consistent s → Consistent t
  Step-Consistent (posts d e ws now row stored blank nobody h) c =
      create-Consistent d e ws now row stored blank nobody h c
  Step-Consistent (plans_assign d ws w now id requester role target h) c =
      with_plan d ws w (plan_assign-Fits d now id requester role target w h) c
  Step-Consistent (plans_move d ws w now id requester role new_status h) c =
      with_plan d ws w (plan_move-Fits d now id requester role new_status w h c.standing) c
  Step-Consistent (commits d e ws vs w h) c = perform-Consistent d e ws vs w h c
  Step-Consistent (fails d ws vs w) c = record {
    distinct = c.distinct;
    standing = c.standing;
    tracked = c.tracked;
    fitting = All-drop_at (Fits (store.tickets.rows d)) w vs ws c.fitting;
  }
  Step-Consistent (comments d e ws id author role body is_internal r h) c =
      same_tables-Consistent d e ws
        (add_comment-keeps store d e id author role body is_internal r h) c
  Step-Consistent (attaches d e ws id uploader role filename content_type content r h) c =
      same_tables-Consistent d e ws
        (add_attachment-keeps store d e id uploader role filename content_type content r h) c

  -- However requests overlap between what they read and the transactions that they decide on, a
  -- ticket is open exactly where no agent has it, and in a later phase of the machine
  -- otherwise; the ids of tickets are distinct, each entry of the trail is of a legal move or
  -- of an assignment, and each move that is still to be made is legal from the status that was
  -- read, for a ticket that an agent has.
  pub Steps-Consistent : {s t : Desk store} → Steps store s t → Consistent s → Consistent t
  Steps-Consistent done c = c
  Steps-Consistent (next step steps) c = Steps-Consistent steps (Step-Consistent step c)
