-- ===== src/Tickets/Access.antt =====
-- Who gets to see what: tickets, lists of tickets, comments and attachments.
use helpdesk_microservices.Base.{
  ℕ, ◌≡◌, ◌≢◌, refl, ap, ◌∙◌, subst, inl, inr, true, false, not, some, String, List, All, All-map,
  All-keep, find_by_holds, ok, err, guard, guard-eq-ok, bind-eq-ok, lifted-eq-ok, ok-injective,
  arith, eq_iff, ◌==◌, ==_iff, ◌=s=◌, Bool-cases,
}
use helpdesk_microservices.Tickets.Domain.{Ticket, TicketComment, TicketAttachment}
use helpdesk_microservices.Tickets.Store.{TicketStore, find_by_id, find_comments, find_attachment}
use helpdesk_microservices.Tickets.Usecase.{forbidden, database, may_see, get_ticket_by_id}
use helpdesk_microservices.Tickets.Lifecycle.{is_id_iff}
use helpdesk_microservices.Tickets.Discussion.{list_comments, get_attachment}

-- An admin sees every ticket, an agent the tickets assigned to him, anybody else his own.
pub data Sees (user : ℕ) (ticket : Ticket) : String → Type 0 where
  as_admin : Sees user ticket "admin"
  as_agent : ticket.assigned_agent_id ≡ some user → Sees user ticket "agent"
  as_owner :
      {role : String}
      → role ≢ "admin"
      → role ≢ "agent"
      → ticket.user_id ≡ user
      → Sees user ticket role

may_see-Sees :
    (user : ℕ) (role : String) (ticket : Ticket)
    → may_see user role ticket ≡ true
    → Sees user ticket role
unfolding may_see
may_see-Sees user role ticket h = elim (Bool-cases (role =s= "admin")) [
  | inl a ↦ rw ((eq_iff role "admin").0 a) as_admin
  | inr na ↦ elim (Bool-cases (role =s= "agent")) [
    | inl b ↦ rw ((eq_iff role "agent").0 b) (as_agent ((is_id_iff _ user).0 (rw (na, b) at h)))
    | inr nb ↦
        as_owner (λ e. cc (na, (eq_iff role "admin").1 e)) (λ e. cc (nb, (eq_iff role "agent").1 e))
          ((==_iff _ _).0 (rw (na, nb) at h))
  ]
]

Sees-may_see :
    {user : ℕ} {role : String} {ticket : Ticket}
    → Sees user ticket role
    → may_see user role ticket ≡ true
unfolding may_see
Sees-may_see as_admin = refl
Sees-may_see {user} {ticket} (as_agent e) = rw e (ground arith)
Sees-may_see {user} {role} {ticket} (as_owner na nb e) =
    ground (arith, eq_iff role "admin", eq_iff role "agent")

module _ {Db : Type 0} (store : TicketStore Db) where
  -- A ticket is returned by its id only to an admin, to the agent that it is assigned to, or to
  -- one of another role who opened it, and it is the row that is read under that id.
  pub get_ticket_by_id-Sees :
      (d : Db) (id user : ℕ) (role : String) (ticket : Ticket)
      → get_ticket_by_id store d id user role ≡ ok ticket
      → (store.tickets.first d id ≡ ok ticket) × (ticket.id ≡ id) × Sees user ticket role
  unfolding get_ticket_by_id find_by_id
  get_ticket_by_id-Sees d id user role ticket h =
      let (t, read, rest) = lifted-eq-ok database (store.tickets.first d id) _ h in
      let (_, may, last) = bind-eq-ok (guard (may_see user role t) forbidden) _ rest in
      let same : t ≡ ticket = ok-injective last in
      let row = store.tickets.first_found d id t read in
      (
        read ∙ ap ok same,
        subst (λ (x : Ticket). x.id ≡ id) same ((==_iff _ _).0 (find_by_holds _ _ t row)),
        subst (λ x. Sees user x role) same (may_see-Sees user role t (guard-eq-ok _ forbidden may)),
      )

  pub get_ticket_by_id-forbidden :
      (d : Db) (id user : ℕ) (role : String) (ticket : Ticket)
      → store.tickets.first d id ≡ ok ticket
      → (Sees user ticket role → ⊥)
      → get_ticket_by_id store d id user role ≡ err forbidden
  unfolding get_ticket_by_id find_by_id
  get_ticket_by_id-forbidden d id user role ticket read hidden =
      elim (Bool-cases (may_see user role ticket)) [
        | inl may ↦ absurd (hidden (may_see-Sees user role ticket may))
        | inr unseen ↦ rw (read, unseen)
      ]

  -- The comments that a plain user is shown have no internal note among them.
  pub list_comments-public :
      (d : Db) (id user : ℕ) (comments : List TicketComment)
      → list_comments store d id user "user" ≡ ok comments
      → All (λ c. c.is_internal ≡ false) comments
  unfolding list_comments find_comments
  list_comments-public d id user comments h =
      let (ticket, seen, rest) = bind-eq-ok (get_ticket_by_id store d id user "user") _ h in
      let (found, read, last) = lifted-eq-ok database (store.comments.find d _) _ rest in
      subst (All (λ (c : TicketComment). c.is_internal ≡ false)) (ok-injective last) (
        All-map (λ (c : TicketComment) e. ground arith) _ (All-keep (λ c. not c.is_internal) found))

  -- A download is of an attachment of the ticket that was named, which the caller may see.
  pub get_attachment-Sees :
      (d : Db) (id attachment_id user : ℕ) (role : String) (a : TicketAttachment)
      → get_attachment store d id attachment_id user role ≡ ok a
      → (ticket : Ticket) × (ticket.id ≡ id)
        × Sees user ticket role
        × (a.ticket_id ≡ id)
        × (a.id ≡ attachment_id)
  unfolding get_attachment find_attachment
  get_attachment-Sees d id attachment_id user role a h =
      let (ticket, seen, rest) = bind-eq-ok (get_ticket_by_id store d id user role) _ h in
      let (b, read, rest') =
        lifted-eq-ok database (store.attachments.first d attachment_id) _ rest in
      let (_, here, last) = bind-eq-ok (guard (b.ticket_id == id) forbidden) _ rest' in
      let same : b ≡ a = ok-injective last in
      let sees = get_ticket_by_id-Sees d id user role ticket seen in
      let row = store.attachments.first_found d attachment_id b read in
      (
        ticket,
        sees.1,
        sees.2,
        subst (λ (x : TicketAttachment). x.ticket_id ≡ id) same
            ((==_iff _ _).0 (guard-eq-ok _ forbidden here)),
        subst (λ (x : TicketAttachment). x.id ≡ attachment_id) same
            ((==_iff _ _).0 (find_by_holds _ _ b row)),
      )
