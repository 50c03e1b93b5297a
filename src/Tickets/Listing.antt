-- ===== src/Tickets/Listing.antt =====
-- GET /tickets: which tickets a page holds, how many and in what order.
use helpdesk_microservices.Base.{
  ℕ, ◌≤◌, ◌≡◌, ◌≢◌, refl, ==_iff, inl, inr, Bool, true, ◌&&◌, Option, none, some, String, List, All,
  All-map, length, ok, lift-eq-ok, arith, eq_iff, ◌=s=◌, Bool-cases, ℤ,
}
use helpdesk_microservices.Db.{IsSorted, desc}
use helpdesk_microservices.Db.Selection.{Selected-All, Selected-IsSorted, Selected-length}
use helpdesk_microservices.Tickets.Domain.{Ticket, TicketFilter}
use helpdesk_microservices.Tickets.Store.{
  TicketStore, is_null, apply_filter, newest_first, find_all, find_by_user, find_by_agent,
  find_unassigned,
}
use helpdesk_microservices.Tickets.Usecase.{database, get_tickets}
use helpdesk_microservices.Tickets.Lifecycle.{is_id_iff}

-- The scope that each role has.
pub data InScope (user : ℕ) (ticket : Ticket) : (role scope : String) → Type 0 where
  everything : {scope : String} → InScope user ticket "admin" scope
  queue : ticket.assigned_agent_id ≡ none → InScope user ticket "agent" "queue"
  mine :
      {scope : String}
      → scope ≢ "queue"
      → ticket.assigned_agent_id ≡ some user
      → InScope user ticket "agent" scope
  own :
      {role scope : String}
      → role ≢ "admin"
      → role ≢ "agent"
      → ticket.user_id ≡ user
      → InScope user ticket role scope

-- Tickets of one page: all in scope, all passing the filter, newest first, at most `limit` of them.
pub record IsPage {Db : Type 0} (store : TicketStore Db) (now user : ℕ) (role scope : String)
    (filter : TicketFilter) (limit : ℕ) (page : List Ticket) : Type 0 where
  pub scoped : All (λ t. InScope user t role scope) page
  pub filtered : All (λ t. apply_filter store now filter t ≡ true) page
  pub newest : IsSorted (λ (t : Ticket). t.id) desc page
  pub bounded : length page ≤ limit

is_null_lem : (o : Option ℕ) → is_null o ≡ true → o ≡ none
is_null_lem none h = refl
is_null_lem (some i) h = cc

both-true : (a b : Bool) → (a && b) ≡ true → (a ≡ true) × (b ≡ true)
both-true a b h = ground arith

module _ {Db : Type 0} (store : TicketStore Db) (d : Db) (now user : ℕ) (role scope : String)
    (filter : TicketFilter) (limit : ℕ) (offset : ℤ) (page : List Ticket) where
  -- A query for the rows that pass a test and the filter.
  page_of :
      (p : Ticket → Bool)
      → ((t : Ticket)
          → p t ≡ true
          → InScope user t role scope × (apply_filter store now filter t ≡ true))
      → store.tickets.find d (newest_first p limit offset) ≡ ok page
      → IsPage store now user role scope filter limit page
  page_of p means h =
      let s = store.tickets.find_selected d _ page h in
      let rows = All-map means page (Selected-All s) in
      record {
        scoped =
            All-map
              (λ t (b : InScope user t role scope × (apply_filter store now filter t ≡ true)). b.0)
              page rows;
        filtered =
            All-map
              (λ t (b : InScope user t role scope × (apply_filter store now filter t ≡ true)). b.1)
              page rows;
        newest = Selected-IsSorted s;
        bounded = Selected-length s limit refl;
      }

  -- A page of tickets that is returned has only tickets in the caller's scope that pass the
  -- filter, newest first, and no more than the limit.
  pub get_tickets-IsPage :
      get_tickets store d now user role scope filter limit offset ≡ ok page
      → IsPage store now user role scope filter limit page
  unfolding get_tickets find_all find_by_user find_by_agent find_unassigned
  get_tickets-IsPage h = elim (Bool-cases (role =s= "admin")) [
    | inl a ↦
        page_of _ (λ t e. (rw ((eq_iff role "admin").0 a) everything, e))
          (lift-eq-ok database _ (rw a at h))
    | inr na ↦ elim (Bool-cases (role =s= "agent")) [
      | inl b ↦ elim (Bool-cases (scope =s= "queue")) [
        | inl c ↦
            page_of _
              (λ t e.
                let (free, f) = both-true _ _ e in
                (
                  rw ((eq_iff role "agent").0 b, (eq_iff scope "queue").0 c)
                      (queue (is_null_lem _ free)),
                  f,
                ))
              (lift-eq-ok database _ (rw (na, b, c) at h))
        | inr nc ↦
            page_of _
              (λ t e.
                let (his, f) = both-true _ _ e in
                (
                  rw ((eq_iff role "agent").0 b)
                      (mine (λ q. cc (nc, (eq_iff scope "queue").1 q)) ((is_id_iff _ user).0 his)),
                  f,
                ))
              (lift-eq-ok database _ (rw (na, b, nc) at h))
      ]
      | inr nb ↦
          page_of _
            (λ t e.
              let (his, f) = both-true _ _ e in
              (
                own (λ q. cc (na, (eq_iff role "admin").1 q))
                    (λ q. cc (nb, (eq_iff role "agent").1 q)) ((==_iff _ _).0 his),
                f,
              ))
            (lift-eq-ok database _ (rw (na, nb) at h))
    ]
  ]
