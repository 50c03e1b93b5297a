-- ===== src/Tickets/Store/Memory.antt =====
-- A ticket store in memory: the interface of the store can be met.
use helpdesk_microservices.Base.{ℕ, ◌≡◌, refl, ap, sym, ok-injective, List, ok, ◌=s=◌}
use helpdesk_microservices.Db.{Table}
use helpdesk_microservices.Db.Memory.{memory_table, create_in-put}
use helpdesk_microservices.Tickets.Domain.{
  Ticket, TicketStatusHistory, TicketComment, TicketAttachment, ticket_defaults, history_defaults,
  comment_defaults, attachment_defaults,
}
use helpdesk_microservices.Tickets.Store.Defs.{TicketStore}

pub record MemoryDb : Type 0 where
  pub tickets : List Ticket
  pub histories : List TicketStatusHistory
  pub comments : List TicketComment
  pub attachments : List TicketAttachment

module _ (now : ℕ) where
  abbrev pub tickets_table : Table MemoryDb Ticket (λ t. t.id) ticket_defaults
  tickets_table =
      memory_table (λ d. d.tickets) (λ d rs. record d { tickets = rs }) (λ d rs. refl) (λ t. t.id)
        ticket_defaults now

  abbrev pub histories_table : Table MemoryDb TicketStatusHistory (λ h. h.id) history_defaults
  histories_table =
      memory_table (λ d. d.histories) (λ d rs. record d { histories = rs }) (λ d rs. refl)
        (λ h. h.id) history_defaults now

  abbrev pub comments_table : Table MemoryDb TicketComment (λ c. c.id) comment_defaults
  comments_table =
      memory_table (λ d. d.comments) (λ d rs. record d { comments = rs }) (λ d rs. refl) (λ c. c.id)
        comment_defaults now

  abbrev pub attachments_table : Table MemoryDb TicketAttachment (λ a. a.id) attachment_defaults
  attachments_table =
      memory_table (λ d. d.attachments) (λ d rs. record d { attachments = rs }) (λ d rs. refl)
        (λ a. a.id) attachment_defaults now

  pub tickets_create-frame :
      (d e : MemoryDb) (row stored : Ticket)
      → tickets_table.create d row ≡ ok (stored, e)
      → e.histories ≡ d.histories
  unfolding memory_table
  tickets_create-frame d e row stored h =
      let (rs, at) =
        create_in-put (λ m. m.tickets) (λ m rs. record m { tickets = rs }) (λ m rs. refl)
          (λ t. t.id) ticket_defaults now d e row stored h in
      ap (λ (m : MemoryDb). m.histories) at

  pub histories_create-frame :
      (d e : MemoryDb) (row stored : TicketStatusHistory)
      → histories_table.create d row ≡ ok (stored, e)
      → e.tickets ≡ d.tickets
  unfolding memory_table
  histories_create-frame d e row stored h =
      let (rs, at) =
        create_in-put (λ m. m.histories) (λ m rs. record m { histories = rs }) (λ m rs. refl)
          (λ h. h.id) history_defaults now d e row stored h in
      ap (λ (m : MemoryDb). m.tickets) at

  pub comments_create-frame :
      (d e : MemoryDb) (row stored : TicketComment)
      → comments_table.create d row ≡ ok (stored, e)
      → (e.tickets ≡ d.tickets) × (e.histories ≡ d.histories)
  unfolding memory_table
  comments_create-frame d e row stored h =
      let (rs, at) =
        create_in-put (λ m. m.comments) (λ m rs. record m { comments = rs }) (λ m rs. refl)
          (λ c. c.id) comment_defaults now d e row stored h in
      (ap (λ (m : MemoryDb). m.tickets) at, ap (λ (m : MemoryDb). m.histories) at)

  pub attachments_create-frame :
      (d e : MemoryDb) (row stored : TicketAttachment)
      → attachments_table.create d row ≡ ok (stored, e)
      → (e.tickets ≡ d.tickets) × (e.histories ≡ d.histories)
  unfolding memory_table
  attachments_create-frame d e row stored h =
      let (rs, at) =
        create_in-put (λ m. m.attachments) (λ m rs. record m { attachments = rs }) (λ m rs. refl)
          (λ a. a.id) attachment_defaults now d e row stored h in
      (ap (λ (m : MemoryDb). m.tickets) at, ap (λ (m : MemoryDb). m.histories) at)

  -- A text matches the pattern that is the text itself.
  unfoldable pub memory_store : TicketStore MemoryDb
  unfolding memory_table
  memory_store = record {
    tickets = tickets_table;
    histories = histories_table;
    comments = comments_table;
    attachments = attachments_table;
    transaction = λ d body. body d;
    ilike = λ a b. a =s= b;
    transaction_body = λ d e body h. h;
    updates_keep_histories = λ d e p f h. ap (λ (m : MemoryDb). m.histories) (sym (ok-injective h));
    tickets_keep_histories = λ d e row stored h. tickets_create-frame d e row stored h;
    histories_keep_tickets = λ d e row stored h. histories_create-frame d e row stored h;
    comments_keep_tickets = λ d e row stored h. comments_create-frame d e row stored h;
    attachments_keep_tickets = λ d e row stored h. attachments_create-frame d e row stored h;
  }
