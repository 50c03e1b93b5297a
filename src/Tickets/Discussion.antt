-- ===== src/Tickets/Discussion.antt =====
-- comment_usecase.go and attachment_usecase.go.
use helpdesk_microservices.Base.{
  ℕ, ◌*◌, ltb, ◌==◌, ◌=s=◌, Bool, not, ◌&&◌, String, List, length, keep, Result, ok, lift, ◌>>=◌,
  ◌>>◌, guard, if◌then◌else◌,
}
use helpdesk_microservices.Tickets.Domain.{Ticket, TicketComment, TicketAttachment}
use helpdesk_microservices.Tickets.Store.{
  TicketStore, create_comment, find_comments, create_attachment, find_attachments, find_attachment,
}
use helpdesk_microservices.Tickets.Usecase.{
  Error, forbidden, attachment_too_large, database, get_ticket_by_id,
}

abbrev pub max_attachment_size : ℕ
max_attachment_size = 5 * 1024 * 1024

module _ {Db : Type 0} (store : TicketStore Db) where
  unfoldable pub add_comment :
      Db
      → (ticket author : ℕ) → (role body : String) → Bool
      → Result Error ((TicketComment × Ticket) × Db)
  add_comment d id author role body is_internal = do
    ticket ← get_ticket_by_id store d id author role
    (comment, d') ← lift database (
        create_comment store d (record {
          id = 0;
          ticket_id = id;
          author_id = author;
          author_role = role;
          body = body;
          is_internal = is_internal && not (role =s= "user");
          created_at = 0;
        }))
    ok ((comment, ticket), d')

  unfoldable pub list_comments : Db → (ticket user : ℕ) → String → Result Error (List TicketComment)
  list_comments d id user role = do
    _ ← get_ticket_by_id store d id user role
    comments ← lift database (find_comments store d id)
    ok (if not (role =s= "user") then comments else keep (λ c. not c.is_internal) comments)

  unfoldable pub add_attachment :
      Db
      → (ticket uploader : ℕ) → (role filename content_type : String) → List ℕ
      → Result Error ((TicketAttachment × Ticket) × Db)
  add_attachment d id uploader role filename content_type content = do
    guard (not (ltb max_attachment_size (length content))) attachment_too_large
    ticket ← get_ticket_by_id store d id uploader role
    (attachment, d') ← lift database (
        create_attachment store d (record {
          id = 0;
          ticket_id = id;
          uploader_id = uploader;
          filename = filename;
          content_type = content_type;
          size = length content;
          content = content;
          created_at = 0;
        }))
    ok ((attachment, ticket), d')

  unfoldable pub list_attachments :
      Db → (ticket user : ℕ) → String → Result Error (List TicketAttachment)
  list_attachments d id user role = do
    _ ← get_ticket_by_id store d id user role
    lift database (find_attachments store d id)

  unfoldable pub get_attachment :
      Db → (ticket attachment user : ℕ) → String → Result Error TicketAttachment
  get_attachment d id attachment_id user role = do
    _ ← get_ticket_by_id store d id user role
    attachment ← lift database (find_attachment store d attachment_id)
    guard (attachment.ticket_id == id) forbidden
    ok attachment
