-- ===== src/Tickets/Handler/Uploads.antt =====
-- attachment_handler.go. Gin parses the form: an upload arrives with its declared size and headers.
use helpdesk_microservices.Base.{
  ℕ, ltb, ◌=s=◌, Bool, not, Option, String, List, Result, ok, ◌>>=◌, ◌>>◌, guard, if◌then◌else◌,
}
use helpdesk_microservices.Http.{Headers, Refusal, refusal, Served, serve, answer, or_refuse}
use helpdesk_microservices.Tickets.Domain.{TicketAttachment}
use helpdesk_microservices.Tickets.Store.{TicketStore}
use helpdesk_microservices.Tickets.Discussion.{
  max_attachment_size, add_attachment, list_attachments, get_attachment,
}
use helpdesk_microservices.Tickets.Handler.Requests.{
  Event, scan_id, require_user, invalid_ticket_id, ticket_not_found, publish_event,
  ticket_activity_target, upload_refusal,
}

-- `content` is none where the file cannot be opened or read.
pub record Upload : Type 0 where
  pub filename : String
  pub size : ℕ
  pub content_type : String
  pub content : Option (List ℕ)

abbrev pub missing_file : Refusal
missing_file = refusal 400 "missing file" "BAD_REQUEST"

abbrev pub file_too_large : Refusal
file_too_large = refusal 413 "attachment too large (max 5MB)" "PAYLOAD_TOO_LARGE"

abbrev pub unreadable : Refusal
unreadable = refusal 500 "failed to read upload" "INTERNAL_ERROR"

unfoldable pub content_type_of : Upload → String
content_type_of file =
    if file.content_type =s= "" then "application/octet-stream" else file.content_type

module _ {Db : Type 0} (store : TicketStore Db) where
  unfoldable pub get_attachments :
      Db → Headers → (id : String) → Result Refusal (List TicketAttachment)
  get_attachments d headers id_param = do
    (user, role) ← require_user headers
    id ← scan_id id_param invalid_ticket_id
    answer (λ _. ticket_not_found) (list_attachments store d id user role)

  -- The file that is sent, with its name and type.
  unfoldable pub download :
      Db → Headers → (id attachment_id : String) → Result Refusal TicketAttachment
  download d headers id_param attachment_param = do
    (user, role) ← require_user headers
    id ← scan_id id_param invalid_ticket_id
    attachment_id ← scan_id attachment_param (refusal 400 "invalid attachment id" "BAD_REQUEST")
    answer (λ _. refusal 404 "attachment not found" "NOT_FOUND")
        (get_attachment store d id attachment_id user role)

module _ {Db : Type 0} (store : TicketStore Db) (connected : Bool) where
  unfoldable pub try_post_attachment :
      Db
      → Headers
      → (id : String) → Option Upload
      → Result Refusal (TicketAttachment × Db × List Event)
  try_post_attachment d headers id_param form = do
    (user, role) ← require_user headers
    id ← scan_id id_param invalid_ticket_id
    file ← or_refuse form missing_file
    guard (not (ltb max_attachment_size file.size)) file_too_large
    content ← or_refuse file.content unreadable
    ((attachment, ticket), d') ←
        answer upload_refusal
          (add_attachment store d id user role file.filename (content_type_of file) content)
    let (target_user, roles) = ticket_activity_target ticket role
    ok (
      attachment,
      d',
      publish_event connected (record {
        kind = "ticket_attachment_added";
        ticket_id = id;
        title = attachment.filename;
        status = "";
        target_user_id = target_user;
        target_roles = roles;
      }),
    )

  unfoldable pub post_attachment :
      Db → Headers → (id : String) → Option Upload → Served Db Event TicketAttachment
  unfolding try_post_attachment
  post_attachment d headers id_param form = serve d (try_post_attachment d headers id_param form)
