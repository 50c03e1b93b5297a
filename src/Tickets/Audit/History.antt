-- ===== src/Tickets/Audit/History.antt =====
-- Whole histories of the ticket service: any sequence of requests that write.
use helpdesk_microservices.Base.{
  ℕ, ◌≡◌, refl, ltb, not, guard, ap, ◌∙◌, Bool, Option, String, List, [], ◌∷◌, ok, bind-eq-ok,
  arith,
}
use helpdesk_microservices.Http.{Headers, serve-state, answered-eq-ok, bind_json, or_refuse}
use helpdesk_microservices.Tickets.Domain.{TicketComment, TicketAttachment}
use helpdesk_microservices.Tickets.Store.{TicketStore}
use helpdesk_microservices.Tickets.Usecase.{create, assign_ticket, update_status}
use helpdesk_microservices.Tickets.Discussion.{max_attachment_size, add_comment, add_attachment}
use helpdesk_microservices.Tickets.Handler.{
  require_user, scan_id, invalid_ticket_id, invalid_input, CreateTicketRequest,
  CreateCommentRequest, Upload, Event, try_post_ticket, try_patch_assign, try_patch_status,
  try_post_comment, try_post_attachment, missing_file, file_too_large, unreadable, content_type_of,
  upload_refusal, post_ticket, patch_assign, patch_status, post_comment, post_attachment,
  requested_ticket, valid_ticket, valid_status, valid_comment, assign_refusal, status_refusal,
}
use helpdesk_microservices.Tickets.Audit.Trail.{Audited}
use helpdesk_microservices.Tickets.Audit.Requests.{
  create-Audited, assign_ticket-Audited, update_status-Audited, add_comment-Audited,
  add_attachment-Audited,
}

-- The requests that write, each with its clock, headers, path parameters and body.
pub data Request : Type 0 where
  posts_ticket : ℕ → Headers → Option CreateTicketRequest → Request
  assigns : ℕ → Headers → (id : String) → (agent_id : ℕ) → Request
  moves : ℕ → Headers → (id : String) → Option String → Request
  comments_on : Headers → (id : String) → Option CreateCommentRequest → Request
  uploads : Headers → (id : String) → Option Upload → Request

module _ {Db : Type 0} (store : TicketStore Db) (connected : Bool) where
  -- The database after a request.
  pub after_request : Db → Request → Db
  after_request d (posts_ticket now h body) = (post_ticket store connected d now h body).state
  after_request d (assigns now h id agent) = (patch_assign store connected d now h id agent).state
  after_request d (moves now h id body) = (patch_status store connected d now h id body).state
  after_request d (comments_on h id body) = (post_comment store connected d h id body).state
  after_request d (uploads h id form) = (post_attachment store connected d h id form).state

  pub after_requests : Db → List Request → Db
  after_requests d [] = d
  after_requests d (r ∷ rs) = after_requests (after_request d r) rs

  try_post_ticket-Audited :
      (d e : Db) (now : ℕ) (h : Headers) (body : Option CreateTicketRequest) (p : String)
      (sent : List Event)
      → try_post_ticket store connected d now h body ≡ ok (p, e, sent)
      → Audited store d
      → Audited store e
  unfolding try_post_ticket
  try_post_ticket-Audited d e now h body p sent made a =
      let (req, _, made') = bind-eq-ok (bind_json valid_ticket invalid_input body) _ made in
      let (who, _, made'') = bind-eq-ok (require_user h) _ made' in
      let (stored, done, last) =
        answered-eq-ok _ (create store d now (requested_ticket who.0 req)) _ made'' in
      let state : stored.1 ≡ e = ground (arith, last) in
      create-Audited store d e now (requested_ticket who.0 req) stored.0 (blank who.0 req)
        (done ∙ ap (λ x. ok (stored.0, x)) state) a
    where
      blank : (user : ℕ) (req : CreateTicketRequest) → (requested_ticket user req).status ≡ ""
      blank user req = unfold requested_ticket in refl

  try_patch_assign-Audited :
      (d e : Db) (now : ℕ) (h : Headers) (id_param : String) (target : ℕ) (p : String)
      (sent : List Event)
      → try_patch_assign store connected d now h id_param target ≡ ok (p, e, sent)
      → Audited store d
      → Audited store e
  unfolding try_patch_assign
  try_patch_assign-Audited d e now h id_param target p sent made a =
      let (who, _, made') = bind-eq-ok (require_user h) _ made in
      let (id, _, made'') = bind-eq-ok (scan_id id_param invalid_ticket_id) _ made' in
      let (given, done, last) =
        answered-eq-ok assign_refusal (assign_ticket store d now id who.0 who.1 target) _ made'' in
      let state : given.1 ≡ e = ground (arith, last) in
      assign_ticket-Audited store d e now id who.0 who.1 target given.0
        (done ∙ ap (λ x. ok (given.0, x)) state) a

  try_patch_status-Audited :
      (d e : Db) (now : ℕ) (h : Headers) (id_param : String) (body : Option String) (p : String)
      (sent : List Event)
      → try_patch_status store connected d now h id_param body ≡ ok (p, e, sent)
      → Audited store d
      → Audited store e
  unfolding try_patch_status
  try_patch_status-Audited d e now h id_param body p sent made a =
      let (who, _, made1) = bind-eq-ok (require_user h) _ made in
      let (id, _, made2) = bind-eq-ok (scan_id id_param invalid_ticket_id) _ made1 in
      let (new_status, _, made3) = bind-eq-ok (bind_json valid_status invalid_input body) _ made2 in
      let (moved, done, last) =
        answered-eq-ok status_refusal (update_status store d now id who.0 who.1 new_status) _
          made3 in
      let state : moved.1 ≡ e = ground (arith, last) in
      update_status-Audited store d e now id who.0 who.1 new_status moved.0
        (done ∙ ap (λ x. ok (moved.0, x)) state) a

  try_post_comment-Audited :
      (d e : Db) (h : Headers) (id_param : String) (body : Option CreateCommentRequest)
      (p : TicketComment) (sent : List Event)
      → try_post_comment store connected d h id_param body ≡ ok (p, e, sent)
      → Audited store d
      → Audited store e
  unfolding try_post_comment
  try_post_comment-Audited d e h id_param body p sent made a =
      let (who, _, made1) = bind-eq-ok (require_user h) _ made in
      let (id, _, made2) = bind-eq-ok (scan_id id_param invalid_ticket_id) _ made1 in
      let (req, _, made3) = bind-eq-ok (bind_json valid_comment invalid_input body) _ made2 in
      let (added, done, last) =
        answered-eq-ok _ (add_comment store d id who.0 who.1 req.body req.is_internal) _ made3 in
      let state : added.1 ≡ e = ground (arith, last) in
      add_comment-Audited store d e id who.0 who.1 req.body req.is_internal added.0
        (done ∙ ap (λ x. ok (added.0, x)) state) a

  try_post_attachment-Audited :
      (d e : Db) (h : Headers) (id_param : String) (form : Option Upload) (p : TicketAttachment)
      (sent : List Event)
      → try_post_attachment store connected d h id_param form ≡ ok (p, e, sent)
      → Audited store d
      → Audited store e
  unfolding try_post_attachment
  try_post_attachment-Audited d e h id_param form p sent made a =
      let (who, _, made1) = bind-eq-ok (require_user h) _ made in
      let (id, _, made2) = bind-eq-ok (scan_id id_param invalid_ticket_id) _ made1 in
      let (file, _, made3) = bind-eq-ok (or_refuse form missing_file) _ made2 in
      let (_, _, made4) =
        bind-eq-ok (guard (not (ltb max_attachment_size file.size)) file_too_large) _ made3 in
      let (content, _, made5) = bind-eq-ok (or_refuse file.content unreadable) _ made4 in
      let (added, done, last) =
        answered-eq-ok upload_refusal
          (add_attachment store d id who.0 who.1 file.filename (content_type_of file) content) _
          made5 in
      let state : added.1 ≡ e = ground (arith, last) in
      add_attachment-Audited store d e id who.0 who.1 file.filename (content_type_of file) content
        added.0 (done ∙ ap (λ x. ok (added.0, x)) state) a

  after_request-Audited :
      (d : Db) (r : Request) → Audited store d → Audited store (after_request d r)
  unfolding after_request post_ticket patch_assign patch_status post_comment post_attachment
  after_request-Audited d (posts_ticket now h body) a =
      serve-state (Audited store) d (try_post_ticket store connected d now h body) a
        λ p e sent made. try_post_ticket-Audited d e now h body p sent made a
  after_request-Audited d (assigns now h id target) a =
      serve-state (Audited store) d (try_patch_assign store connected d now h id target) a
        λ p e sent made. try_patch_assign-Audited d e now h id target p sent made a
  after_request-Audited d (moves now h id body) a =
      serve-state (Audited store) d (try_patch_status store connected d now h id body) a
        λ p e sent made. try_patch_status-Audited d e now h id body p sent made a
  after_request-Audited d (comments_on h id body) a =
      serve-state (Audited store) d (try_post_comment store connected d h id body) a
        λ p e sent made. try_post_comment-Audited d e h id body p sent made a
  after_request-Audited d (uploads h id form) a =
      serve-state (Audited store) d (try_post_attachment store connected d h id form) a
        λ p e sent made. try_post_attachment-Audited d e h id form p sent made a

  -- Any sequence of requests that write, refused ones included, started where the audit trail
  -- is sound, leaves it sound: ids of tickets are distinct, the history of each ticket leads
  -- from open to the status that it has, and every entry is of a ticket that is there.
  pub after_requests-Audited :
      (d : Db) (rs : List Request) → Audited store d → Audited store (after_requests d rs)
  unfolding after_requests
  after_requests-Audited d [] a = a
  after_requests-Audited d (r ∷ rs) a =
      after_requests-Audited (after_request d r) rs (after_request-Audited d r a)
