-- ===== src/Notices/Arrival.antt =====
-- An event of the ticket service in the inbox of its user: json.Marshal in handler.go, a queue, and
-- json.Unmarshal in consumer.go.
use helpdesk_microservices.Base.{
  ℕ, ◌≡◌, refl, ap, ◌∙◌, inl, inr, Bool, true, false, Result-cases, Option, some, String, ok,
}
use helpdesk_microservices.Tickets.Store.{TicketStore}
use helpdesk_microservices.Tickets.Handler.{Event}
use helpdesk_microservices.Notify.Inbox.{NotificationStore, create_notification}
use helpdesk_microservices.Notify.Inbox.Backlog.{
  Request, Action, Abstracts, posting, view, after_action, perform, perform-Refines,
}
use helpdesk_microservices.Notify.Consumer.{Delivery, persist_one}
use helpdesk_microservices.Notices.Announced.{Change, Truthful, Change-Truthful}

-- encoding/json on an event, the types of which agree in the two services.
pub record EventJson : Type 0 where
  pub marshal : Event → String
  pub unmarshal : String → Option Event

-- The message of an event as the consumer has it.
unfoldable pub delivered : EventJson → (tag : ℕ) → Event → Delivery
delivered json tag e =
    let body = json.marshal e in record { tag = tag; body = body; event = json.unmarshal body }

arrival :
    {a : Action} (user : ℕ) (payload : String)
    → Abstracts (Request.post user payload) a
    → (id : ℕ) × (a ≡ Action.arrives user id payload)
arrival user payload (posting _ id _) = (id, refl)

module _ {Db : Type 0} (inbox : NotificationStore Db) where
  -- The user finds the payload at the end of the backlog, not seen; the others find nothing new.
  pub record Received (user : ℕ) (payload : String) (before after : Db) : Type 0 where
    pub id : ℕ
    pub arrived :
        (other : ℕ)
        → view inbox after other
          ≡ after_action (Action.arrives user id payload) (view inbox before) other

  created-Received :
      (before after : Db) (user : ℕ) (payload : String)
      → create_notification inbox before user payload ≡ ok after
      → Received user payload before after
  unfolding perform
  created-Received before after user payload h =
      let r = perform-Refines inbox before after (Request.post user payload) h in
      let (id, is) = arrival user payload r.stands_for in
      record {
        id = id;
        arrived = λ other. r.follows other ∙ ap (λ a. after_action a (view inbox before) other) is;
      }

  persist_one-Received :
      (before after : Db) (m : Delivery) (event : Event) (user : ℕ)
      → m.event ≡ some event
      → event.target_user_id ≡ some user
      → persist_one inbox before m ≡ (true, after)
      → Received user m.body before after
  unfolding persist_one
  persist_one-Received before after m event user decoded named h =
      elim (Result-cases (create_notification inbox before user m.body)) [
        | inl (stored, created) ↦
            let same : stored ≡ after =
              ap (λ (r : Bool × Db). r.1) (rw (decoded, named, created) at h) in
            created-Received before after user m.body (created ∙ ap ok same)
        | inr (failure, failed) ↦ absurd (
            let no : false ≡ true =
              ap (λ (r : Bool × Db). r.0) (rw (decoded, named, failed) at h) in
            cc)
      ]

-- From the ticket to the inbox.
pub record Notified {Db Inbox : Type 0} (store : TicketStore Db) (inbox : NotificationStore Inbox)
    (payload : String) (e : Db) (event : Event) (before after : Inbox) : Type 0 where
  pub truthful : Truthful store e event
  pub received : Received inbox truthful.user payload before after

-- An assignment or a change of status that is answered, with one event to publish, tells the
-- truth: the ticket is in the database with the status that the event names, and the event is
-- for the new agent or for the ticket's creator. Where the consumer acknowledges the event, and
-- the decoder gives back what was encoded, that user has it at the end of the backlog, not
-- seen, and the backlogs of the others are as they were.
pub Change-Notified :
    {Db Inbox : Type 0} (store : TicketStore Db) (inbox : NotificationStore Inbox)
    (json : EventJson) (now tag : ℕ) (d e : Db) (event : Event) (before after : Inbox)
    → Change store now d e event
    → json.unmarshal (json.marshal event) ≡ some event
    → persist_one inbox before (delivered json tag event) ≡ (true, after)
    → Notified store inbox (json.marshal event) e event before after
unfolding delivered
Change-Notified store inbox json now tag d e event before after change decodes handled =
    let t = Change-Truthful store now d e event change in
    record {
      truthful = t;
      received =
          persist_one-Received inbox before after (delivered json tag event) event t.user decodes
            t.named handled;
    }
