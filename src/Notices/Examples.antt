-- ===== src/Notices/Examples.antt =====
-- An agent starts work on a ticket, and its creator is told.
use helpdesk_microservices.Base.{
  refl, false, none, some, String, List, [], ◌∷◌, ◌=s=◌, if◌then◌else◌,
}
use helpdesk_microservices.Db.Memory.{create_in}
use helpdesk_microservices.Http.{Headers}
use helpdesk_microservices.Numeral.{sscanf_uint}
use helpdesk_microservices.Tickets.Domain.{Ticket, TicketStatusHistory}
use helpdesk_microservices.Tickets.Store.{TicketStore, find_by_id, transition_status}
use helpdesk_microservices.Tickets.Store.Memory.{MemoryDb, memory_store}
use helpdesk_microservices.Tickets.Usecase.{
  allowed_transitions, contains_text, may_move, update_status,
}
use helpdesk_microservices.Tickets.Handler.{
  Event, scan_id, require_user, publish_event, try_patch_status,
}
use helpdesk_microservices.Notify.Inbox.{Notification, NotificationStore, create_notification}
use helpdesk_microservices.Notify.Inbox.Memory.{memory_inbox}
use helpdesk_microservices.Notify.Consumer.{persist_one}
use helpdesk_microservices.Notices.{EventJson, delivered, Change, Notified, Change-Notified}

abbrev tickets : TicketStore MemoryDb
tickets = memory_store 50

abbrev inbox : NotificationStore (List Notification)
inbox = memory_inbox 50

abbrev ticket : String → Ticket
ticket status = record {
  id = 7;
  title = "printer";
  description = "broken";
  user_id = 2;
  assigned_agent_id = some 3;
  status = status;
  priority = "High";
  department = "Helpdesk";
  assigned_at = some 20;
  resolved_at = none;
  closed_at = none;
  due_at = some 14410;
  created_at = 10;
}

abbrev desk : String → List TicketStatusHistory → MemoryDb
desk status histories = record {
  tickets = ticket status ∷ [];
  histories = histories;
  comments = [];
  attachments = [];
}

abbrev started : TicketStatusHistory
started = record {
  id = 1;
  ticket_id = 7;
  from_status = "assigned";
  to_status = "in_progress";
  changed_by = 3;
  changed_at = 30;
}

abbrev agent : Headers
agent = record {
  authorization = "";
  request_id = "r1";
  internal_secret = "s";
  user_id = "3";
  user_role = "agent";
}

abbrev event : Event
event = record {
  kind = "ticket_status_changed";
  ticket_id = 7;
  title = "";
  status = "in_progress";
  target_user_id = some 2;
  target_roles = [];
}

-- Enough of a coder for this event.
abbrev json : EventJson
json = record {
  marshal = λ e. e.kind;
  unmarshal = λ s. if s =s= "ticket_status_changed" then some event else none;
}

abbrev notification : Notification
notification = record {
  id = 1;
  user_id = 2;
  payload = "ticket_status_changed";
  read = false;
  created_at = 50;
}

starts : Change tickets 30 (desk "assigned" []) (desk "in_progress" (started ∷ [])) event
unfolding try_patch_status require_user scan_id sscanf_uint update_status find_by_id may_move
    contains_text allowed_transitions transition_status memory_store create_in publish_event
starts = Change.move agent "7" (some "in_progress") "status updated" refl

Change-Notified_example :
    Notified tickets inbox "ticket_status_changed"
      (desk "in_progress" (started ∷ []))
      event
      []
      (notification ∷ [])
unfolding persist_one delivered create_notification memory_inbox
Change-Notified_example =
    Change-Notified tickets inbox json 30 1 (desk "assigned" []) _ event [] (notification ∷ [])
      starts refl refl
