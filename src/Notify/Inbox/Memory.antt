-- ===== src/Notify/Inbox/Memory.antt =====
-- Notifications in memory: the interface of the table can be met.
use helpdesk_microservices.Base.{ℕ, List, refl}
use helpdesk_microservices.Db.Memory.{memory_table}
use helpdesk_microservices.Notify.Inbox.Defs.{
  Notification, NotificationStore, notification_defaults,
}

unfoldable pub memory_inbox : (now : ℕ) → NotificationStore (List Notification)
unfolding memory_table
memory_inbox now =
    memory_table (λ d. d) (λ d rs. rs) (λ d rs. refl) (λ n. n.id) notification_defaults now
