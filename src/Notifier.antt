-- ===== src/Notifier.antt =====
-- internal/notifier: the message of an execution, the channels' notifiers, and the dispatcher.
pub mod Message
pub mod Clients
pub mod Dispatch
