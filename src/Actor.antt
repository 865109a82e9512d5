-- ===== src/Actor.antt =====
-- core/actor: the messages, the mailboxes and the actor system.
pub mod Payload
pub mod Mailbox
pub mod System
