-- ===== src/Agate.antt =====
-- src/agate: message slots and the process-local mailboxes that pass them from senders to
-- receivers.
pub mod Message
pub mod Private
pub mod Local
