-- ===== src/Core.antt =====
-- core/: the domain events that every other part reads, what the bot may do in a channel, and the
-- dispatcher that sends each event where it belongs.
pub mod Events
pub mod Capabilities
pub mod Outbox
pub mod Schedule
pub mod Streams
pub mod Samples
pub mod Dispatch
