-- ===== src/Tests.antt =====
-- The theorems of the development at concrete inputs, by component.
mod Backlog
mod Limits
mod Delivery
mod Talks
mod Keys
mod Travel
mod Releases
mod Requests
mod Outbox
mod Documents
