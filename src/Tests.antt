-- ===== src/Tests.antt =====
-- Runs of the model at fixed inputs, and each theorem with arguments applied to some.
mod Correlator
mod Counted
mod Commands
mod Server
mod Delivery
mod Streams
mod Pages
mod Reports
mod Endpoint
mod Parsing
