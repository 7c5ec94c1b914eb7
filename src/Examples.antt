-- ===== src/Examples.antt =====
-- Small workspaces on which the development is tried out.
mod Collisions
mod Data
mod Runs
mod Ledger
mod Bus
mod Reviews
mod MailData
mod Mail
mod Messages
mod Recovery
mod Processes
mod Sessions
mod Outputs
mod WireData
mod WireCodec
mod ServeData
mod Calls
mod Oversized
mod Serving
