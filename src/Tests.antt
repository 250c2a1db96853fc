-- ===== src/Tests.antt =====
-- Runs of the program on small inputs, and the theorems applied to them.
mod Events
mod World
mod Handlers
mod Messages
mod Commands
mod Stores
mod Approvals
mod Blocks
mod Backfill
mod Emojis
mod Users
mod Queues
mod Texts
mod Guilds
