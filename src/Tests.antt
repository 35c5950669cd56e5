-- ===== src/Tests.antt =====
-- Concrete runs of the modelled code, and the theorems applied to them.
mod Data
mod Codec
mod Queues
mod Engine
mod Learning
mod Votes
mod Restoring
mod Streams
mod Starting
