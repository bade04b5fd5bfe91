-- ===== src/Tests.antt =====
-- Runs on small inputs, and each theorem that has hypotheses at an input where they hold.
mod Packets
mod Registers
mod Pools
mod Exchanges
mod Masters
mod Tasks
mod Requests
mod Broadcasts
