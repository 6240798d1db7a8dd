-- ===== src/Examples.antt =====
-- Runs of the modelled routines, and instances of the theorems.
mod Queues
mod Checksums
mod Options
mod Packets
mod Maps
mod Connections
mod Runs
mod Handshakes
mod Verifications
mod Sent
mod Scripts
mod Compared
mod Joins
mod Built
