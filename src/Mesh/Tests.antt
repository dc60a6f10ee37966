-- ===== src/Mesh/Tests.antt =====
-- A node with concrete values, and each theorem at it.
mod Node
mod States
mod Handlers
mod Arrival
