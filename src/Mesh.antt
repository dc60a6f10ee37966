-- ===== src/Mesh.antt =====
-- boards/nrf/mesh/onoff_level_lighting_vnd_app: a light on a Bluetooth mesh.
pub mod State
pub mod Storage
pub mod Binding
pub mod Light
pub mod Transition
pub mod Status
pub mod Server
pub mod Idle
pub mod PowerUp
pub mod Arrival
mod Tests
pub mod Invariant
