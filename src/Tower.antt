-- ===== src/Tower.antt =====
-- tower/: the agent registry, decision memory and the gateway.
pub mod Schema
pub mod Gateway
pub mod Registry
pub mod Memory
mod Tests
