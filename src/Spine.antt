-- ===== src/Spine.antt =====
-- spine/: the deterministic gates that a retraction passes.
pub mod Traversal
pub mod Schema
pub mod Authority
pub mod Defence
pub mod Decision
pub mod Temporal
pub mod Materiality
pub mod Escapement
pub mod Regimes
pub mod Budget
mod Tests
mod WalkTests
