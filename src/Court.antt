-- ===== src/Court.antt =====
-- court/: the repair court. A team drawn from a radius, its owners, the neutral arbiter and the four
-- turns of a hearing.
pub mod Schema
pub mod Team
pub mod Owners
pub mod Arbiter
pub mod Allocation
pub mod Protocol
pub mod Hearing
mod Tests
