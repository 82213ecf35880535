-- ===== src/Service.antt =====
-- go/internal/service: the daemon's core.
pub mod Output
pub mod Decisions
pub mod Waiting
pub mod Asks
pub mod Host
pub mod Pins
pub mod Runs
pub mod Lifetimes
pub mod Notices
pub mod Questions
pub mod Preview
pub mod Pump
pub mod Bot
pub mod Views
pub mod Adoption
