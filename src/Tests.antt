-- ===== src/Tests.antt =====
-- Runs of the model at concrete inputs.
pub mod Pages
pub mod Policies
pub mod Asks
pub mod Decisions
pub mod Waits
pub mod Stores
pub mod Machines
pub mod Pins
pub mod Runs
pub mod Questions
pub mod Configs
pub mod Polls
pub mod Previews
pub mod Bots
pub mod Daemons
