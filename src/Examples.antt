-- ===== src/Examples.antt =====
-- Theorems of the other modules at concrete inputs of the program.
pub mod Data
pub mod Votes
pub mod Rooms
pub mod Connections
pub mod Servers
pub mod Bots
pub mod Terminals
pub mod Runs
pub mod Scenarios
pub mod Systems
pub mod Fleets
pub mod Frames
pub mod Lines
