-- ===== src/Bot.antt =====
-- src/bot/mod.rs and the bots beside it.
pub mod Rtt
pub mod Tally
pub mod Kind
pub mod Ratio
pub mod Allocate
pub mod Recv
pub mod Connect
pub mod Scenario
pub mod Echo
pub mod Fickle
pub mod Quitter
pub mod Suite
