-- ===== src/Game.antt =====
-- The game package, src/ai_dm/game: the state of a session, and its operations.
pub mod Clock
pub mod Resources
pub mod Condition
pub mod Tracker
pub mod Inventory
pub mod Combatant
pub mod Combat
