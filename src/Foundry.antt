-- ===== src/Foundry.antt =====
-- The bridge to the virtual tabletop, src/ai_dm/foundry.
pub mod CommandQueue
pub mod Registry
pub mod Commands
pub mod Executor
