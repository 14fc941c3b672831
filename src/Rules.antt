-- ===== src/Rules.antt =====
-- The rules package, src/ai_dm/rules: pure functions on the values of a sheet.
pub mod Damage
pub mod DeathSaves
pub mod Currency
pub mod Initiative
pub mod Rests
pub mod Concentration
pub mod Exhaustion
pub mod Sustenance
