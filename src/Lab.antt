-- ===== src/Lab.antt =====
-- The fixture lab (internal/lab/lab.go): its records, the experiment's normal form, the valuation of
-- a sleeve, and the replay of the fixture.
pub mod Records
pub mod Experiment
pub mod Value
pub mod Normal
pub mod Valuation
pub mod Net
pub mod Replay
pub mod Rows
mod Tests
