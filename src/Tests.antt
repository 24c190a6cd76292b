-- ===== src/Tests.antt =====
-- Small worlds, and the theorems at inputs that meet their hypotheses.
mod Samples
mod MasterTests
mod WorkerTests
mod EngineTests
mod PartsTests
mod SettingsTests
