-- ===== src/Settings.antt =====
-- The settings that Master and Worker share (packages/shared/settings/runtime.py), and the guard of
-- Master's routes (apps/master/api/routes/auth_guard.py).
pub mod Merge
pub mod Database
pub mod Guard
