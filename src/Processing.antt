-- ===== src/Processing.antt =====
-- packages/frontend/src/app/processing: hidden files, seeds and their storage.
pub mod HiddenFile
pub mod Storage
pub mod Seed
pub mod Factories
