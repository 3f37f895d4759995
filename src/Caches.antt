-- ===== src/Caches.antt =====
-- The caches of `lethean_fuse/src/vault.rs`.
pub mod Content
pub mod Large
