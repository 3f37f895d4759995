-- ===== src/Index.antt =====
-- The vault's tree of names, `lethean_fuse/src/vault.rs`.
pub mod Names
pub mod NamesSafe
