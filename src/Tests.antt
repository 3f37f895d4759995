-- ===== src/Tests.antt =====
-- Runs of the definitions on small inputs, and the theorems at concrete inputs.
mod Toy
mod ToyJson
mod Contents
mod Caches
mod Streams
mod Heal
mod Fetch
mod Codes
mod Metadata
mod Chunked
mod Vault
mod Uploads
mod Loads
mod Changes
