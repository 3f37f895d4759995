-- ===== src/Lib.antt =====
-- Lethean: the Rust client of an end-to-end encrypted file vault (lethean_fuse), which keeps files as
-- sealed records on a server and mounts them as a file system.
--
-- How the parts work together: a file is cut or padded, sealed under a key of its own, and its
-- metadata is sealed under the same key; the key is wrapped under the vault's wrapping key. The vault
-- decodes the records that the server lists, places them in a tree of names, and serves reads from a
-- cache of decrypted contents or from encrypted scratch files.
--
-- The files, and the code that each models:
-- - Prelude: shared names. Texts are lists of code points, byte strings lists of bytes; hash maps are
--   association lists (Prelude/Table); `anyhow::Result` and `io::Result` are one result type with a
--   constructor for each failure that the code tells apart (Prelude/Outcome).
-- - Word: `to_be_bytes` and `from_be_bytes`.
-- - Padding: `padded_size`, `pad_to_bucket`, `pad_metadata_bytes` and their inverses
--   (lethean_fuse/src/crypto/aead.rs). The product of the last bucket wraps around at 64 bits, as in a
--   release build.
-- - Meta: `FileMeta`, `ParentRef` (lethean_fuse/src/types.rs, crypto/format.rs), `validate_v2_meta`,
--   `safe_name`, `safe_mime` (crypto/aead.rs).
-- - Crypto: the AES-GCM and base64 wrappers of crypto/aead.rs over the crates as interface records.
-- - Keys: `FileKey`, `ContentKey`, `wrap_file_key`, `unwrap_file_key` (crypto/format.rs).
-- - Content: `encrypt_metadata`, `decrypt_metadata`, `encrypt_file_ext`, `decrypt_content_owned`,
--   `encrypt_folder_ext`, `plan_stream_upload` (crypto/aead.rs).
-- - Source: `std::io::Read` as a list of answers, and `read_full` (crypto/chunked.rs), which is also
--   the read loop of the streams.
-- - Gcm: `GcmState`, `GcmEncryptReader` and `GcmDecryptReader` of crypto/gcm_stream.rs; the sizes of the
--   buffers, `IO_BUF` and `DECRYPT_BATCH`, are arguments.
-- - Heal: `plan` of lethean_fuse/src/heal.rs, rule by rule. Maps are tables; the key of rule 2, a
--   reference and a flag, is the reference behind the flag.
-- - Chunked: the chunk arithmetic, nonces, `seal_chunk`, `open_chunk`, `plan_chunked_upload`,
--   `ChunkedEncryptReader` and `decrypt_chunked` of crypto/chunked.rs; `take` of a source is the list of
--   its answers within the limit. The reader takes the size of a chunk as an argument,
--   where the code has the constant `CHUNK_SIZE`.
-- - Caches: `ContentCache` and `LargeCache` of lethean_fuse/src/vault.rs.
-- - Chunks: the states of `ChunkedSource`, `LoadingReset` and `Slots` of lethean_fuse/src/vault.rs, with
--   the threads as steps of a system.
-- - Journal: `Journal` of lethean_fuse/src/vault.rs.
-- - Index: `kernel_safe_name`, `numbered_name` of lethean_fuse/src/vault.rs.
-- - Kdf: keys from passwords and the password rules of lethean_fuse/src/crypto/kdf.rs (Kdf/Runs,
--   Kdf/Classes: the rules on sequences and on classes). The quotient of counts that the source compares
--   with one half in floating point is compared exactly.
-- - Duress: duress codes, lethean_fuse/src/crypto/duress.rs; Duress/Sync: their upload and the signals
--   they send, lethean_fuse/src/duress.rs. A function takes the server's answers as arguments and
--   returns its new state and the signals and uploads it sends; the cache is `MemoryCache`. Argon2 is
--   assumed to succeed on the parameters and inputs that its crate documents as valid.
-- - Tests: runs on small inputs, and each theorem with hypotheses at a concrete input.
--
-- Parameters: AES-256-GCM, AES, CTR and GHASH, HKDF, base64, serde_json and gzip are records of
-- operations with the laws that their documentation states; random draws are arguments. A law states
-- that opening undoes sealing and accepts nothing else under the same key, nonce and additional data;
-- secrecy and unforgeability are outside of the model.
--
-- Fuel: most loops recur on a list (buckets, characters, events, the recency order). The loop of
-- `GcmEncryptReader::read` runs on two units of fuel: a refill leaves bytes to give, so the second
-- round returns, and the theorem on streamed uploads shows that no read runs out; so does the loop of
-- `GcmDecryptReader::read`, with the theorem on streamed downloads. The walk along the successors of a
-- healing plan has a unit more than the table has entries. In `decrypt_chunked` every round but
-- the last reads a byte, so the size of the buffer and the size of a chunk with two more units are
-- enough. The digits of a
-- number take as many units as its successor.
--
-- Not modelled: network and file input and output, threads and locks other than the claims of chunks,
-- zeroing of memory, the command line; and the parts of the crate that no file above names.
pub mod Prelude
pub mod Word
pub mod Padding
pub mod Meta
pub mod Crypto
pub mod Keys
pub mod Content
pub mod Source
pub mod Gcm
pub mod Chunked
pub mod Caches
pub mod Heal
pub mod Chunks
pub mod Duress
pub mod Index
pub mod Journal
pub mod Kdf
pub mod Tests
