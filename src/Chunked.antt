-- ===== src/Chunked.antt =====
-- Files stored in chunks, `lethean_fuse/src/crypto/chunked.rs`: the arithmetic of chunks, nonces and
-- additional data, sealing and opening one chunk, the plan of an upload, and
-- `ChunkedEncryptReader`. `CHUNK_SIZE` is an argument of the reader's definitions, so that they run
-- on small chunks too.
use lethean.Prelude.{
  ℕ, zero, suc, ◌+◌, ◌-◌, ◌*◌, ◌/◌, ◌%◌, ◌^◌, ◌≤◌, ◌<◌, min, max, ◌≡◌, refl, sym, ap, ◌∙◌, ◌≢◌, ◌↔◌,
  ◌⊎◌, inl, inr, Bool, true, false, ◌&&◌, ◌||◌, not, Option, none, some, List, [], ◌∷◌, ◌++◌, map,
  append_assoc, append-nil, arith, ltb, leb, ◌==◌, if◌then◌else◌, ltb→lt, lt→ltb, leb→le, ==_iff,
  Bool-cases, Option-cases, length, get_elem?, get_or, set, take, drop, replicate, length-append,
  length-set, get_elem?-set_self, get_elem?-set_ne, take-append-drop, length-take, length-drop,
  length-replicate, take_of_le, take-append, drop-append, take-append_le, drop-append_le,
  take-append_ge, drop-append_ge, drop-drop, drop-nil, Bytes, Text, codes, eq_list, eq_list_iff,
  eq_list_refl, all_zero, zeros, length-zeros, all_zero-zeros, all_zero_eq, all_zero-append,
  utf8_len, utf16_width, utf16_len, is_empty, Error, Result, ok, err, ◌>>=◌, ◌>>◌, guard, ok_or,
  >>=-eq-ok,
}
pub mod Reader
pub mod Seal
pub mod Stream
pub mod Reads
pub mod Failure
pub mod Plan
pub mod Fetch
pub mod Drain
pub mod Loop
pub mod Restore
pub mod Cut
pub mod Accepts
use lethean.Word.{be32, u32_max}
use lethean.Padding.{div_ceil}
use lethean.Meta.{FileMeta, ParentRef, new_file, safe_mime, chunk_size_v2}
use lethean.Crypto.{Aead, Encodings, Json}
use lethean.Keys.{FileFormat, FileKey, ContentKey, new_v2, content_key, wrap_file_key, is_v2_format}
use lethean.Content.{EncryptedHeader, encrypt_metadata}

abbrev pub tag_len : ℕ
tag_len = 16

abbrev pub prefix_len : ℕ
prefix_len = 8

abbrev pub aad_chunk : Bytes
aad_chunk = codes "lethean|chunk|v2|"

unfoldable pub chunk_count : ℕ → ℕ → ℕ
chunk_count true_size chunk_size = max (div_ceil true_size chunk_size) 1

unfoldable pub sealed_len : ℕ → ℕ → ℕ
sealed_len true_size chunk_size = chunk_count true_size chunk_size * (chunk_size + tag_len) % 2 ^ 64

unfoldable pub nonce_for : Bytes → ℕ → Result Bytes
nonce_for pre index = do
  guard (length pre == prefix_len) Error.corrupt_prefix
  guard (leb index u32_max) Error.too_many_chunks
  ok (pre ++ be32 index)

-- `last as u8`
abbrev pub flag : Bool → ℕ
flag last = if last then 1 else 0

unfoldable pub aad_for : FileFormat → ℕ → Bool → Bytes
aad_for format index last =
    (if is_v2_format format then aad_chunk else []) ++ be32 index ++ (flag last ∷ [])

unfoldable pub check_filler : FileFormat → Bytes → Result (Unit {0})
check_filler format filler =
    guard (not (is_v2_format format && not (all_zero filler))) Error.corrupt_padding

module _ (aead : Aead) where
  -- The buffer that the source encrypts in place is the result.
  unfoldable pub seal_chunk : Bytes → FileFormat → Bytes → ℕ → Bool → Bytes → Result Bytes
  seal_chunk key format pre index last buf = do
    guard (length key == 32) Error.bad_key_length
    nonce ← nonce_for pre index
    guard (leb (length buf) aead.p_max) Error.encryption_failed
    ok (aead.seal key nonce (aad_for format index last) buf)

  unfoldable pub open_chunk : Bytes → FileFormat → Bytes → ℕ → Bool → Bytes → Result Bytes
  open_chunk key format pre index last buf = do
    guard (length key == 32) Error.bad_key_length
    nonce ← nonce_for pre index
    ok_or (aead.unseal key nonce (aad_for format index last) buf) Error.auth_failed

pub record ChunkedUploadPlan : Type 0 where
  pub content_key : ContentKey
  pub pre : Bytes
  pub plain_len : ℕ
  pub header : EncryptedHeader

unfoldable pub body_len : ChunkedUploadPlan → ℕ
body_len plan = sealed_len plan.plain_len chunk_size_v2

-- The metadata of a chunked file.
abbrev pub chunked_meta : Text → Text → ℕ → Option ParentRef → Option Text → FileMeta
chunked_meta name mime plain_size parent from =
    record (new_file (if is_empty name then codes "Untitled" else name) (safe_mime mime) false
      plain_size parent) { chunk_size = some chunk_size_v2; size = some plain_size; from = from }

module _ (aead : Aead) (enc : Encodings) (json : Json) where
  -- The random draws: binding and raw key of `FileKey::new_v2`, the prefix and two nonces.
  unfoldable pub plan_chunked_upload :
      (binding raw pre metadata_iv wrap_iv wrapping_key : Bytes)
      → Text
      → Text
      → ℕ
      → Option ParentRef
      → Option Text
      → Result ChunkedUploadPlan
  plan_chunked_upload binding raw pre metadata_iv wrap_iv wrapping_key name mime plain_size parent
        from =
      do
        guard (leb (chunk_count plain_size chunk_size_v2) u32_max) Error.too_large
        let file_key = new_v2 binding raw
        (encrypted_metadata, miv) ←
            encrypt_metadata aead enc json file_key (chunked_meta name mime plain_size parent from)
              metadata_iv
        (wrapped_file_key, wiv) ← wrap_file_key enc aead wrapping_key file_key wrap_iv
        ok (record {
          content_key = content_key enc file_key;
          pre = pre;
          plain_len = plain_size;
          header = record {
            content_iv = enc.encode pre;
            encrypted_metadata = encrypted_metadata;
            metadata_iv = miv;
            wrapped_file_key = wrapped_file_key;
            wrap_iv = wiv;
          };
        })
