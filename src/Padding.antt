-- ===== src/Padding.antt =====
-- Padding of plaintext lengths, `lethean_fuse/src/crypto/aead.rs` (size buckets for contents and for
-- metadata, zero filling and its removal).
pub mod Bounds
pub mod Metadata
use lethean.Prelude.{
  ℕ, zero, suc, ◌+◌, ◌-◌, ◌*◌, ◌/◌, ◌%◌, ◌^◌, ◌≤◌, ◌<◌, min, max, ◌≡◌, refl, sym, ap, ◌∙◌, ◌≢◌, ◌↔◌,
  ◌⊎◌, inl, inr, Bool, true, false, ◌&&◌, ◌||◌, not, Option, none, some, List, [], ◌∷◌, ◌++◌, map,
  append_assoc, append-nil, arith, ltb, leb, ◌==◌, if◌then◌else◌, ltb→lt, lt→ltb, leb→le, ==_iff,
  Bool-cases, Option-cases, length, get_elem?, get_or, set, take, drop, replicate, length-append,
  length-set, get_elem?-set_self, get_elem?-set_ne, take-append-drop, length-take, length-drop,
  length-replicate, take_of_le, take-append, drop-append, drop-drop, drop-nil, Bytes, Text, codes,
  eq_list, eq_list_iff, eq_list_refl, all_zero, zeros, length-zeros, all_zero-zeros, all_zero_eq,
  all_zero-append, utf8_len, utf16_width, Error, Result, ok, err, ◌>>=◌, ◌>>◌, guard, ok_or,
  >>=-eq-ok,
}

-- `PADDING_BUCKETS`
abbrev pub padding_buckets : List ℕ
padding_buckets =
    16 * 1024
    ∷ 64 * 1024
    ∷ 256 * 1024
    ∷ 1024 * 1024
    ∷ 4 * 1024 * 1024
    ∷ 16 * 1024 * 1024
    ∷ 64 * 1024 * 1024
    ∷ 256 * 1024 * 1024
    ∷ 1024 * 1024 * 1024
    ∷ []

-- `PADDING_STEP_BEYOND_MAX`
abbrev pub padding_step_beyond_max : ℕ
padding_step_beyond_max = 256 * 1024 * 1024

-- `METADATA_PADDING_BUCKETS`
abbrev pub metadata_padding_buckets : List ℕ
metadata_padding_buckets = 64 ∷ 128 ∷ 256 ∷ 512 ∷ 1024 ∷ 2048 ∷ 4096 ∷ []

-- `u64::div_ceil`
abbrev pub div_ceil : ℕ → ℕ → ℕ
div_ceil n d = n / d + (if n % d == 0 then 0 else 1)

-- The loop over the buckets, and what follows it; the product is of 64 bits and wraps around.
unfoldable pub bucket_for : List ℕ → ℕ → ℕ → ℕ
bucket_for [] step n = div_ceil n step * step % 2 ^ 64
bucket_for (b ∷ bs) step n = if leb n b then b else bucket_for bs step n

unfoldable pub padded_size : ℕ → ℕ
unfolding bucket_for
padded_size n = bucket_for padding_buckets padding_step_beyond_max n

-- The step beyond the largest bucket is that bucket.
unfoldable pub padded_metadata_size : ℕ → ℕ
unfolding bucket_for
padded_metadata_size n = bucket_for metadata_padding_buckets 4096 n

-- `vec![0; target]` with the bytes copied over its front.
unfoldable pub pad_to_bucket : Bytes → Bytes
pad_to_bucket bytes =
    let target = padded_size (length bytes) in
    if target == length bytes then bytes else bytes ++ zeros (target - length bytes)

-- `Vec::resize` to the padded size: it would cut a longer vector.
unfoldable pub pad_owned_for_encryption : Bytes → Bytes
pad_owned_for_encryption bytes =
    let target = padded_size (length bytes) in take target bytes ++ zeros (target - length bytes)

unfoldable pub strip_padding : Bytes → Option ℕ → Bytes
strip_padding bytes none = bytes
strip_padding bytes (some len) = if leb len (length bytes) then take len bytes else bytes
