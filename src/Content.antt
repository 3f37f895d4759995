-- ===== src/Content.antt =====
-- Encryption and decryption of metadata and of single-part contents,
-- `lethean_fuse/src/crypto/aead.rs`: `encrypt_metadata`, `decrypt_metadata`, `encrypt_file_ext`,
-- `encrypt_folder_ext`, `plan_stream_upload`, `decrypt_content_owned` and their helpers.
pub mod Metadata
pub mod Unpad
pub mod RoundTrip
pub mod Plans
use lethean.Prelude.{
  ℕ, zero, suc, ◌+◌, ◌-◌, ◌*◌, ◌/◌, ◌%◌, ◌^◌, ◌≤◌, ◌<◌, min, max, ◌≡◌, refl, sym, ap, ◌∙◌, ◌≢◌, ◌↔◌,
  ◌⊎◌, inl, inr, Bool, true, false, ◌&&◌, ◌||◌, not, Option, none, some, List, [], ◌∷◌, ◌++◌, map,
  append_assoc, append-nil, arith, ltb, leb, ◌==◌, if◌then◌else◌, ltb→lt, lt→ltb, leb→le, ==_iff,
  Bool-cases, Option-cases, length, get_elem?, get_or, set, take, drop, replicate, length-append,
  length-set, get_elem?-set_self, get_elem?-set_ne, take-append-drop, length-take, length-drop,
  length-replicate, take_of_le, take-append, drop-append, drop-drop, drop-nil, Bytes, Text, codes,
  eq_list, eq_list_iff, eq_list_refl, all_zero, zeros, length-zeros, all_zero-zeros, all_zero_eq,
  all_zero-append, utf8_len, utf16_width, utf16_len, is_empty, Error, Result, ok, err, ◌>>=◌, ◌>>◌,
  guard, ok_or, >>=-eq-ok,
}
use lethean.Padding.{strip_padding, padded_size, pad_owned_for_encryption}
use lethean.Padding.Metadata.{pad_metadata_bytes, unpad_metadata_bytes, unpad_metadata_strict}
use lethean.Meta.{FileMeta, ParentRef, new_file, new_folder, validate_v2_meta, safe_name, safe_mime}
use lethean.Crypto.{
  Aead, Encodings, Json, Gzip, Sealed, from_base64, aes_gcm_encrypt_aad, aes_gcm_decrypt_aad,
}
use lethean.Keys.{
  FileFormat, FileKey, ContentKey, is_v2_format, new_v2, content_key, metadata_key, single_aad,
  wrap_file_key,
}

-- `EncryptedHeader` of `types.rs`
pub record EncryptedHeader : Type 0 where
  pub content_iv : Text
  pub encrypted_metadata : Text
  pub metadata_iv : Text
  pub wrapped_file_key : Text
  pub wrap_iv : Text

-- `EncryptedFilePayload` of `types.rs`; `header` is its method of that name.
pub record EncryptedFilePayload : Type 0 where
  pub ciphertext : Bytes
  pub header : EncryptedHeader

-- The random draws of one upload: the binding and the key of `FileKey::new_v2`, and three nonces.
pub record Draws : Type 0 where
  pub binding : Bytes
  pub raw : Bytes
  pub metadata_iv : Bytes
  pub content_iv : Bytes
  pub wrap_iv : Bytes

unfoldable pub starts_with : Text → Text → Bool
starts_with s [] = true
starts_with [] (p ∷ ps) = false
starts_with (c ∷ cs) (p ∷ ps) = c == p && starts_with cs ps

unfoldable pub one_of : Text → List Text → Bool
one_of s [] = false
one_of s (t ∷ ts) = eq_list s t || one_of s ts

abbrev pub lower_char : ℕ → ℕ
lower_char c = if leb b'A' c && leb c b'Z' then c + 32 else c

abbrev pub packed_types : List Text
packed_types =
    codes "application/zip"
    ∷ codes "application/gzip"
    ∷ codes "application/x-gzip"
    ∷ codes "application/x-7z-compressed"
    ∷ codes "application/x-xz"
    ∷ codes "application/x-bzip2"
    ∷ codes "application/zstd"
    ∷ codes "application/x-rar-compressed"
    ∷ codes "application/vnd.rar"
    ∷ codes "application/java-archive"
    ∷ []

abbrev pub raw_audio_types : List Text
raw_audio_types =
    codes "audio/wav"
    ∷ codes "audio/x-wav"
    ∷ codes "audio/wave"
    ∷ codes "audio/aiff"
    ∷ codes "audio/x-aiff"
    ∷ []

abbrev pub packed_image_types : List Text
packed_image_types =
    codes "image/png"
    ∷ codes "image/jpeg"
    ∷ codes "image/jpg"
    ∷ codes "image/gif"
    ∷ codes "image/webp"
    ∷ codes "image/avif"
    ∷ codes "image/heic"
    ∷ codes "image/heif"
    ∷ []

unfoldable pub is_incompressible_mime : Text → Bool
unfolding starts_with one_of
is_incompressible_mime mime =
    let m = map lower_char mime in
    if starts_with m (codes "video/")
    then true
    else if starts_with m (codes "audio/")
    then not (one_of m raw_audio_types)
    else if starts_with m (codes "image/")
    then one_of m packed_image_types
    else one_of m packed_types
      || starts_with m (codes "application/vnd.openxmlformats-officedocument.")

module _ (aead : Aead) (enc : Encodings) (json : Json) where
  -- `encrypt_metadata`, at the drawn nonce: the sealed metadata and the nonce, as base64.
  unfoldable pub encrypt_metadata : FileKey → FileMeta → Bytes → Result (Text × Text)
  encrypt_metadata k m iv = do
    if is_v2_format k.format then validate_v2_meta m else ok tt
    (key, aad) ← metadata_key enc k
    s ← aes_gcm_encrypt_aad aead key (pad_metadata_bytes (json.to_vec m)) aad iv
    ok (enc.encode s.ciphertext, enc.encode s.iv)

  -- The strict reading of v2 metadata, after decryption.
  unfoldable pub read_metadata : FileFormat → Bytes → Result FileMeta
  read_metadata FileFormat.legacy padded =
      ok_or (json.from_slice (unpad_metadata_bytes padded)) Error.corrupt_json
  read_metadata FileFormat.v2 padded = do
    bytes ← unpad_metadata_strict padded
    m ← ok_or (json.from_slice bytes) Error.corrupt_json
    validate_v2_meta m
    ok m

  unfoldable pub decrypt_metadata : FileKey → Text → Text → Result FileMeta
  decrypt_metadata k encrypted_b64 iv_b64 = do
    iv ← from_base64 enc iv_b64
    ct ← from_base64 enc encrypted_b64
    (key, aad) ← metadata_key enc k
    padded ← aes_gcm_decrypt_aad aead key iv ct aad
    read_metadata k.format padded

module _ (gzip : Gzip) where
  -- `decompress_bytes`: all of the output, if the stream ends properly.
  unfoldable pub decompress_bytes : Bytes → Result Bytes
  decompress_bytes bytes =
      let (out, end) = gzip.decompress bytes in
      elim end [ none ↦ err Error.other_io | some consumed ↦ ok out ]

  -- `decompress_exactly`: at most `expected + 1` bytes are read; what the decoder yields must have the
  -- expected length, end there, and use up the input.
  unfoldable pub decompress_exactly : Bytes → ℕ → Result Bytes
  decompress_exactly bytes expected =
      let (out, end) = gzip.decompress bytes in
      if ltb expected (length out) then err Error.corrupt_size else elim end [
        | none ↦ err Error.other_io
        | some consumed ↦
            if length out == expected && consumed == length bytes
            then ok out
            else err Error.corrupt_size
      ]

  -- The legacy branch of `finish_single_content`: its truncation is that of `strip_padding`.
  unfoldable pub finish_legacy : Bytes → FileMeta → Result Bytes
  finish_legacy padded m =
      let cut = strip_padding padded m.unpadded_size in
      if m.compressed then decompress_bytes cut else ok cut

  -- The end of the v2 branch, once the padding is off.
  unfoldable pub finish_unpadded : Bool → Option ℕ → Bytes → Result Bytes
  finish_unpadded false size content = ok content
  finish_unpadded true none content = err Error.corrupt_size
  finish_unpadded true (some size) content = decompress_exactly content size

  unfoldable pub finish_v2 : Option ℕ → Bool → Option ℕ → Bytes → Result Bytes
  finish_v2 none compressed size padded =
      if is_empty padded then ok padded else err Error.corrupt_padding
  finish_v2 (some unpadded) compressed size padded =
      if length padded == padded_size unpadded && all_zero (drop unpadded padded)
      then finish_unpadded compressed size (take unpadded padded)
      else err Error.corrupt_padding

  unfoldable pub finish_single_content : FileFormat → Bytes → FileMeta → Result Bytes
  finish_single_content FileFormat.legacy padded m = finish_legacy padded m
  finish_single_content FileFormat.v2 padded m =
      finish_v2 m.unpadded_size m.compressed m.size padded

  -- `decrypt_content_owned`
  unfoldable pub decrypt_content :
      Aead → Encodings → ContentKey → Text → Bytes → FileMeta → Result Bytes
  decrypt_content aead enc ck content_iv_b64 ciphertext m = do
    iv ← from_base64 enc content_iv_b64
    padded ← aes_gcm_decrypt_aad aead ck.key iv ciphertext (single_aad ck)
    finish_single_content ck.format padded m

  -- The choice of `encrypt_file_ext`: whether to store the compressed copy, and the stored bytes.
  unfoldable pub choose_content : Text → Bytes → Bool × Bytes
  choose_content mime contents =
      if is_incompressible_mime mime then (false, contents) else elim (gzip.compress contents) [
        | none ↦ (false, contents)
        | some c ↦ if ltb (length c) (length contents) then (true, c) else (false, contents)
      ]

-- The metadata of an uploaded file: `FileMeta::new_file` with the size and the origin set.
abbrev pub upload_meta : Text → Text → Bool → ℕ → ℕ → Option ParentRef → Option Text → FileMeta
upload_meta name mime compressed unpadded size parent from =
    record (new_file (safe_name name) (safe_mime mime) compressed unpadded parent) {
      size = some size;
      from = from;
    }

module _ (aead : Aead) (enc : Encodings) (json : Json) where
  unfoldable pub encrypt_file :
      Gzip
      → Draws
      → Bytes
      → Text
      → Text
      → Bytes
      → Option ParentRef
      → Option Text
      → Result EncryptedFilePayload
  encrypt_file gzip draws wrapping_key name mime contents parent from = do
    let file_key = new_v2 draws.binding draws.raw
    let (compressed, content) = choose_content gzip (safe_mime mime) contents
    let m = upload_meta name mime compressed (length content) (length contents) parent from
    (encrypted_metadata, metadata_iv) ← encrypt_metadata aead enc json file_key m draws.metadata_iv
    let ck = content_key enc file_key
    s ←
        aes_gcm_encrypt_aad aead ck.key (pad_owned_for_encryption content) (single_aad ck)
          draws.content_iv
    (wrapped_file_key, wrap_iv) ← wrap_file_key enc aead wrapping_key file_key draws.wrap_iv
    ok (record {
      ciphertext = s.ciphertext;
      header = record {
        content_iv = enc.encode s.iv;
        encrypted_metadata = encrypted_metadata;
        metadata_iv = metadata_iv;
        wrapped_file_key = wrapped_file_key;
        wrap_iv = wrap_iv;
      };
    })
