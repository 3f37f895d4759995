-- ===== src/Keys.antt =====
-- File keys, `lethean_fuse/src/crypto/format.rs`: the two formats, the keys derived from a file key,
-- and the wrapping of a file key under the vault's wrapping key.
pub mod Wrap
use lethean.Prelude.{
  ℕ, zero, suc, ◌+◌, ◌-◌, ◌*◌, ◌/◌, ◌%◌, ◌^◌, ◌≤◌, ◌<◌, min, max, ◌≡◌, refl, sym, ap, ◌∙◌, ◌≢◌, ◌↔◌,
  ◌⊎◌, inl, inr, Bool, true, false, ◌&&◌, ◌||◌, not, Option, none, some, List, [], ◌∷◌, ◌++◌, map,
  append_assoc, append-nil, arith, ltb, leb, ◌==◌, if◌then◌else◌, ltb→lt, lt→ltb, leb→le, ==_iff,
  Bool-cases, Option-cases, length, get_elem?, get_or, set, take, drop, replicate, length-append,
  length-set, get_elem?-set_self, get_elem?-set_ne, take-append-drop, length-take, length-drop,
  length-replicate, take_of_le, take-append, drop-append, drop-drop, drop-nil, Bytes, Text, codes,
  eq_list, eq_list_iff, eq_list_refl, all_zero, zeros, length-zeros, all_zero-zeros, all_zero_eq,
  all_zero-append, utf8_len, utf16_width, utf16_len, is_empty, Error, Result, ok, err, ◌>>=◌, ◌>>◌,
  guard, ok_or, >>=-eq-ok,
}
use lethean.Crypto.{Aead, Encodings, Sealed, from_base64, aes_gcm_encrypt_aad, aes_gcm_decrypt_aad}

-- `FILE_KEY_LEN`, `BINDING_LEN`, `NODE_REF_LEN`, `WRAP_V2_LEN`
abbrev pub file_key_len : ℕ
file_key_len = 32

abbrev pub binding_len : ℕ
binding_len = 16

abbrev pub wrap_v2_len : ℕ
wrap_v2_len = 4 + file_key_len + binding_len

-- `WRAP_V2_MAGIC`
abbrev pub wrap_v2_magic : Bytes
wrap_v2_magic = codes "LTH2"

abbrev pub info_metadata : Text
info_metadata = codes "lethean|file-metadata|v2"

abbrev pub info_content : Text
info_content = codes "lethean|file-content|v2"

abbrev pub info_node_ref : Text
info_node_ref = codes "lethean|node-ref|v2"

abbrev pub aad_metadata : Bytes
aad_metadata = codes "lethean|metadata|v2|"

abbrev pub aad_content : Bytes
aad_content = codes "lethean|content|v2"

pub data FileFormat : Type 0 where
  legacy v2 : FileFormat

abbrev pub is_v2_format : FileFormat → Bool
is_v2_format FileFormat.legacy = false
is_v2_format FileFormat.v2 = true

pub record FileKey : Type 0 where
  pub raw : Bytes
  pub format : FileFormat
  pub binding : Option Bytes

-- `ContentKey`
pub record ContentKey : Type 0 where
  pub key : Bytes
  pub format : FileFormat

-- `FileKey::new_v2`, at the two draws.
abbrev pub new_v2 : Bytes → Bytes → FileKey
new_v2 binding raw = record { raw = raw; format = FileFormat.v2; binding = some binding }

-- `FileKey::legacy`
unfoldable pub legacy_key : Bytes → Result FileKey
legacy_key raw = do
  guard (length raw == file_key_len) Error.bad_key_length
  ok (record { raw = raw; format = FileFormat.legacy; binding = none })

-- `FileKey::v2`
unfoldable pub v2_key : Bytes → Bytes → Result FileKey
v2_key raw binding = do
  guard (length raw == file_key_len) Error.bad_key_length
  ok (new_v2 binding raw)

-- `FileKey::rebind`, at the drawn binding.
unfoldable pub rebind : FileKey → Bytes → FileKey
rebind k binding = elim k.format [ FileFormat.legacy ↦ k | FileFormat.v2 ↦ new_v2 binding k.raw ]

-- `.expect("v2 keys carry a binding")` panics on `none`.
abbrev pub expect_binding : Option Bytes → Result Bytes
expect_binding b = ok_or b Error.panicked

-- `FileKey::wrap_plaintext`
unfoldable pub wrap_plaintext : FileKey → Result Bytes
wrap_plaintext k = elim k.format [
  | FileFormat.legacy ↦ ok k.raw
  | FileFormat.v2 ↦ do binding ← expect_binding k.binding; ok (wrap_v2_magic ++ (k.raw ++ binding))
]

-- `ContentKey::single_aad`
unfoldable pub single_aad : ContentKey → Bytes
single_aad ck = elim ck.format [ FileFormat.legacy ↦ [] | FileFormat.v2 ↦ aad_content ]

-- The two shapes of an unwrapped key.
unfoldable pub parse_key : Bytes → Result FileKey
parse_key pt =
    if length pt == file_key_len
    then legacy_key pt
    else if length pt == wrap_v2_len && eq_list (take 4 pt) wrap_v2_magic
    then v2_key (take file_key_len (drop 4 pt)) (drop (4 + file_key_len) pt)
    else err Error.unsupported_key_format

module _ (enc : Encodings) where
  -- `FileKey::content_key`
  unfoldable pub content_key : FileKey → ContentKey
  content_key k = elim k.format [
    | FileFormat.legacy ↦ record { key = k.raw; format = k.format }
    | FileFormat.v2 ↦ record { key = enc.hkdf32 k.raw info_content; format = k.format }
  ]

  -- `FileKey::metadata_key`: the key and the additional data.
  unfoldable pub metadata_key : FileKey → Result (Bytes × Bytes)
  metadata_key k = elim k.format [
    | FileFormat.legacy ↦ ok (k.raw, [])
    | FileFormat.v2 ↦ do
      binding ← expect_binding k.binding
      ok (enc.hkdf32 k.raw info_metadata, aad_metadata ++ binding)
  ]

  -- `FileKey::node_ref`; `NODE_REF_LEN` is 16.
  unfoldable pub node_ref : FileKey → Text
  node_ref k = enc.encode_url (take 16 (enc.hkdf32 k.raw info_node_ref))

  module _ (aead : Aead) where
    -- `wrap_file_key`, at the drawn nonce: the wrapped key and the nonce, both as base64.
    unfoldable pub wrap_file_key : Bytes → FileKey → Bytes → Result (Text × Text)
    wrap_file_key wrapping_key key iv = do
      plaintext ← wrap_plaintext key
      s ← aes_gcm_encrypt_aad aead wrapping_key plaintext [] iv
      ok (enc.encode s.ciphertext, enc.encode s.iv)

    unfoldable pub unwrap_file_key : Bytes → Text → Text → Result FileKey
    unwrap_file_key wrapping_key wrapped_b64 iv_b64 = do
      iv ← from_base64 enc iv_b64
      wrapped ← from_base64 enc wrapped_b64
      pt ← aes_gcm_decrypt_aad aead wrapping_key iv wrapped []
      parse_key pt
