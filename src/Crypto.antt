-- ===== src/Crypto.antt =====
-- What the code takes from its libraries (AES-256-GCM, HKDF, base64, serde_json, gzip), as records of
-- operations with the laws that they document, and the thin wrappers of
-- `lethean_fuse/src/crypto/aead.rs` over them. Random draws are arguments.
pub mod Seal
use lethean.Prelude.{
  ℕ, zero, suc, ◌+◌, ◌-◌, ◌*◌, ◌/◌, ◌%◌, ◌^◌, ◌≤◌, ◌<◌, min, max, ◌≡◌, refl, sym, ap, ◌∙◌, ◌≢◌, ◌↔◌,
  ◌⊎◌, inl, inr, Bool, true, false, ◌&&◌, ◌||◌, not, Option, none, some, List, [], ◌∷◌, ◌++◌, map,
  append_assoc, append-nil, arith, ltb, leb, ◌==◌, if◌then◌else◌, ltb→lt, lt→ltb, leb→le, ==_iff,
  Bool-cases, Option-cases, length, get_elem?, get_or, set, take, drop, replicate, length-append,
  length-set, get_elem?-set_self, get_elem?-set_ne, take-append-drop, length-take, length-drop,
  length-replicate, take_of_le, take-append, drop-append, drop-drop, drop-nil, Bytes, Text, codes,
  eq_list, eq_list_iff, eq_list_refl, all_zero, zeros, length-zeros, all_zero-zeros, all_zero_eq,
  all_zero-append, utf8_len, utf16_width, utf16_len, is_empty, Error, Result, ok, err, ◌>>=◌, ◌>>◌,
  guard, ok_or, >>=-eq-ok,
}
use lethean.Meta.{FileMeta, is_node_ref}

-- The `aes_gcm` crate at a 32-byte key and a 12-byte nonce. A sealed text is the ciphertext with the
-- tag behind it; it opens only under the key, nonce and additional data that sealed it.
pub record Aead : Type 0 where
  pub seal : Bytes → Bytes → Bytes → Bytes → Bytes
  pub unseal : Bytes → Bytes → Bytes → Bytes → Option Bytes
  -- The longest plaintext that the crate encrypts.
  pub p_max : ℕ
  pub unseal-seal : (key nonce aad p : Bytes) → unseal key nonce aad (seal key nonce aad p) ≡ some p
  pub unseal_sound :
      (key nonce aad c p : Bytes) → unseal key nonce aad c ≡ some p → c ≡ seal key nonce aad p
  pub length-seal : (key nonce aad p : Bytes) → length (seal key nonce aad p) ≡ length p + 16

-- `hkdf` with SHA-256, expanded to 32 bytes, and the base64 engines.
pub record Encodings : Type 0 where
  pub hkdf32 : Bytes → Text → Bytes
  pub encode : Bytes → Text
  pub decode : Text → Option Bytes
  pub decode_no_pad : Text → Option Bytes
  pub encode_url : Bytes → Text
  pub is_whitespace : ℕ → Bool
  pub length-hkdf32 : (ikm : Bytes) (info : Text) → length (hkdf32 ikm info) ≡ 32
  pub decode-encode : (b : Bytes) → decode (encode b) ≡ some b
  -- Sixteen bytes take 22 characters of the URL-safe alphabet.
  pub encode_url_16 : (b : Bytes) → length b ≡ 16 → is_node_ref (encode_url b) ≡ true

-- `serde_json` on the metadata record.
pub record Json : Type 0 where
  pub to_vec : FileMeta → Bytes
  pub from_slice : Bytes → Option FileMeta
  pub from_slice-to_vec : (m : FileMeta) → from_slice (to_vec m) ≡ some m

-- `flate2`: the compressor, and a decoder of one gzip member that yields the output and, at a proper
-- end, how many bytes of the input it consumed (`none`: it fails after that output).
pub record Gzip : Type 0 where
  pub compress : Bytes → Option Bytes
  pub decompress : Bytes → Bytes × Option ℕ
  pub decompress-compress :
      (b : Bytes) {c : Bytes} → compress b ≡ some c → decompress c ≡ (b, some (length c))

-- `s.chars().filter(..)` and the two `replace` calls of `from_base64`.
module _ (enc : Encodings) where
  abbrev pub normalize_char : ℕ → ℕ
  normalize_char c = if c == b'-' then b'+' else if c == b'_' then b'/' else c

  unfoldable pub normalize : Text → Text
  normalize [] = []
  normalize (c ∷ cs) = if enc.is_whitespace c then normalize cs else normalize_char c ∷ normalize cs

  unfoldable pub from_base64 : Text → Result Bytes
  from_base64 s = elim (enc.decode s) [
    | some v ↦ ok v
    | none ↦ elim (enc.decode (normalize s)) [
      | some v ↦ ok v
      | none ↦ ok_or (enc.decode_no_pad (normalize s)) Error.bad_base64
    ]
  ]

  pub from_base64-encode : (b : Bytes) → from_base64 (enc.encode b) ≡ ok b
  unfolding from_base64
  from_base64-encode b = rw (enc.decode-encode b, from_base64)

-- `AesGcmEncryptResult`
pub record Sealed : Type 0 where
  pub iv : Bytes
  pub ciphertext : Bytes

module _ (aead : Aead) where
  -- `aes_gcm_encrypt_aad`; `iv` is the drawn nonce.
  unfoldable pub aes_gcm_encrypt_aad : Bytes → Bytes → Bytes → Bytes → Result Sealed
  aes_gcm_encrypt_aad key plaintext aad iv = do
    guard (length key == 32) Error.bad_key_length
    guard (leb (length plaintext) aead.p_max) Error.encryption_failed
    ok (record { iv = iv; ciphertext = aead.seal key iv aad plaintext })

  -- `aes_gcm_decrypt_aad`, also in place: the buffer is the result.
  unfoldable pub aes_gcm_decrypt_aad : Bytes → Bytes → Bytes → Bytes → Result Bytes
  aes_gcm_decrypt_aad key iv ciphertext aad = do
    guard (length key == 32) Error.bad_key_length
    guard (length iv == 12) Error.bad_nonce_length
    ok_or (aead.unseal key iv aad ciphertext) Error.auth_failed
