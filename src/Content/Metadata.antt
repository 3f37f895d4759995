-- ===== src/Content/Metadata.antt =====
-- Metadata survives its encryption.
use lethean.Prelude.{
  ◌+◌, ◌^◌, ◌≤◌, ◌<◌, ◌≡◌, refl, Option, none, some, [], ◌++◌, arith, if◌then◌else◌, length, Bytes,
  codes, ok, ◌>>=◌,
}
use lethean.Padding.{padded_metadata_size}
use lethean.Padding.Metadata.{pad_metadata_bytes, unpad-pad_metadata, length-pad_metadata}
use lethean.Meta.{FileMeta, validate_v2_meta}
use lethean.Meta.Valid.{IsWellFormed, validate_iff}
use lethean.Crypto.{Aead, Encodings, Json, from_base64-encode}
use lethean.Crypto.Seal.{encrypt_ok, decrypt-seal}
use lethean.Keys.{FileFormat, FileKey, metadata_key, is_v2_format}
use lethean.Keys.Wrap.{IsKey, BindingFits}
use lethean.Content.{encrypt_metadata, decrypt_metadata, read_metadata}

-- Every well-formed key has a metadata key of 32 bytes: `metadata_key` does not panic.
metadata_key_ok :
    (enc : Encodings) (k : FileKey)
    → IsKey k
    → (w : Bytes × Bytes) × (metadata_key enc k ≡ ok w) × (length w.0 ≡ 32)
metadata_key_ok enc k v = by_shape k.format k.binding refl refl v.bound
  where
    by_shape :
        (f : FileFormat) (b : Option Bytes)
        → k.format ≡ f
        → k.binding ≡ b
        → BindingFits f b
        → (w : Bytes × Bytes) × (metadata_key enc k ≡ ok w) × (length w.0 ≡ 32)
    by_shape FileFormat.legacy none ef eb h =
        ((k.raw, []), unfold metadata_key in ground arith, v.sized)
    by_shape FileFormat.legacy (some b) ef eb h = absurd h
    by_shape FileFormat.v2 none ef eb h = absurd h
    by_shape FileFormat.v2 (some b) ef eb h = (
      (enc.hkdf32 k.raw (codes "lethean|file-metadata|v2"), codes "lethean|metadata|v2|" ++ b),
      unfold metadata_key in ground arith,
      enc.length-hkdf32 k.raw _,
    )

module _ (aead : Aead) (enc : Encodings) (json : Json) where
  read-pad_metadata :
      (f : FileFormat) (m : FileMeta)
      → length (json.to_vec m) < 2 ^ 32
      → (f ≡ FileFormat.v2 → validate_v2_meta m ≡ ok tt)
      → read_metadata aead enc json f (pad_metadata_bytes (json.to_vec m)) ≡ ok m
  unfolding read_metadata
  read-pad_metadata FileFormat.legacy m small valid =
      rw ((unpad-pad_metadata (json.to_vec m) small).1, json.from_slice-to_vec m)
  read-pad_metadata FileFormat.v2 m small valid =
      rw ((unpad-pad_metadata (json.to_vec m) small).0, json.from_slice-to_vec m, valid refl)

  module _ (k : FileKey) (m : FileMeta) (iv : Bytes) (key : IsKey k) (ivs : length iv ≡ 12) where
    -- Metadata that is well formed encrypts under every key, and decrypts to itself.
    pub decrypt-encrypt_metadata :
        IsWellFormed m
        → length (json.to_vec m) < 2 ^ 32
        → padded_metadata_size (length (json.to_vec m) + 4) ≤ aead.p_max
        → (encrypt_metadata aead enc json k m iv >>= λ w. decrypt_metadata aead enc json k w.0 w.1)
          ≡ ok m
    unfolding encrypt_metadata decrypt_metadata
    decrypt-encrypt_metadata wf small room =
        let valid = (validate_iff m).1 wf in
        let checked : (if is_v2_format k.format then validate_v2_meta m else ok tt) ≡ ok tt =
          ground arith in
        let (w, e, sized) = metadata_key_ok enc k key in
        let p = pad_metadata_bytes (json.to_vec m) in
        let fits : length p ≤ aead.p_max =
          omega (arith, length-pad_metadata (json.to_vec m) small) in
        rw (checked, e, encrypt_ok aead w.0 w.1 iv p sized fits)
          (rw
            (
              from_base64-encode enc iv,
              from_base64-encode enc (aead.seal w.0 iv w.1 p),
              decrypt-seal aead w.0 w.1 iv p sized ivs,
            )
            (read-pad_metadata k.format m small (λ _. valid)))
