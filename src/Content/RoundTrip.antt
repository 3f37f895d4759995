-- ===== src/Content/RoundTrip.antt =====
-- A file that is encrypted for upload comes back: its key unwraps, its metadata decrypts, and its
-- content is what was given.
use lethean.Prelude.{
  ℕ, ◌+◌, ◌^◌, ◌≤◌, ◌<◌, ◌≡◌, refl, inl, inr, Bool, false, Option, arith, length, Bytes, Text, ok,
  >>=-eq-ok,
}
use lethean.Padding.{padded_size, padded_metadata_size, pad_owned_for_encryption}
use lethean.Padding.Bounds.{padded_size_mono, padded_size_least, length-pad_owned}
use lethean.Meta.{FileMeta, ParentRef, new_file, safe_mime, max_safe, id_of, ref_of}
use lethean.Meta.Valid.{IsWellFormed, ParentShape, FromShape}
use lethean.Meta.Names.{safe_name_lem, safe_mime-fits}
use lethean.Crypto.{Aead, Encodings, Json, Gzip, from_base64-encode}
use lethean.Crypto.Seal.{encrypt_ok, decrypt-seal}
use lethean.Keys.{FileKey, new_v2, content_key, single_aad, wrap_file_key, unwrap_file_key}
use lethean.Keys.Wrap.{IsKey, unwrap-wrap_file_key}
use lethean.Content.{
  EncryptedFilePayload, Draws, upload_meta, encrypt_metadata, decrypt_metadata, choose_content,
  decrypt_content, encrypt_file,
}
use lethean.Content.Metadata.{decrypt-encrypt_metadata}
use lethean.Content.Unpad.{finish-choose_content, choose_content-cases}

-- The draws have the lengths that the code asks the generator for.
pub record Drawn (d : Draws) : Type 0 where
  pub binding : length d.binding ≡ 16
  pub raw : length d.raw ≡ 32
  pub metadata_iv : length d.metadata_iv ≡ 12
  pub content_iv : length d.content_iv ≡ 12
  pub wrap_iv : length d.wrap_iv ≡ 12

-- The metadata of an uploaded file is well formed, whatever the name and the type.
pub upload_meta-IsWellFormed :
    (name mime : Text) (compressed : Bool) (unpadded size : ℕ) (parent : Option ParentRef)
    (from : Option Text)
    → unpadded ≤ max_safe
    → size ≤ max_safe
    → (compressed ≡ false → unpadded ≡ size)
    → ParentShape (id_of parent) (ref_of parent)
    → FromShape from
    → IsWellFormed (upload_meta name mime compressed unpadded size parent from)
unfolding new_file
upload_meta-IsWellFormed name mime compressed unpadded size parent from hu hs plain hp hf = record {
  named = ((safe_name_lem name).0, (safe_name_lem name).1);
  typed = safe_mime-fits mime;
  placed = hp;
  derived = hf;
  shaped = inr (
    refl,
    (
      size,
      unpadded,
      record {
        sized = refl;
        measured = refl;
        safe = hs;
        safe_unpadded = hu;
        plain_sizes = plain;
        chunked = inl refl;
      },
    ),
  );
}

module _ (aead : Aead) (enc : Encodings) (json : Json) (gzip : Gzip) (draws : Draws)
    (drawn : Drawn draws) (wrapping_key : Bytes) (name mime : Text) (contents : Bytes)
    (parent : Option ParentRef) (from : Option Text) where
  abbrev stored : Bool × Bytes
  stored = choose_content gzip (safe_mime mime) contents

  abbrev pub meta_of : FileMeta
  meta_of = upload_meta name mime stored.0 (length stored.1) (length contents) parent from

  abbrev pub key_of : FileKey
  key_of = new_v2 draws.binding draws.raw

  key_of-IsKey : IsKey key_of
  key_of-IsKey = record { sized = drawn.raw; bound = drawn.binding }

  stored-le : length stored.1 ≤ length contents
  stored-le = elim (choose_content-cases gzip (safe_mime mime) contents) [
    | inl plain ↦ rw plain (omega arith)
    | inr (c, _, shorter, packed) ↦ rw packed (omega arith)
  ]

  stored_plain : stored.0 ≡ false → length stored.1 ≡ length contents
  stored_plain h = elim (choose_content-cases gzip (safe_mime mime) contents) [
    | inl plain ↦ rw plain refl
    | inr (c, _, _, packed) ↦ cc
  ]

  meta_of-IsWellFormed :
      length contents ≤ max_safe
      → ParentShape (id_of parent) (ref_of parent)
      → FromShape from
      → IsWellFormed meta_of
  meta_of-IsWellFormed small hp hf =
      upload_meta-IsWellFormed name mime stored.0 (length stored.1) (length contents) parent from
        (omega (arith, stored-le)) small stored_plain hp hf

  -- The content of an uploaded file decrypts to what was given.
  content_round_trip :
      length contents ≤ max_safe
      → (decrypt_content gzip aead enc
          (content_key enc key_of)
          (enc.encode draws.content_iv)
          (aead.seal
            (content_key enc key_of).key
            draws.content_iv
            (single_aad (content_key enc key_of))
            (pad_owned_for_encryption stored.1))
          meta_of)
        ≡ ok contents
  unfolding decrypt_content content_key new_file
  content_round_trip small =
      let ck = content_key enc key_of in
      rw
        (
          from_base64-encode enc draws.content_iv,
          decrypt-seal aead ck.key (single_aad ck) draws.content_iv
              (pad_owned_for_encryption stored.1) (enc.length-hkdf32 draws.raw _) drawn.content_iv,
        )
        (finish-choose_content gzip (safe_mime mime) contents meta_of refl refl refl
          (omega (arith, stored-le)))

  -- Encryption succeeds on every file of a safe size under a well-formed parent, whatever its name,
  -- type and bytes. The key that the payload carries unwraps, its metadata decrypts under that key
  -- to the file's, and its ciphertext decrypts to the contents.
  pub encrypt_file_round_trip :
      length wrapping_key ≡ 32
      → length contents ≤ max_safe
      → ParentShape (id_of parent) (ref_of parent)
      → FromShape from
      → length (json.to_vec meta_of) < 2 ^ 32
      → padded_metadata_size (length (json.to_vec meta_of) + 4) ≤ aead.p_max
      → padded_size (length contents) ≤ aead.p_max
      → (p : EncryptedFilePayload) × (encrypt_file aead enc json gzip draws wrapping_key name mime
            contents parent from
          ≡ ok p)
        × (unwrap_file_key enc aead wrapping_key p.header.wrapped_file_key p.header.wrap_iv
            ≡ ok key_of)
        × (decrypt_metadata aead enc json key_of p.header.encrypted_metadata p.header.metadata_iv
            ≡ ok meta_of)
        × (decrypt_content gzip aead enc
              (content_key enc key_of)
              p.header.content_iv
              p.ciphertext
              meta_of
            ≡ ok contents)
  unfolding encrypt_file content_key
  encrypt_file_round_trip wk small hp hf js jr room =
      let ck = content_key enc key_of in
      let padded = pad_owned_for_encryption stored.1 in
      let (em, e1, d1) =
        >>=-eq-ok (encrypt_metadata aead enc json key_of meta_of draws.metadata_iv) _ (
          decrypt-encrypt_metadata aead enc json key_of meta_of draws.metadata_iv key_of-IsKey
            drawn.metadata_iv (meta_of-IsWellFormed small hp hf) js jr) in
      let (wr, e2, d2) = >>=-eq-ok (wrap_file_key enc aead wrapping_key key_of draws.wrap_iv) _ (
        unwrap-wrap_file_key enc aead wrapping_key key_of draws.wrap_iv key_of-IsKey wk
          drawn.wrap_iv (omega (arith, padded_size_least (length contents) (omega arith)))) in
      let fits : length padded ≤ aead.p_max = omega (
        arith,
        length-pad_owned stored.1 (omega (arith, stored-le)),
        padded_size_mono (length stored.1) (length contents) (omega arith) stored-le,
      ) in
      (
        record {
          ciphertext = aead.seal ck.key draws.content_iv (single_aad ck) padded;
          header = record {
            content_iv = enc.encode draws.content_iv;
            encrypted_metadata = em.0;
            metadata_iv = em.1;
            wrapped_file_key = wr.0;
            wrap_iv = wr.1;
          };
        },
        rw (
          e1,
          encrypt_ok aead ck.key (single_aad ck) draws.content_iv padded
              (enc.length-hkdf32 draws.raw _) fits,
          e2,
        ),
        d2,
        d1,
        content_round_trip small,
      )
