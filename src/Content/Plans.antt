-- ===== src/Content/Plans.antt =====
-- Folders and the plan of a streamed upload: `encrypt_folder_ext`, `StreamUploadPlan` and
-- `plan_stream_upload` of `lethean_fuse/src/crypto/aead.rs`.
use lethean.Prelude.{
  ℕ, ◌+◌, ◌^◌, ◌≤◌, ◌<◌, ◌≡◌, refl, inl, false, Option, [], arith, leb→le, length, Bytes, Text,
  utf16_len, Result, ok, ◌>>=◌, >>=-eq-ok,
}
use lethean.Padding.{padded_size, padded_metadata_size}
use lethean.Padding.Bounds.{le-padded_size}
use lethean.Meta.{FileMeta, ParentRef, new_folder, safe_name, max_safe, id_of, ref_of}
use lethean.Meta.Valid.{IsWellFormed, ParentShape, FromShape}
use lethean.Meta.Names.{safe_name_lem}
use lethean.Crypto.{
  Aead, Encodings, Json, from_base64, from_base64-encode, aes_gcm_encrypt_aad, aes_gcm_decrypt_aad,
}
use lethean.Crypto.Seal.{encrypt_ok, decrypt-seal}
use lethean.Keys.{
  ContentKey, new_v2, content_key, single_aad, wrap_file_key, unwrap_file_key, wrap_v2_len,
}
use lethean.Keys.Wrap.{IsKey, unwrap-wrap_file_key}
use lethean.Content.{
  EncryptedHeader, EncryptedFilePayload, Draws, upload_meta, encrypt_metadata, decrypt_metadata,
}
use lethean.Content.Metadata.{decrypt-encrypt_metadata}
use lethean.Content.RoundTrip.{Drawn, upload_meta-IsWellFormed}

pub record StreamUploadPlan : Type 0 where
  pub content_key : ContentKey
  pub iv : Bytes
  pub padded_len : ℕ
  pub header : EncryptedHeader

-- `encrypted_len` of `gcm_stream.rs`
abbrev pub encrypted_len : ℕ → ℕ
encrypted_len padded_len = padded_len + 16

unfoldable pub stream_body_len : StreamUploadPlan → ℕ
stream_body_len plan = encrypted_len plan.padded_len

abbrev pub folder_meta : Text → Option ParentRef → Option Text → FileMeta
folder_meta name parent from = record (new_folder (safe_name name) parent) { from = from }

folder_meta-IsWellFormed :
    (name : Text) (parent : Option ParentRef) (from : Option Text)
    → ParentShape (id_of parent) (ref_of parent)
    → FromShape from
    → IsWellFormed (folder_meta name parent from)
unfolding new_folder
folder_meta-IsWellFormed name parent from hp hf = record {
  named = ((safe_name_lem name).0, (safe_name_lem name).1);
  typed = leb→le _ _ (unfold utf16_len in refl);
  placed = hp;
  derived = hf;
  shaped = inl (
    refl,
    record { typed = refl; plain = refl; unchunked = refl; unmeasured = refl; unsized = refl },
  );
}

module _ (aead : Aead) (enc : Encodings) (json : Json) (draws : Draws) (wrapping_key : Bytes)
    (name : Text) (parent : Option ParentRef) (from : Option Text) where
  unfoldable pub encrypt_folder : Result EncryptedFilePayload
  encrypt_folder = do
    let file_key = new_v2 draws.binding draws.raw
    (encrypted_metadata, metadata_iv) ←
        encrypt_metadata aead enc json file_key (folder_meta name parent from) draws.metadata_iv
    let ck = content_key enc file_key
    s ← aes_gcm_encrypt_aad aead ck.key [] (single_aad ck) draws.content_iv
    (wrapped_file_key, wrap_iv) ← wrap_file_key enc aead wrapping_key file_key draws.wrap_iv
    ok (record {
      ciphertext = s.ciphertext;
      header = record {
        content_iv = enc.encode s.iv;
        encrypted_metadata = encrypted_metadata;
        metadata_iv = metadata_iv;
        wrapped_file_key = wrapped_file_key;
        wrap_iv = wrap_iv;
      };
    })

  unfoldable pub plan_stream_upload : Text → ℕ → Result StreamUploadPlan
  plan_stream_upload mime plain_size = do
    let file_key = new_v2 draws.binding draws.raw
    (encrypted_metadata, metadata_iv) ←
        encrypt_metadata aead enc json file_key
          (upload_meta name mime false plain_size plain_size parent from) draws.metadata_iv
    (wrapped_file_key, wrap_iv) ← wrap_file_key enc aead wrapping_key file_key draws.wrap_iv
    ok (record {
      header = record {
        content_iv = enc.encode draws.content_iv;
        encrypted_metadata = encrypted_metadata;
        metadata_iv = metadata_iv;
        wrapped_file_key = wrapped_file_key;
        wrap_iv = wrap_iv;
      };
      content_key = content_key enc file_key;
      iv = draws.content_iv;
      padded_len = padded_size plain_size;
    })

  -- A header from which the vault reads a key and its metadata back.
  abbrev pub ReadsBack : EncryptedHeader → FileMeta → Type 0
  ReadsBack h m =
      (unwrap_file_key enc aead wrapping_key h.wrapped_file_key h.wrap_iv
        ≡ ok (new_v2 draws.binding draws.raw))
      × (decrypt_metadata aead enc json (new_v2 draws.binding draws.raw) h.encrypted_metadata
            h.metadata_iv
          ≡ ok m)

  module _ (drawn : Drawn draws) (wk : length wrapping_key ≡ 32) (room : wrap_v2_len ≤ aead.p_max)
      (hp : ParentShape (id_of parent) (ref_of parent)) (hf : FromShape from) where
    -- A folder of any name under a well-formed parent encrypts; its header reads back, and its
    -- content opens to nothing.
    pub encrypt_folder_lem :
        length (json.to_vec (folder_meta name parent from)) < 2 ^ 32
        → padded_metadata_size (length (json.to_vec (folder_meta name parent from)) + 4)
          ≤ aead.p_max
        → (p : EncryptedFilePayload) × (encrypt_folder ≡ ok p)
          × ReadsBack p.header (folder_meta name parent from)
          × (from_base64 enc p.header.content_iv ≡ ok draws.content_iv)
          × (aes_gcm_decrypt_aad aead
                (content_key enc (new_v2 draws.binding draws.raw)).key
                draws.content_iv
                p.ciphertext
                (single_aad (content_key enc (new_v2 draws.binding draws.raw)))
              ≡ ok [])
    unfolding encrypt_folder content_key
    encrypt_folder_lem js jr =
        let k = new_v2 draws.binding draws.raw in
        let key : IsKey k = record { sized = drawn.raw; bound = drawn.binding } in
        let ck = content_key enc k in
        let m = folder_meta name parent from in
        let (em, e1, d1) = >>=-eq-ok (encrypt_metadata aead enc json k m draws.metadata_iv) _ (
          decrypt-encrypt_metadata aead enc json k m draws.metadata_iv key drawn.metadata_iv
            (folder_meta-IsWellFormed name parent from hp hf) js jr) in
        let (wr, e2, d2) =
          >>=-eq-ok (wrap_file_key enc aead wrapping_key k draws.wrap_iv) _ (
            unwrap-wrap_file_key enc aead wrapping_key k draws.wrap_iv key wk drawn.wrap_iv room) in
        (
          record {
            ciphertext = aead.seal ck.key draws.content_iv (single_aad ck) [];
            header = record {
              content_iv = enc.encode draws.content_iv;
              encrypted_metadata = em.0;
              metadata_iv = em.1;
              wrapped_file_key = wr.0;
              wrap_iv = wr.1;
            };
          },
          rw
              (
                e1,
                encrypt_ok aead ck.key (single_aad ck) draws.content_iv []
                    (enc.length-hkdf32 draws.raw _) (omega arith),
                e2,
              )
              refl,
          (d2, d1),
          from_base64-encode enc draws.content_iv,
          decrypt-seal aead ck.key (single_aad ck) draws.content_iv []
              (enc.length-hkdf32 draws.raw _) drawn.content_iv,
        )

    -- A streamed upload of any name, type and safe size is planned; the header reads back, the nonce
    -- is the one of the header, and the announced length leaves room for the file and the tag.
    pub plan_stream_upload_lem :
        (mime : Text) (size : ℕ)
        → size ≤ max_safe
        → length (json.to_vec (upload_meta name mime false size size parent from)) < 2 ^ 32
        → padded_metadata_size
            (length (json.to_vec (upload_meta name mime false size size parent from)) + 4)
          ≤ aead.p_max
        → (plan : StreamUploadPlan) × (plan_stream_upload mime size ≡ ok plan)
          × ReadsBack plan.header (upload_meta name mime false size size parent from)
          × (from_base64 enc plan.header.content_iv ≡ ok plan.iv)
          × (plan.content_key ≡ content_key enc (new_v2 draws.binding draws.raw))
          × (size + 16 ≤ stream_body_len plan)
    unfolding plan_stream_upload stream_body_len
    plan_stream_upload_lem mime size safe js jr =
        let k = new_v2 draws.binding draws.raw in
        let key : IsKey k = record { sized = drawn.raw; bound = drawn.binding } in
        let m = upload_meta name mime false size size parent from in
        let (em, e1, d1) = >>=-eq-ok (encrypt_metadata aead enc json k m draws.metadata_iv) _ (
          decrypt-encrypt_metadata aead enc json k m draws.metadata_iv key drawn.metadata_iv
            (upload_meta-IsWellFormed name mime false size size parent from safe safe (λ _. refl) hp
              hf)
            js jr) in
        let (wr, e2, d2) =
          >>=-eq-ok (wrap_file_key enc aead wrapping_key k draws.wrap_iv) _ (
            unwrap-wrap_file_key enc aead wrapping_key k draws.wrap_iv key wk drawn.wrap_iv room) in
        (
          record {
            content_key = content_key enc k;
            iv = draws.content_iv;
            padded_len = padded_size size;
            header = record {
              content_iv = enc.encode draws.content_iv;
              encrypted_metadata = em.0;
              metadata_iv = em.1;
              wrapped_file_key = wr.0;
              wrap_iv = wr.1;
            };
          },
          rw (e1, e2) refl,
          (d2, d1),
          from_base64-encode enc draws.content_iv,
          refl,
          omega (arith, le-padded_size size (omega arith)),
        )
