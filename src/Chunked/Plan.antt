-- ===== src/Chunked/Plan.antt =====
-- The plan of a chunked upload, `plan_chunked_upload` of `lethean_fuse/src/crypto/chunked.rs`.
use lethean.Prelude.{
  ℕ, ◌+◌, ◌*◌, ◌^◌, ◌≤◌, ◌<◌, ◌≡◌, refl, true, false, Option, ◌++◌, arith, leb, length, Bytes, Text,
  ◌⊎◌, inl, inr, Bool-cases, leb→le, Error, Result, ok, err, >>=-eq-ok,
}
use lethean.Word.{be32, u32_max}
use lethean.Meta.{FileMeta, ParentRef, chunk_size_v2, validate_v2_meta}
use lethean.Meta.Valid.{IsWellFormed, validate_iff}
use lethean.Padding.{padded_metadata_size}
use lethean.Crypto.{Aead, Encodings, Json, from_base64, from_base64-encode}
use lethean.Keys.{FileKey, new_v2, content_key, wrap_file_key, unwrap_file_key, wrap_v2_len}
use lethean.Keys.Wrap.{IsKey, unwrap-wrap_file_key}
use lethean.Content.{encrypt_metadata, decrypt_metadata}
use lethean.Content.Metadata.{decrypt-encrypt_metadata}
use lethean.Chunked.{
  chunk_count, sealed_len, nonce_for, body_len, chunked_meta, plan_chunked_upload,
  ChunkedUploadPlan,
}

-- The length of a body of at most 2 ^ 32 chunks does not wrap around.
sealed_len_exact :
    (n : ℕ)
    → chunk_count n chunk_size_v2 ≤ u32_max
    → sealed_len n chunk_size_v2 ≡ chunk_count n chunk_size_v2 * (chunk_size_v2 + 16)
unfolding sealed_len
sealed_len_exact n h = omega arith

module _ (aead : Aead) (enc : Encodings) (json : Json)
    (binding raw pre metadata_iv wrap_iv wrapping_key : Bytes) (name mime : Text) (size : ℕ)
    (parent : Option ParentRef) (from : Option Text) where
  abbrev pub plan_meta : FileMeta
  plan_meta = chunked_meta name mime size parent from

  abbrev pub plan_key : FileKey
  plan_key = new_v2 binding raw

  abbrev pub plan_run : Result ChunkedUploadPlan
  plan_run =
      plan_chunked_upload aead enc json binding raw pre metadata_iv wrap_iv wrapping_key name mime
        size parent from

  -- What a plan promises: the wrapped key, the metadata and the nonce prefix of the header read back as
  -- the key, the metadata and the prefix of the plan, every chunk has a nonce of its own index, and the
  -- announced length is that of all sealed chunks, with no wrap-around.
  abbrev pub Planned : ChunkedUploadPlan → Type 0
  Planned plan =
      (unwrap_file_key enc aead wrapping_key plan.header.wrapped_file_key plan.header.wrap_iv
        ≡ ok plan_key)
      × (decrypt_metadata aead enc json plan_key plan.header.encrypted_metadata
            plan.header.metadata_iv
          ≡ ok plan_meta)
      × (from_base64 enc plan.header.content_iv ≡ ok plan.pre)
      × (plan.content_key ≡ content_key enc plan_key)
      × ((i : ℕ) → i < chunk_count size chunk_size_v2 → nonce_for plan.pre i ≡ ok (pre ++ be32 i))
      × (body_len plan ≡ chunk_count size chunk_size_v2 * (chunk_size_v2 + 16))

  abbrev pub Rejected : Type 0
  Rejected =
      (chunk_count size chunk_size_v2 ≤ u32_max)
      × ((why : Error) × (validate_v2_meta plan_meta ≡ err why) × (plan_run ≡ err why))

  abbrev pub Accepted : Type 0
  Accepted =
      (chunk_count size chunk_size_v2 ≤ u32_max)
      × IsWellFormed plan_meta
      × ((plan : ChunkedUploadPlan) × (plan_run ≡ ok plan) × Planned plan)

  encrypt_metadata_rejected :
      (why : Error)
      → validate_v2_meta plan_meta ≡ err why
      → encrypt_metadata aead enc json plan_key plan_meta metadata_iv ≡ err why
  unfolding encrypt_metadata
  encrypt_metadata_rejected why e = rw e refl

  module _ (hb : length binding ≡ 16) (hr : length raw ≡ 32) (hp : length pre ≡ 8)
      (hm : length metadata_iv ≡ 12) (hw : length wrap_iv ≡ 12) (wk : length wrapping_key ≡ 32)
      (room : wrap_v2_len ≤ aead.p_max) (js : length (json.to_vec plan_meta) < 2 ^ 32)
      (jr : padded_metadata_size (length (json.to_vec plan_meta) + 4) ≤ aead.p_max) where
    planned :
        leb (chunk_count size chunk_size_v2) u32_max ≡ true
        → IsWellFormed plan_meta
        → (plan : ChunkedUploadPlan) × (plan_run ≡ ok plan) × Planned plan
    unfolding plan_chunked_upload body_len
    planned few wf =
        let key : IsKey plan_key = record { sized = hr; bound = hb } in
        let (em, e1, d1) =
          >>=-eq-ok (encrypt_metadata aead enc json plan_key plan_meta metadata_iv) _ (
            decrypt-encrypt_metadata aead enc json plan_key plan_meta metadata_iv key hm wf js
              jr) in
        let (wr, e2, d2) =
          >>=-eq-ok (wrap_file_key enc aead wrapping_key plan_key wrap_iv) _
            (unwrap-wrap_file_key enc aead wrapping_key plan_key wrap_iv key wk hw room) in
        (
          record {
            content_key = content_key enc plan_key;
            pre = pre;
            plain_len = size;
            header = record {
              content_iv = enc.encode pre;
              encrypted_metadata = em.0;
              metadata_iv = em.1;
              wrapped_file_key = wr.0;
              wrap_iv = wr.1;
            };
          },
          rw (few, e1, e2) refl,
          (
            d2,
            d1,
            from_base64-encode enc pre,
            refl,
            λ i hi. unfold nonce_for in ground arith,
            sealed_len_exact size (leb→le _ _ few),
          ),
        )

    -- Every run, for draws and a wrapping key of their sizes, and for metadata whose encoding the cipher
    -- takes, ends in one of three ways. A file of more than 2 ^ 32 - 1 chunks is refused as too large,
    -- whatever its metadata. Any other file whose metadata the validation rejects is refused with the
    -- validation's error. Any other file has well-formed metadata and is planned: what the header carries
    -- reads back, every chunk has a nonce of its own, and the announced length is exact.
    pub plan_chunked_upload_lem :
        ((u32_max < chunk_count size chunk_size_v2) × (plan_run ≡ err Error.too_large))
        ⊎ Rejected
        ⊎ Accepted
    unfolding plan_chunked_upload
    plan_chunked_upload_lem = by_size (Bool-cases (leb (chunk_count size chunk_size_v2) u32_max))
      where
        by_validation :
            leb (chunk_count size chunk_size_v2) u32_max ≡ true
            → (r : Result (Unit {0})) → validate_v2_meta plan_meta ≡ r
            → Rejected ⊎ Accepted
        by_validation few (err why) e =
            inl (leb→le _ _ few, (why, e, rw (few, encrypt_metadata_rejected why e) refl))
        by_validation few (ok tt) e =
            let wf = (validate_iff plan_meta).0 e in inr (leb→le _ _ few, wf, planned few wf)

        by_size :
            (leb (chunk_count size chunk_size_v2) u32_max ≡ true)
              ⊎ (leb (chunk_count size chunk_size_v2) u32_max ≡ false)
            → ((u32_max < chunk_count size chunk_size_v2) × (plan_run ≡ err Error.too_large))
              ⊎ Rejected
              ⊎ Accepted
        by_size (inl few) = inr (by_validation few (validate_v2_meta plan_meta) refl)
        by_size (inr many) = inl (ground arith, rw many refl)
