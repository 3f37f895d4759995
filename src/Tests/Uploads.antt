-- ===== src/Tests/Uploads.antt =====
-- Folders and streamed uploads at concrete inputs.
use lethean.Prelude.{
  ◌+◌, ◌≤◌, ◌≡◌, refl, false, none, [], arith, leb→le, length, replicate, Bytes, codes, zeros,
  utf16_len, ok,
}
use lethean.Padding.{padded_metadata_size}
use lethean.Meta.{FileMeta, new_folder, new_file, safe_name, safe_mime}
use lethean.Crypto.{from_base64, aes_gcm_decrypt_aad}
use lethean.Keys.{new_v2, content_key, single_aad}
use lethean.Content.{EncryptedFilePayload, Draws, upload_meta}
use lethean.Content.RoundTrip.{Drawn}
use lethean.Content.Plans.{
  StreamUploadPlan, stream_body_len, folder_meta, encrypt_folder, plan_stream_upload, ReadsBack,
  encrypt_folder_lem, plan_stream_upload_lem,
}
use lethean.Tests.Toy.{toy_aead, toy_encodings}
use lethean.Tests.ToyJson.{toy_json, toy_to_vec, put_text, put_flag, put_number, put_word}

abbrev draws : Draws
draws = record {
  binding = zeros 16;
  raw = zeros 32;
  metadata_iv = zeros 12;
  content_iv = zeros 12;
  wrap_iv = zeros 12;
}

drawn : Drawn draws
drawn = record { binding = refl; raw = refl; metadata_iv = refl; content_iv = refl; wrap_iv = refl }

abbrev wrapping_key : Bytes
wrapping_key = replicate 32 7

abbrev docs_meta : FileMeta
docs_meta = folder_meta (codes "docs") none none

docs_size : length (toy_to_vec docs_meta) ≡ 43
unfolding toy_to_vec put_text put_flag put_number put_word new_folder safe_name utf16_len
docs_size = refl

abbrev film_meta : FileMeta
film_meta = upload_meta (codes "film.mp4") (codes "video/mp4") false 90000 90000 none none

film_size : length (toy_to_vec film_meta) ≡ 30
unfolding toy_to_vec put_text put_flag put_number put_word new_file safe_name safe_mime utf16_len
film_size = refl

encrypt_folder_lem_example :
    (p : EncryptedFilePayload) × (encrypt_folder toy_aead toy_encodings toy_json draws wrapping_key
        (codes "docs")
        none
        none
      ≡ ok p)
    × ReadsBack toy_aead toy_encodings toy_json draws wrapping_key
        (codes "docs")
        none
        none
        p.header
        docs_meta
    × (from_base64 toy_encodings p.header.content_iv ≡ ok (zeros 12))
    × (aes_gcm_decrypt_aad toy_aead
          (content_key toy_encodings (new_v2 (zeros 16) (zeros 32))).key
          (zeros 12)
          p.ciphertext
          (single_aad (content_key toy_encodings (new_v2 (zeros 16) (zeros 32))))
        ≡ ok [])
unfolding padded_metadata_size
encrypt_folder_lem_example =
    encrypt_folder_lem toy_aead toy_encodings toy_json draws wrapping_key (codes "docs") none none
      drawn refl (leb→le _ _ refl) tt tt (omega (arith, docs_size)) (rw docs_size (leb→le _ _ refl))

plan_stream_upload_lem_example :
    (plan : StreamUploadPlan) × (plan_stream_upload toy_aead toy_encodings toy_json draws
        wrapping_key
        (codes "film.mp4")
        none
        none
        (codes "video/mp4")
        90000
      ≡ ok plan)
    × ReadsBack toy_aead toy_encodings toy_json draws wrapping_key
        (codes "film.mp4")
        none
        none
        plan.header
        film_meta
    × (from_base64 toy_encodings plan.header.content_iv ≡ ok plan.iv)
    × (plan.content_key ≡ content_key toy_encodings (new_v2 (zeros 16) (zeros 32)))
    × (90000 + 16 ≤ stream_body_len plan)
unfolding padded_metadata_size
plan_stream_upload_lem_example =
    plan_stream_upload_lem toy_aead toy_encodings toy_json draws wrapping_key (codes "film.mp4")
      none none drawn refl (leb→le _ _ refl) tt tt (codes "video/mp4") 90000 (leb→le _ _ refl)
      (omega (arith, film_size)) (rw film_size (leb→le _ _ refl))
