-- ===== src/Tests/Contents.antt =====
-- The keys and contents at concrete inputs.
use lethean.Prelude.{
  ◌-◌, ◌^◌, ◌≤◌, ◌<◌, ◌≡◌, refl, ◌⊎◌, true, false, none, some, [], ◌∷◌, arith, leb→le, length, drop,
  replicate, Bytes, codes, eq_list, all_zero, zeros, utf16_len, ok, ◌>>=◌,
}
use lethean.Meta.{FileMeta, new_file, safe_name, safe_mime}
use lethean.Padding.{
  padded_size, padded_metadata_size, pad_to_bucket, pad_owned_for_encryption, strip_padding,
}
use lethean.Padding.Bounds.{padded_size_closure, strip-pad_to_bucket}
use lethean.Crypto.{from_base64, aes_gcm_decrypt_aad}
use lethean.Keys.{
  FileKey, FileFormat, new_v2, content_key, wrap_file_key, unwrap_file_key, parse_key, legacy_key,
}
use lethean.Keys.Wrap.{IsKey, unwrap-wrap_file_key, unwrap_file_key-IsKey}
use lethean.Content.{
  EncryptedFilePayload, Draws, choose_content, is_incompressible_mime, decrypt_metadata,
  decrypt_content, encrypt_file,
}
use lethean.Content.RoundTrip.{Drawn, meta_of, encrypt_file_round_trip}
use lethean.Tests.Toy.{toy_aead, toy_encodings, toy_gzip, toy_compress, toy_unseal}
use lethean.Tests.ToyJson.{toy_json, toy_to_vec, put_text, put_flag, put_number, put_word}

abbrev draws : Draws
draws = record {
  binding = zeros 16;
  raw = zeros 32;
  metadata_iv = zeros 12;
  content_iv = zeros 12;
  wrap_iv = zeros 12;
}

drawn : Drawn draws
drawn = record { binding = refl; raw = refl; metadata_iv = refl; content_iv = refl; wrap_iv = refl }

abbrev wrapping_key : Bytes
wrapping_key = replicate 32 7

abbrev contents : Bytes
contents = zeros 40

-- Zeros compress, so the compressed copy is stored.
stored_compressed : choose_content toy_gzip (codes "text/plain") contents ≡ (true, 40 ∷ [])
unfolding choose_content is_incompressible_mime toy_compress eq_list all_zero
stored_compressed = refl

images_stay_plain : choose_content toy_gzip (codes "image/PNG") contents ≡ (false, contents)
unfolding choose_content is_incompressible_mime eq_list
images_stay_plain = refl

abbrev sample_meta : FileMeta
sample_meta =
    meta_of toy_aead toy_encodings toy_json toy_gzip draws drawn wrapping_key (codes "notes.txt")
      (codes "text/plain") contents none none

abbrev sample_key : FileKey
sample_key = new_v2 (zeros 16) (zeros 32)

sample_size : length (toy_to_vec sample_meta) ≡ 32
unfolding toy_to_vec put_text put_flag put_number put_word choose_content is_incompressible_mime
    toy_compress eq_list all_zero new_file safe_name safe_mime utf16_len
sample_size = refl

encrypt_file_round_trip_example :
    (p : EncryptedFilePayload) × (encrypt_file toy_aead toy_encodings toy_json toy_gzip draws
        wrapping_key
        (codes "notes.txt")
        (codes "text/plain")
        contents
        none
        none
      ≡ ok p)
    × (unwrap_file_key toy_encodings toy_aead wrapping_key p.header.wrapped_file_key
          p.header.wrap_iv
        ≡ ok sample_key)
    × (decrypt_metadata toy_aead toy_encodings toy_json sample_key p.header.encrypted_metadata
          p.header.metadata_iv
        ≡ ok sample_meta)
    × (decrypt_content toy_gzip toy_aead toy_encodings
          (content_key toy_encodings sample_key)
          p.header.content_iv
          p.ciphertext
          sample_meta
        ≡ ok contents)
unfolding padded_size padded_metadata_size
encrypt_file_round_trip_example =
    encrypt_file_round_trip toy_aead toy_encodings toy_json toy_gzip draws drawn wrapping_key
      (codes "notes.txt") (codes "text/plain") contents none none refl (omega arith) tt tt
      (omega (arith, sample_size)) (rw sample_size (leb→le _ _ refl)) (leb→le _ _ refl)

unwrap-wrap_file_key_example :
    (wrap_file_key toy_encodings toy_aead wrapping_key sample_key (zeros 12) >>= λ w.
    unwrap_file_key toy_encodings toy_aead wrapping_key w.0 w.1)
    ≡ ok sample_key
unwrap-wrap_file_key_example =
    unwrap-wrap_file_key toy_encodings toy_aead wrapping_key sample_key (zeros 12)
      (record { sized = refl; bound = refl }) refl refl (leb→le _ _ refl)

abbrev legacy_sample : FileKey
legacy_sample = record { raw = zeros 32; format = FileFormat.legacy; binding = none }

unwrap_file_key-IsKey_example : IsKey legacy_sample
unfolding unwrap_file_key parse_key legacy_key from_base64 aes_gcm_decrypt_aad toy_unseal all_zero
unwrap_file_key-IsKey_example =
    unwrap_file_key-IsKey toy_encodings toy_aead wrapping_key (zeros 48) (zeros 12) refl

padded_size_closure_example :
    ((2 ^ 64 - 2 ^ 28 < 50000) × (padded_size 50000 ≡ 0))
    ⊎ ((50000 ≤ 2 ^ 64 - 2 ^ 28)
        × (50000 ≤ padded_size 50000)
        × (padded_size (padded_size 50000) ≡ padded_size 50000)
        × (300 ≤ 50000 → padded_size 300 ≤ padded_size 50000))
padded_size_closure_example = padded_size_closure 300 50000 (omega arith)

strip-pad_to_bucket_example :
    (length (pad_to_bucket (codes "abc")) ≡ padded_size 3)
    × (all_zero (drop 3 (pad_to_bucket (codes "abc"))) ≡ true)
    × (strip_padding (pad_to_bucket (codes "abc")) (some 3) ≡ codes "abc")
    × (pad_owned_for_encryption (codes "abc") ≡ pad_to_bucket (codes "abc"))
strip-pad_to_bucket_example = strip-pad_to_bucket (codes "abc") (omega arith)
