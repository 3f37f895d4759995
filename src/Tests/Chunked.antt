-- ===== src/Tests/Chunked.antt =====
-- Chunked files at concrete inputs, with chunks of four bytes where the size of a chunk is free.
use lethean.Prelude.{
  ℕ, ◌-◌, ◌*◌, ◌≤◌, ◌<◌, min, max, ◌≡◌, refl, ◌↔◌, ◌⊎◌, false, none, List, [], ◌∷◌, ◌++◌, arith,
  leb→le, length, take, replicate, Bytes, codes, zeros, utf16_width, utf16_len, Error, ok, err,
}
use lethean.Word.{be32, u32_max}
use lethean.Source.{Event, yields}
use lethean.Keys.{FileFormat, ContentKey}
use lethean.Meta.{chunk_size_v2}
use lethean.Chunked.{chunk_count, nonce_for, seal_chunk, open_chunk}
use lethean.Chunked.Seal.{nonce_for-injective, open_iff_seal, chunk_count_lem}
use lethean.Chunked.Stream.{sealed_chunks}
use lethean.Chunked.Reader.{new, read}
use lethean.Chunked.Reads.{sent, AllPositive, chunked_upload_lem}
use lethean.Chunked.Failure.{read_after_failure}
use lethean.Tests.Toy.{toy_aead, toy_encodings}
use lethean.Tests.ToyJson.{toy_json, toy_to_vec, put_text, put_flag, put_number, put_word}
use lethean.Padding.{padded_metadata_size, bucket_for}
use lethean.Meta.{
  FileMeta, new_file, safe_mime, validate_v2_meta, check_sizes, check_layout, check_parent,
  check_from,
}
use lethean.Meta.Valid.{IsWellFormed, validate_iff}
use lethean.Chunked.Plan.{plan_meta, plan_run, Rejected, Accepted, plan_chunked_upload_lem}

abbrev pre : Bytes
pre = replicate 8 5

abbrev index : ℕ
index = 7

abbrev key : ContentKey
key = record { key = replicate 32 3; format = FileFormat.v2 }

nonce_for-injective_example : (length (pre ++ be32 index) ≡ 12) × (index ≡ index)
unfolding nonce_for
nonce_for-injective_example = nonce_for-injective pre index index refl refl

open_iff_seal_example :
    (open_chunk toy_aead key.key FileFormat.v2 pre 1 false (zeros 20) ≡ ok (zeros 4))
    ↔ (seal_chunk toy_aead key.key FileFormat.v2 pre 1 false (zeros 4) ≡ ok (zeros 20))
open_iff_seal_example =
    open_iff_seal toy_aead key.key FileFormat.v2 pre 1 false (zeros 4) (zeros 20) (leb→le _ _ refl)

chunk_count_lem_example :
    (1 ≤ chunk_count 9 4) × (9 ≤ chunk_count 9 4 * 4) × ((chunk_count 9 4 - 1) * 4 < max 9 1)
chunk_count_lem_example = chunk_count_lem 9 4 (omega arith)

abbrev six : List Event
six = Event.ready (1 ∷ 2 ∷ []) ∷ Event.interrupted ∷ Event.ready (3 ∷ 4 ∷ 5 ∷ 6 ∷ []) ∷ []

chunked_upload_lem_example :
    (out : Bytes) × (rest : Bytes) × (sent toy_aead 4 (new toy_aead 4 six key pre 6) (7 ∷ 30 ∷ [])
      ≡ ok out)
    × (out ++ rest
        ≡ sealed_chunks toy_aead 4 key.key key.format pre (chunk_count 6 4) 0 (yields six))
    × (AllPositive (7 ∷ 30 ∷ [])
        → length (sealed_chunks toy_aead 4 key.key key.format pre (chunk_count 6 4) 0 (yields six))
          ≤ 2
        → rest ≡ [])
unfolding yields chunk_count
chunked_upload_lem_example =
    chunked_upload_lem toy_aead 4 (leb→le _ _ refl) six key pre 6 (7 ∷ 30 ∷ []) (omega arith)
      (omega arith, (omega arith, tt)) refl refl refl (leb→le _ _ refl)

read_after_failure_example :
    (let s =
        new toy_aead 4 (Event.ready (1 ∷ 2 ∷ []) ∷ Event.failing Error.other_io ∷ []) key pre 6 in
      ((read toy_aead 4 s 3).1 ≡ err Error.other_io)
      × ((read toy_aead 4 (read toy_aead 4 s 3).0 3).1
          ≡ ok (take (min 4 3) ((1 ∷ 2 ∷ []) ++ zeros (4 - 2)))))
read_after_failure_example =
    read_after_failure toy_aead 4 (1 ∷ 2 ∷ []) Error.other_io [] key pre 6 3 (omega arith)
      (omega arith) (omega arith) (omega arith)

abbrev big_meta : FileMeta
big_meta =
    plan_meta toy_aead toy_encodings toy_json (zeros 16) (zeros 32) pre (zeros 12) (zeros 12)
      key.key (codes "big.bin") [] 100000000 none none

big_size : length (toy_to_vec big_meta) ≡ 45
unfolding toy_to_vec put_text put_flag put_number put_word new_file safe_mime utf16_len
big_size = refl

big-IsWellFormed : IsWellFormed big_meta
unfolding validate_v2_meta check_sizes check_layout check_parent check_from new_file safe_mime
    utf16_len utf16_width
big-IsWellFormed = (validate_iff big_meta).0 refl

plan_chunked_upload_lem_example :
    ((u32_max < chunk_count 100000000 chunk_size_v2)
      × (plan_run toy_aead toy_encodings toy_json
            (zeros 16)
            (zeros 32)
            pre
            (zeros 12)
            (zeros 12)
            key.key
            (codes "big.bin")
            []
            100000000
            none
            none
          ≡ err Error.too_large))
    ⊎ Rejected toy_aead toy_encodings toy_json
        (zeros 16)
        (zeros 32)
        pre
        (zeros 12)
        (zeros 12)
        key.key
        (codes "big.bin")
        []
        100000000
        none
        none
    ⊎ Accepted toy_aead toy_encodings toy_json
        (zeros 16)
        (zeros 32)
        pre
        (zeros 12)
        (zeros 12)
        key.key
        (codes "big.bin")
        []
        100000000
        none
        none
unfolding padded_metadata_size bucket_for
plan_chunked_upload_lem_example =
    plan_chunked_upload_lem toy_aead toy_encodings toy_json (zeros 16) (zeros 32) pre (zeros 12)
      (zeros 12) key.key (codes "big.bin") [] 100000000 none none refl refl refl refl refl refl
      (leb→le _ _ refl) (omega (arith, big_size)) (rw big_size (leb→le _ _ refl))
