-- ===== src/Tests/Streams.antt =====
-- The read loop and the running authentication code at concrete inputs.
use lethean.Prelude.{
  ◌≡◌, refl, ◌↔◌, some, ok, List, [], ◌∷◌, ◌++◌, arith, length, take, drop, replicate, Bytes, zeros,
  ℕ, zero, suc,
}
use lethean.Source.{Event, Ending, fill, yields, IsClean, ending_at, fill_lem}
use lethean.Gcm.{GcmState, finish, xor_bytes}
use lethean.Gcm.Absorb.{absorb_all, concat, tag_of, tag_any_cut}
use lethean.Chunked.Reads.{AllPositive}
use lethean.Gcm.Encrypt.{StreamReader, with_aad}
use lethean.Gcm.Decrypt.{DecryptReader, open_with_aad}
use lethean.Gcm.Verdict.{received, stream_download_lem}
use lethean.Gcm.Upload.{Answers, sealed_stream, stream_upload_lem}
use lethean.Tests.Toy.{toy_primitives}

abbrev dribble : List Event
dribble = Event.ready (1 ∷ 2 ∷ []) ∷ Event.interrupted ∷ Event.ready (3 ∷ 4 ∷ 5 ∷ []) ∷ []

fill_across_events :
    fill dribble 4
    ≡ record { got = 1 ∷ 2 ∷ 3 ∷ 4 ∷ []; rest = Event.ready (5 ∷ []) ∷ []; ending = Ending.full }
unfolding fill
fill_across_events = refl

fill_lem_example :
    ((fill dribble 7).got ≡ take 7 (yields dribble))
    × (yields (fill dribble 7).rest ≡ drop 7 (yields dribble))
    × ((fill dribble 7).ending ≡ ending_at 7 (length (yields dribble)))
    × IsClean (fill dribble 7).rest
fill_lem_example = fill_lem dribble 7 (omega arith)

abbrev fresh : GcmState toy_primitives
fresh = record { ctr = 0; ghash = 0; tag_mask = zeros 16; pending = []; ct_len = 0; aad_len = 3 }

abbrev pieces : List Bytes
pieces = (1 ∷ []) ∷ replicate 20 2 ∷ [] ∷ replicate 30 3 ∷ []

tag_any_cut_example :
    finish toy_primitives (absorb_all toy_primitives fresh pieces)
    ≡ tag_of toy_primitives 0 (zeros 16) 3 (concat toy_primitives pieces)
tag_any_cut_example = tag_any_cut toy_primitives pieces fresh refl refl

stream_upload_lem_example :
    (s : StreamReader toy_primitives) × (with_aad toy_primitives dribble
        (zeros 32)
        (zeros 12)
        (7 ∷ [])
        5
        8
      ≡ ok s)
    × Answers toy_primitives 2
        (3 ∷ 4 ∷ 100 ∷ [])
        s
        (sealed_stream toy_primitives (zeros 32) (zeros 12) (7 ∷ []) (yields dribble ++ zeros 3))
stream_upload_lem_example =
    stream_upload_lem toy_primitives 2 dribble (zeros 32) (zeros 12) (7 ∷ []) 5 8 (3 ∷ 4 ∷ 100 ∷ [])
      (omega arith) (omega arith, (omega arith, tt)) (unfold yields in refl) (omega arith) refl refl

abbrev sealed : Bytes
sealed = sealed_stream toy_primitives (zeros 32) (zeros 12) (7 ∷ []) (1 ∷ 2 ∷ 3 ∷ 4 ∷ 5 ∷ [])

abbrev in_parts : List Event
in_parts = Event.ready (take 9 sealed) ∷ Event.interrupted ∷ Event.ready (drop 9 sealed) ∷ []

abbrev asked : List ℕ
asked = replicate 30 3

asked-AllPositive : (n : ℕ) → AllPositive (replicate n 3)
asked-AllPositive zero = tt
asked-AllPositive (suc n) = (omega arith, asked-AllPositive n)

stream_download_lem_example :
    (s : DecryptReader toy_primitives) × (open_with_aad toy_primitives in_parts
        (zeros 32)
        (zeros 12)
        (7 ∷ [])
      ≡ ok s)
    × ((plain : Bytes)
        → (received toy_primitives 17 2 s asked ≡ (plain, some (ok tt)))
          ↔ (yields in_parts ≡ sealed_stream toy_primitives (zeros 32) (zeros 12) (7 ∷ []) plain))
stream_download_lem_example =
    stream_download_lem toy_primitives 17 2 (omega arith) (omega arith) in_parts (zeros 32)
      (zeros 12) (7 ∷ []) asked
      (unfold xor_bytes in omega arith, (unfold xor_bytes in omega arith, tt)) refl refl
      (asked-AllPositive 30) (unfold yields xor_bytes in omega arith)
