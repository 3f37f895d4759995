-- ===== src/Tests/Fetch.antt =====
-- A chunked download at a concrete input, with chunks of four bytes.
use lethean.Prelude.{
  ℕ, ◌+◌, ◌≡◌, refl, List, [], ◌∷◌, ◌++◌, append-nil, arith, leb→le, length, replicate, Bytes,
  zeros, Result, ok,
}
use lethean.Source.{Event, yields}
use lethean.Keys.{FileFormat}
use lethean.Gcm.{Primitives, xor_bytes}
use lethean.Gcm.Upload.{sealed_stream}
use lethean.Chunked.{chunk_count}
use lethean.Chunked.Stream.{sealed_chunks}
use lethean.Chunked.Fetch.{decrypt_chunked}
use lethean.Chunked.Restore.{decrypt_chunked_lem}
use lethean.Chunked.Accepts.{decrypt_chunked_sound}
use lethean.Tests.Toy.{toy_aead, plus_zero, plus_assoc}

-- A stream whose tag is always zero, as that of the cipher of the other tests.
abbrev still_primitives : Primitives
still_primitives = record {
  Ctr = ℕ;
  Ghash = ℕ;
  encrypt_block = λ key block. zeros 16;
  ctr_new = λ key block. 0;
  keystream = λ c xs. xs;
  advance = λ c n. c + n;
  ghash_new = λ h. 0;
  update_padded = λ g xs. g;
  finalize = λ g. zeros 16;
  length-encrypt_block = λ key block h. refl;
  length-keystream = λ c xs. refl;
  keystream-append = λ c xs ys. refl;
  advance-zero = plus_zero;
  advance-advance = plus_assoc;
  keystream-keystream = λ c xs. refl;
  update-nil = λ g. refl;
  update-append = λ g xs ys h. refl;
  length-finalize = λ g. refl;
}

agree :
    (key nonce aad plain : Bytes)
    → length key ≡ 32
    → length nonce ≡ 12
    → toy_aead.seal key nonce aad plain ≡ sealed_stream still_primitives key nonce aad plain
unfolding xor_bytes
agree key nonce aad plain hk hn = refl

abbrev write : Bytes → Bytes → Result Bytes
write out b = ok (out ++ b)

abbrev contents : Bytes
contents = 1 ∷ 2 ∷ 3 ∷ 4 ∷ 5 ∷ 6 ∷ []

abbrev pre : Bytes
pre = replicate 8 5

abbrev stored : List Event
stored =
    Event.ready (sealed_chunks toy_aead 4 (zeros 32) FileFormat.v2 pre (chunk_count 6 4) 0 contents)
    ∷ []

decrypt_chunked_lem_example :
    decrypt_chunked still_primitives 17 2 write FileFormat.v2 1 100 5 (zeros 32) pre 4 6 stored []
    ≡ ok (6, contents)
decrypt_chunked_lem_example =
    decrypt_chunked_lem write FileFormat.v2 (λ out b. refl) still_primitives 17 2 (omega arith)
      (omega arith) 5 (omega arith) toy_aead agree (zeros 32) pre refl refl 4 1 100 stored contents
      (omega arith) (omega arith) (omega arith) (leb→le _ _ (unfold chunk_count in refl))
      (unfold sealed_chunks chunk_count in omega arith, tt) (unfold yields in append-nil _)

decrypt_chunked_sound_example :
    (length contents ≡ 6)
    × (yields stored
        ≡ sealed_chunks toy_aead 4 (zeros 32) FileFormat.v2 pre (chunk_count 6 4) 0 contents)
decrypt_chunked_sound_example =
    decrypt_chunked_sound write (λ out b. refl) still_primitives 17 2 (omega arith) (omega arith) 5
      (omega arith) toy_aead agree (zeros 32) pre refl refl 4 1 100 6 6 stored contents
      (omega arith) (leb→le _ _ (unfold chunk_count in refl))
      (unfold sealed_chunks chunk_count in omega arith, tt)
      (decrypt_chunked_lem write FileFormat.v2 (λ out b. refl) still_primitives 17 2 (omega arith)
        (omega arith) 5 (omega arith) toy_aead agree (zeros 32) pre refl refl 4 1 100 stored
        contents (omega arith) (omega arith) (omega arith) (leb→le _ _ (unfold chunk_count in refl))
        (unfold sealed_chunks chunk_count in omega arith, tt) (unfold yields in append-nil _))
