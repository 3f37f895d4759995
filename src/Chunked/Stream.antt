-- ===== src/Chunked/Stream.antt =====
-- One chunk of `ChunkedEncryptReader`: what `next_chunk` seals, and what it leaves to send.
use lethean.Prelude.{
  ℕ, zero, suc, ◌+◌, ◌-◌, ◌*◌, ◌≤◌, ◌<◌, min, ◌≡◌, refl, sym, ap, ◌∙◌, inl, inr, Bool, [], ◌∷◌,
  ◌++◌, arith, leb, ◌==◌, Bool-cases, length, take, drop, length-append, length-take, length-drop,
  take_of_le, Bytes, zeros, length-zeros, ok,
}
use native.Mathlib.Nat.{add-mul, one-mul}
use lethean.Word.{be32, u32_max}
use lethean.Source.{Ending, Filled, fill, yields, IsClean, fill_lem}
use lethean.Crypto.{Aead}
use lethean.Keys.{FileFormat}
use lethean.Chunked.{seal_chunk, aad_for, nonce_for}
use lethean.Chunked.Reader.{EncryptReader, seal_next, next_chunk}

pub take-min : (k c : ℕ) (xs : Bytes) → k ≡ min (length xs) c → take k xs ≡ take c xs
take-min k c xs e = elim (Bool-cases (leb (length xs) c)) [
  | inl within ↦ take_of_le k xs (ground arith) ∙ sym (take_of_le c xs (ground arith))
  | inr over ↦ ap (λ m. take m xs) (ground arith)
]

pub drop_of_le : (n : ℕ) (xs : Bytes) → length xs ≤ n → drop n xs ≡ []
drop_of_le zero [] h = refl
drop_of_le zero (x ∷ xs) h = absurd (omega arith)
drop_of_le (suc n) [] h = refl
drop_of_le (suc n) (x ∷ xs) h = drop_of_le n xs (omega arith)

pub drop-min : (k c : ℕ) (xs : Bytes) → k ≡ min (length xs) c → drop k xs ≡ drop c xs
drop-min k c xs e = elim (Bool-cases (leb (length xs) c)) [
  | inl within ↦ drop_of_le k xs (ground arith) ∙ sym (drop_of_le c xs (ground arith))
  | inr over ↦ ap (λ m. drop m xs) (ground arith)
]

module _ (aead : Aead) (chunk : ℕ) where
  -- The sealed chunks of `bytes` from an index on: `left` chunks, each zero-filled to the chunk size.
  unfoldable pub sealed_chunks : Bytes → FileFormat → Bytes → (left : ℕ) → ℕ → Bytes → Bytes
  sealed_chunks key format pre zero i bytes = []
  sealed_chunks key format pre (suc left) i bytes =
      let plain = take chunk bytes ++ zeros (chunk - length bytes) in
      aead.seal key (pre ++ be32 i) (aad_for format i (left == 0)) plain
      ++ sealed_chunks key format pre left (i + 1) (drop chunk bytes)

  -- What the reader has still to send.
  abbrev pub unread : EncryptReader → Bytes
  unread s =
      drop s.pos s.buf
      ++ sealed_chunks s.key s.format s.pre (s.count - s.index) s.index (yields s.source)

  -- The reader's invariant: the source has exactly the bytes of the chunks that are left.
  pub record IsReady (s : EncryptReader) : Type 0 where
    pub clean : IsClean s.source
    pub supply : length (yields s.source) ≡ s.plain_len - s.index * chunk
    pub enough : s.plain_len ≤ s.count * chunk
    pub key_sized : length s.key ≡ 32
    pub pre_sized : length s.pre ≡ 8
    pub index_le : s.index ≤ s.count
    pub count_le : s.count ≤ u32_max
    pub pos_le : s.pos ≤ length s.buf

  module _ (room : chunk ≤ aead.p_max) where
    seal_chunk_ok :
        (key : Bytes) (format : FileFormat) (pre : Bytes) (i : ℕ) (last : Bool) (plain : Bytes)
        → length key ≡ 32
        → length pre ≡ 8
        → i ≤ u32_max
        → length plain ≤ aead.p_max
        → seal_chunk aead key format pre i last plain
          ≡ ok (aead.seal key (pre ++ be32 i) (aad_for format i last) plain)
    unfolding seal_chunk nonce_for
    seal_chunk_ok key format pre i last plain hk hp hi room = ground arith

    -- The chunk that is sealed next, from the bytes of the source.
    abbrev pub next_plain : EncryptReader → Bytes
    next_plain s = take chunk (yields s.source) ++ zeros (chunk - length (yields s.source))

    abbrev pub next_sealed : EncryptReader → Bytes
    next_sealed s =
        aead.seal s.key (s.pre ++ be32 s.index) (aad_for s.format s.index (s.index == s.count - 1))
          (next_plain s)

    pub length-next_plain : (s : EncryptReader) → length (next_plain s) ≡ chunk
    length-next_plain s = omega (
      arith,
      length-append {0} (take chunk (yields s.source)) (zeros (chunk - length (yields s.source))),
      length-take {0} chunk (yields s.source),
      length-zeros (chunk - length (yields s.source)),
    )

    abbrev pub advance : EncryptReader → EncryptReader
    advance s = record s {
      source = (fill s.source (min (s.plain_len - s.index * chunk) chunk)).rest;
      buf = next_sealed s;
      index = s.index + 1;
      pos = 0;
    }

    seal_next_ok :
        (s : EncryptReader) (f : Filled) (c : Bytes)
        → f.ending ≡ Ending.full
        → seal_chunk aead s.key s.format s.pre s.index
            (s.index == s.count - 1)
            (f.got ++ zeros (chunk - length f.got))
          ≡ ok c
        → seal_next aead chunk s f
          ≡ (record s { source = f.rest; buf = c; index = s.index + 1; pos = 0 }, ok tt)
    unfolding seal_next
    seal_next_ok s f c full sealed = ground arith

    module _ (s : EncryptReader) (v : IsReady s) (h : s.index < s.count) where
      bytes : Bytes
      bytes = yields s.source

      filled_got :
          (fill s.source (min (s.plain_len - s.index * chunk) chunk)).got ≡ take chunk bytes
      unfolding bytes
      filled_got =
          let real = min (s.plain_len - s.index * chunk) chunk in
          (fill_lem s.source real v.clean).0
          ∙ take-min real chunk (yields s.source) (ground (arith, v.supply))

      filled_rest :
          yields (fill s.source (min (s.plain_len - s.index * chunk) chunk)).rest ≡ drop chunk bytes
      unfolding bytes
      filled_rest =
          let real = min (s.plain_len - s.index * chunk) chunk in
          (fill_lem s.source real v.clean).1
          ∙ drop-min real chunk (yields s.source) (ground (arith, v.supply))

      filled_full : (fill s.source (min (s.plain_len - s.index * chunk) chunk)).ending ≡ Ending.full
      filled_full =
          let real = min (s.plain_len - s.index * chunk) chunk in
          (fill_lem s.source real v.clean).2 ∙ ground (arith, v.supply)

      filled_plain :
          (let f = fill s.source (min (s.plain_len - s.index * chunk) chunk) in
            f.got ++ zeros (chunk - length f.got))
          ≡ next_plain s
      unfolding bytes
      filled_plain = rw filled_got (
          ap (λ k. take chunk (yields s.source) ++ zeros k)
            (omega (arith, length-take {0} chunk (yields s.source))))

      pub next_chunk_ok : next_chunk aead chunk s ≡ (advance s, ok tt)
      unfolding next_chunk
      next_chunk_ok =
          seal_next_ok s (fill s.source (min (s.plain_len - s.index * chunk) chunk)) (next_sealed s)
            filled_full
            (ap (λ t. seal_chunk aead s.key s.format s.pre s.index (s.index == s.count - 1) t)
                filled_plain
              ∙ seal_chunk_ok s.key s.format s.pre s.index (s.index == s.count - 1) (next_plain s)
                  v.key_sized v.pre_sized (omega (arith, v.count_le))
                  (omega (arith, length-next_plain s)))

      pub advance-IsReady : IsReady (advance s)
      advance-IsReady = record {
        clean = (fill_lem s.source (min (s.plain_len - s.index * chunk) chunk) v.clean).3;
        supply = rw filled_rest (
            unfold bytes in
            omega (
              arith,
              length-drop {0} chunk (yields s.source),
              v.supply,
              add-mul s.index 1 chunk,
              one-mul chunk,
            ));
        enough = v.enough;
        key_sized = v.key_sized;
        pre_sized = v.pre_sized;
        index_le = omega arith;
        count_le = v.count_le;
        pos_le = omega arith;
      }

      left_suc : s.count - s.index ≡ suc (s.count - (s.index + 1))
      left_suc = omega arith

      pub unread-advance :
          unread (advance s)
          ≡ sealed_chunks s.key s.format s.pre (s.count - s.index) s.index (yields s.source)
      unfolding sealed_chunks bytes
      unread-advance =
          let last : (s.index == s.count - 1) ≡ (s.count - (s.index + 1) == 0) = ground arith in
          rw (left_suc, filled_rest)
            (ap
              (λ l.
                aead.seal s.key (s.pre ++ be32 s.index) (aad_for s.format s.index l) (next_plain s)
                ++ sealed_chunks s.key s.format s.pre (s.count - (s.index + 1)) (s.index + 1)
                    (drop chunk (yields s.source)))
              last)
