-- ===== src/Chunked/Failure.antt =====
-- What a read of `ChunkedEncryptReader` after a failed one sends.
use lethean.Prelude.{
  ℕ, zero, suc, ◌-◌, ◌*◌, ◌<◌, min, ◌≡◌, refl, ap, ◌∙◌, true, false, List, [], ◌∷◌, ◌++◌,
  append-nil, arith, ltb, leb, ◌==◌, length, take, length-append, Bytes, zeros, length-zeros, Error,
  ok, err,
}
use native.Mathlib.Nat.{zero-mul}
use lethean.Source.{Event, Ending, fill}
use lethean.Crypto.{Aead}
use lethean.Keys.{ContentKey}
use lethean.Chunked.{chunk_count}
use lethean.Chunked.Seal.{chunk_count_lem}
use lethean.Chunked.Reader.{EncryptReader, new, seal_next, next_chunk, deliver, read}

failing_fill :
    (e : Error) (later : List Event) (k : ℕ)
    → 0 < k
    → fill (Event.failing e ∷ later) k ≡ record { got = []; rest = later; ending = Ending.failed e }
unfolding fill
failing_fill e later zero h = absurd (omega arith)
failing_fill e later (suc k) h = refl

fill_breaks :
    (b : Bytes) (e : Error) (later : List Event) (k : ℕ)
    → 0 < length b
    → length b < k
    → fill (Event.ready b ∷ Event.failing e ∷ later) k
      ≡ record { got = b; rest = later; ending = Ending.failed e }
unfolding fill
fill_breaks b e later zero h l = absurd (omega arith)
fill_breaks [] e later (suc k) h l = absurd (omega arith)
fill_breaks (x ∷ xs) e later (suc k) h l =
    let over : ltb (suc k) (length (x ∷ xs)) ≡ false = ground arith in
    rw (over, failing_fill e later (suc k - length (x ∷ xs)) (omega arith))
      (ap (λ t. record { got = t; rest = later; ending = Ending.failed e }) (append-nil (x ∷ xs)))

module _ (aead : Aead) (chunk : ℕ) where
  read_failing :
      (s s' : EncryptReader) (e : Error) (n : ℕ)
      → (n == 0) ≡ false
      → ltb s.pos (length s.buf) ≡ false
      → leb s.count s.index ≡ false
      → next_chunk aead chunk s ≡ (s', err e)
      → read aead chunk s n ≡ (s', err e)
  unfolding read
  read_failing s s' e n asked drained more stopped =
      let state : (next_chunk aead chunk s).0 ≡ s' = ap (λ r. r.0) stopped in
      let result : (next_chunk aead chunk s).1 ≡ err e = ap (λ r. r.1) stopped in
      rw (asked, drained, more, result) (ap (λ t. (t, err e)) state)

  -- When the source of a fresh reader fails in the middle of the first chunk, the read that meets the
  -- failure reports it; the read after that one answers with the bytes of the source, not encrypted.
  pub read_after_failure :
      (b : Bytes) (e : Error) (later : List Event) (ck : ContentKey) (pre : Bytes) (plain_len n : ℕ)
      → 0 < n
      → 0 < length b
      → length b < plain_len
      → length b < chunk
      → (let s = new aead chunk (Event.ready b ∷ Event.failing e ∷ later) ck pre plain_len in
          ((read aead chunk s n).1 ≡ err e)
          × ((read aead chunk (read aead chunk s n).0 n).1
              ≡ ok (take (min chunk n) (b ++ zeros (chunk - length b)))))
  unfolding new read next_chunk seal_next deliver
  read_after_failure b e later ck pre plain_len n hn hb hp hc =
      let s0 : EncryptReader =
        new aead chunk (Event.ready b ∷ Event.failing e ∷ later) ck pre plain_len in
      let s1 : EncryptReader = record s0 { source = later; buf = b ++ zeros (chunk - length b) } in
      let stop : fill (Event.ready b ∷ Event.failing e ∷ later) (min (plain_len - 0 * chunk) chunk)
          ≡ record { got = b; rest = later; ending = Ending.failed e } =
        fill_breaks b e later (min (plain_len - 0 * chunk) chunk) hb
          (omega (arith, zero-mul chunk)) in
      let stopped : next_chunk aead chunk s0 ≡ (s1, err e) = ap (seal_next aead chunk s0) stop in
      let asked : (n == 0) ≡ false = ground arith in
      let size : length (b ++ zeros (chunk - length b)) ≡ chunk =
        omega (
          arith,
          length-append {0} b (zeros (chunk - length b)),
          length-zeros (chunk - length b),
        ) in
      let many : leb (chunk_count plain_len chunk) 0 ≡ false =
        ground (arith, (chunk_count_lem plain_len chunk (omega arith)).0) in
      let first : read aead chunk s0 n ≡ (s1, err e) =
        read_failing s0 s1 e n asked refl many stopped in
      let held : ltb 0 (length (b ++ zeros (chunk - length b))) ≡ true = ground arith in
      let whole : length (b ++ zeros (chunk - length b)) - 0 ≡ chunk = omega arith in
      let second : (read aead chunk s1 n).1
          ≡ ok (take (min chunk n) (b ++ zeros (chunk - length b))) =
        rw (asked, held, whole) refl in
      (ap (λ r. r.1) first, ap (λ r. (read aead chunk r.0 n).1) first ∙ second)
