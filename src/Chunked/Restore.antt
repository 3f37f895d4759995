-- ===== src/Chunked/Restore.antt =====
-- A chunked download: `decrypt_chunked` of `lethean_fuse/src/crypto/chunked.rs` on sealed chunks.
use lethean.Prelude.{
  ℕ, zero, suc, ◌+◌, ◌-◌, ◌*◌, ◌≤◌, ◌<◌, min, ◌≡◌, refl, sym, ap, ◌∙◌, inl, inr, Bool, true, ◌&&◌,
  List, [], ◌++◌, append_assoc, append-nil, arith, leb, ◌==◌, if◌then◌else◌, length, take, drop,
  length-append, take-append-drop, length-take, length-drop, take-append, drop-append, Bytes, zeros,
  length-zeros, all_zero-zeros, Result, ok,
}
use mathlib.Core.Path.{subst}
use native.Mathlib.Nat.{add-mul, one-mul}
use lethean.Word.{be32, u32_max}
use lethean.Source.{Event, Ending, fill, yields, IsClean, fill_lem}
use lethean.Crypto.{Aead}
use lethean.Keys.{FileFormat}
use lethean.Gcm.{Primitives}
use lethean.Gcm.Reads.{nil_of_length}
use lethean.Gcm.Upload.{sealed_stream}
use lethean.Gcm.Decrypt.{DecryptReader, open_with_aad}
use lethean.Gcm.Answer.{Stage}
use lethean.Gcm.Verdict.{fresh-Stage, sealed-good, good}
use lethean.Chunked.{chunk_count, nonce_for, aad_for}
use lethean.Chunked.Seal.{chunk_count_lem}
use lethean.Chunked.Stream.{sealed_chunks}
use lethean.Chunked.Fetch.{limit, drain, fetch_chunks, after_probe, probe_end, decrypt_chunked}
use lethean.Chunked.Drain.{limit_lem}
use lethean.Chunked.Loop.{is_filler, Ended, drain-Ended}

all_zero-filler : (format : FileFormat) (k : ℕ) → is_filler format (zeros k) ≡ true
all_zero-filler format k = ground (arith, all_zero-zeros k)

probe_ok : (src : List Event) → IsClean src → yields src ≡ [] → probe_end src ≡ ok tt
unfolding probe_end after_probe
probe_ok src clean dry =
    let (_, _, ends, _) = fill_lem src 1 clean in
    let over : (fill src 1).ending ≡ Ending.ended =
      ends ∙ ap (λ (t : Bytes). if leb 1 (length t) then Ending.full else Ending.ended) dry in
    ap after_probe over

module _ (write : Bytes → Bytes → Result Bytes) (format : FileFormat)
    (writes : (out b : Bytes) → write out b ≡ ok (out ++ b)) (p : Primitives) (batch io_buf : ℕ)
    (hb : 0 < io_buf) (big : 16 < batch) (buf : ℕ) (room : 0 < buf) (aead : Aead)
    (agree : (key nonce aad plain : Bytes)
      → length key ≡ 32
      → length nonce ≡ 12
      → aead.seal key nonce aad plain ≡ sealed_stream p key nonce aad plain)
    (key pre : Bytes) (key_sized : length key ≡ 32) (pre_sized : length pre ≡ 8) (chunk : ℕ) where
  -- One sealed chunk, read back.
  module _ (i : ℕ) (last : Bool) (part : List Event) (clean : IsClean part)
      (bytes out : Bytes) where
    abbrev plain : Bytes
    plain = take chunk bytes ++ zeros (chunk - length bytes)

    abbrev aad : Bytes
    aad = aad_for format i last

    abbrev want : ℕ
    want = min (length bytes) chunk

    length-plain : length plain ≡ chunk
    length-plain = omega (
      arith,
      length-append {0} (take chunk bytes) (zeros (chunk - length bytes)),
      length-take {0} chunk bytes,
      length-zeros (chunk - length bytes),
    )

    wanted : length (take chunk bytes) ≡ want
    wanted = omega (arith, length-take {0} chunk bytes)

    pub nonce_sized : length (pre ++ be32 i) ≡ 12
    nonce_sized = omega (arith, pre_sized, length-append {0} pre (be32 i))

    kept_plain : take (want - 0) plain ≡ take chunk bytes
    kept_plain =
        take-append (want - 0) (take chunk bytes) (zeros (chunk - length bytes))
          (omega (arith, wanted))

    left_plain : drop (want - 0) plain ≡ zeros (chunk - length bytes)
    left_plain =
        drop-append (want - 0) (take chunk bytes) (zeros (chunk - length bytes))
          (omega (arith, wanted))

    whole_chunk :
        (g : Bool) (r : Result (ℕ × Bytes))
        → g ≡ true
        → Ended write format writes want 0 out plain g r
        → r ≡ ok (chunk, out ++ take chunk bytes)
    whole_chunk g r h (inl (e, _, _)) =
        e
        ∙ ap (λ n. ok (n, out ++ take (want - 0) plain)) (omega (arith, length-plain))
        ∙ ap (λ t. ok (chunk, out ++ t)) kept_plain
    whole_chunk g r h (inr (x, _, inl bad)) = cc
    whole_chunk g r h (inr (x, _, inr bad)) =
        let fits : is_filler format (drop (want - 0) plain) ≡ true =
          ap (is_filler format) left_plain ∙ all_zero-filler format (chunk - length bytes) in
        cc

    chunk_read :
        yields part ≡ aead.seal key (pre ++ be32 i) aad plain
        → (s : DecryptReader p) × (open_with_aad p part key (pre ++ be32 i) aad ≡ ok s)
          × (drain p batch io_buf write format (chunk + 2) buf s want 0 out
              ≡ ok (chunk, out ++ take chunk bytes))
    chunk_read e =
        let nonce = pre ++ be32 i in
        let hi = nonce_sized in
        let (s, opened, fresh) =
          fresh-Stage p batch io_buf hb big part key nonce aad hi clean key_sized in
        let (same, right) =
          sealed-good p batch io_buf hb big key nonce aad (yields part) hi plain
            (e ∙ agree key nonce aad plain key_sized hi) in
        let stage =
          subst (λ t. Stage p s t (good p batch io_buf hb big key nonce aad (yields part) hi)) same
            fresh in
        let ended =
          drain-Ended write format writes p batch io_buf hb big buf room (chunk + 2) want 0 s out
            plain _ (omega (arith, length-plain)) stage in
        (s, opened, whole_chunk _ _ right ended)

  pub nonce_ok : (i : ℕ) → i ≤ u32_max → nonce_for pre i ≡ ok (pre ++ be32 i)
  unfolding nonce_for
  nonce_ok i hi = ground arith

  abbrev fetch : ℕ → ℕ → ℕ → ℕ → List Event → ℕ → Bytes → Result (List Event × ℕ × Bytes)
  fetch = fetch_chunks p batch io_buf write format buf key pre chunk

  step :
      (true_size count left i : ℕ) (src : List Event) (written want : ℕ) (out out' : Bytes)
      (s : DecryptReader p)
      → min (true_size - written) chunk ≡ want
      → i ≤ u32_max
      → open_with_aad p
          (limit (chunk + 16) src).0
          key
          (pre ++ be32 i)
          (aad_for format i (i == count - 1))
        ≡ ok s
      → drain p batch io_buf write format (chunk + 2) buf s want 0 out ≡ ok (chunk, out')
      → fetch true_size count (suc left) i src written out
        ≡ fetch true_size count left (i + 1) (limit (chunk + 16) src).1 (written + want) out'
  unfolding fetch_chunks
  step true_size count left i src written want out out' s hw hi opened drained =
      let sized : (chunk == chunk) ≡ true = ground arith in
      rw (nonce_ok i hi, opened, hw, drained, sized) refl

  fetch_lem :
      (left i count written true_size : ℕ) (src : List Event) (bytes out : Bytes)
      → IsClean src
      → yields src ≡ sealed_chunks aead chunk key format pre left i bytes
      → i + left ≡ count
      → count ≤ u32_max
      → written + length bytes ≡ true_size
      → length bytes ≤ left * chunk
      → (rest : List Event) × (fetch true_size count left i src written out
          ≡ ok (rest, true_size, out ++ bytes))
        × IsClean rest
        × (yields rest ≡ [])
  unfolding sealed_chunks fetch_chunks
  fetch_lem zero i count written true_size src bytes out clean e hc hm hw hl =
      let none_left : bytes ≡ [] = nil_of_length bytes (omega (arith, hl)) in
      let size : written ≡ true_size = omega (arith, hw, ap (length {0}) none_left) in
      let text : out ≡ out ++ bytes = sym (ap (λ t. out ++ t) none_left ∙ append-nil out) in
      (src, ap (λ n. ok (src, n, out)) size ∙ ap (λ t. ok (src, true_size, t)) text, clean, e)
  fetch_lem (suc left) i count written true_size src bytes out clean e hc hm hw hl =
      let last : (left == 0) ≡ (i == count - 1) = ground arith in
      let text = plain i (i == count - 1) in
      let c =
        aead.seal key (pre ++ be32 i) (aad_for format i (i == count - 1))
          (take chunk bytes ++ zeros (chunk - length bytes)) in
      let more = sealed_chunks aead chunk key format pre left (i + 1) (drop chunk bytes) in
      let all : yields src ≡ c ++ more =
        e
        ∙ ap
            (λ l.
              aead.seal key (pre ++ be32 i) (aad_for format i l)
                (take chunk bytes ++ zeros (chunk - length bytes))
              ++ more)
            last in
      let (first, others, clean1, clean2) = limit_lem (chunk + 16) src clean in
      let part = (limit (chunk + 16) src).0 in
      let size : length c ≡ chunk + 16 =
        aead.length-seal key (pre ++ be32 i) (aad_for format i (i == count - 1))
          (take chunk bytes ++ zeros (chunk - length bytes))
        ∙ ap (λ n. n + 16) (length-plain i (i == count - 1) part clean1 bytes out) in
      let (s, opened, drained) =
        chunk_read i (i == count - 1) part clean1 bytes out
          (first ∙ ap (take (chunk + 16)) all ∙ take-append (chunk + 16) c more size) in
      let rest_sealed : yields (limit (chunk + 16) src).1 ≡ more =
        others ∙ ap (drop (chunk + 16)) all ∙ drop-append (chunk + 16) c more size in
      let n = min (length bytes) chunk in
      let (rest, fetched, clean3, dry) =
        fetch_lem left (i + 1) count (written + n) true_size (limit (chunk + 16) src).1
          (drop chunk bytes) (out ++ take chunk bytes) clean2 rest_sealed (omega (arith, hc)) hm
          (omega (arith, hw, length-drop {0} chunk bytes))
          (omega (arith, hl, length-drop {0} chunk bytes, add-mul left 1 chunk, one-mul chunk)) in
      (
        rest,
        step true_size count left i src written n out (out ++ take chunk bytes) s
              (ap (λ m. min m chunk) (omega (arith, hw))) (omega (arith, hc, hm)) opened drained
            ∙ fetched
            ∙ ap (λ t. ok (rest, true_size, t))
                (append_assoc out (take chunk bytes) (drop chunk bytes)
                  ∙ ap (λ t. out ++ t) (take-append-drop chunk bytes)),
        clean3,
        dry,
      )

  -- From a source that yields the sealed chunks of some bytes and does not fail, however it is cut, a
  -- download writes exactly these bytes and returns their number: when the key has 32 bytes and the
  -- prefix 8, the chunk size is within its limits and the chunks are not too many, the writer appends
  -- what it is given, and the library's AES-GCM agrees with the streaming one.
  pub decrypt_chunked_lem :
      (min_chunk max_chunk : ℕ) (src : List Event) (bytes : Bytes)
      → min_chunk ≤ chunk
      → chunk ≤ max_chunk
      → 0 < chunk
      → chunk_count (length bytes) chunk ≤ u32_max
      → IsClean src
      → yields src
        ≡ sealed_chunks aead chunk key format pre (chunk_count (length bytes) chunk) 0 bytes
      → decrypt_chunked p batch io_buf write format min_chunk max_chunk buf key pre chunk
          (length bytes)
          src
          []
        ≡ ok (length bytes, bytes)
  unfolding decrypt_chunked
  decrypt_chunked_lem min_chunk max_chunk src bytes low high positive few clean e =
      let within : (leb min_chunk chunk && leb chunk max_chunk) ≡ true = ground arith in
      let (rest, fetched, clean', dry) =
        fetch_lem (chunk_count (length bytes) chunk) 0 (chunk_count (length bytes) chunk) 0
          (length bytes) src bytes [] clean e (omega arith) few (omega arith)
          (chunk_count_lem (length bytes) chunk positive).1 in
      rw (within, fetched, probe_ok rest clean' dry) refl
