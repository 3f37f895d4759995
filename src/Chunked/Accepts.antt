-- ===== src/Chunked/Accepts.antt =====
-- What a chunked download accepts: `decrypt_chunked` of `lethean_fuse/src/crypto/chunked.rs`.
use lethean.Prelude.{
  ℕ, zero, suc, ◌+◌, ◌-◌, ◌*◌, ◌≤◌, ◌<◌, min, ◌≡◌, refl, sym, ap, ◌∙◌, inl, inr, Bool, true, ◌&&◌,
  List, [], ◌++◌, append_assoc, append-nil, arith, leb, ◌==◌, ==_iff, Bool-cases, length, take,
  drop, length-append, take-append-drop, length-take, length-drop, Bytes, all_zero, zeros,
  all_zero_eq, Error, Result, ok, err, ◌>>=◌, ◌>>◌, guard, >>=-eq-ok,
}
use mathlib.Core.Path.{subst}
use native.Mathlib.Nat.{add-mul, one-mul}
use lethean.Word.{be32, u32_max}
use lethean.Source.{Event, yields, IsClean}
use lethean.Crypto.{Aead}
use lethean.Keys.{FileFormat}
use lethean.Gcm.{Primitives}
use lethean.Gcm.Upload.{sealed_stream, start}
use lethean.Gcm.Decrypt.{DecryptReader, open_with_aad}
use lethean.Gcm.Stage.{body_of}
use lethean.Gcm.Answer.{Stage}
use lethean.Gcm.Verdict.{fresh-Stage, good-sealed, plain_of, good}
use lethean.Chunked.{chunk_count, aad_for}
use lethean.Chunked.Seal.{chunk_count_lem}
use lethean.Chunked.Stream.{sealed_chunks}
use lethean.Chunked.Fetch.{limit, drain, fetch_chunks, probe_end, decrypt_chunked}
use lethean.Chunked.Drain.{limit_lem}
use lethean.Chunked.Loop.{Ended, drain-Ended}
use lethean.Chunked.Restore.{nonce_ok}
use lethean.Chunked.Cut.{ok_eq, probe_sound, cut, join}

module _ (write : Bytes → Bytes → Result Bytes)
    (writes : (out b : Bytes) → write out b ≡ ok (out ++ b)) (p : Primitives) (batch io_buf : ℕ)
    (hb : 0 < io_buf) (big : 16 < batch) (buf : ℕ) (room : 0 < buf) (aead : Aead)
    (agree : (key nonce aad plain : Bytes)
      → length key ≡ 32
      → length nonce ≡ 12
      → aead.seal key nonce aad plain ≡ sealed_stream p key nonce aad plain)
    (key pre : Bytes) (key_sized : length key ≡ 32) (pre_sized : length pre ≡ 8) (chunk : ℕ) where
  -- A chunk of the v2 format that drains in full.
  module _ (nonce aad : Bytes) (hi : length nonce ≡ 12) (part : List Event) (clean : IsClean part)
      (short : length (yields part) ≤ chunk + 16) (want : ℕ) (fits : want ≤ chunk)
      (out : Bytes) where
    abbrev text : Bytes
    text = plain_of p batch io_buf hb big key nonce aad (yields part) hi

    abbrev right : Bool
    right = good p batch io_buf hb big key nonce aad (yields part) hi

    abbrev Holds : Bytes → Type 0
    Holds out' =
        (t : Bytes) × (out' ≡ out ++ t)
        × (length t ≡ want)
        × (yields part ≡ aead.seal key nonce aad (t ++ zeros (chunk - want)))

    Ended-Holds :
        (r : Result (ℕ × Bytes)) (out' : Bytes)
        → r ≡ ok (chunk, out')
        → Ended write FileFormat.v2 writes want 0 out text right r
        → Holds out'
    Ended-Holds r out' e (inr (x, f, _)) = cc
    Ended-Holds r out' e (inl (f, g, fill_ok)) =
        let same = ok_eq (sym e ∙ f) in
        let size : chunk ≡ 0 + length text = ap (λ x. x.0) same in
        let n = want - 0 in
        let rest = drop n text in
        let zero_rest : all_zero rest ≡ true = ground (arith, fill_ok) in
        let rest_eq : rest ≡ zeros (chunk - want) =
          all_zero_eq rest zero_rest
          ∙ ap (λ k. zeros k) (omega (arith, size, length-drop {0} n text)) in
        let whole : text ≡ take n text ++ zeros (chunk - want) =
          sym (take-append-drop n text) ∙ ap (λ t. take n text ++ t) rest_eq in
        (
          take n text,
          ap (λ x. x.1) same,
          omega (arith, size, length-take {0} n text),
          good-sealed p batch io_buf hb big key nonce aad (yields part) hi g
              ∙ sym (agree key nonce aad text key_sized hi)
              ∙ ap (aead.seal key nonce aad) whole,
        )

    drained :
        (s : DecryptReader p) (out' : Bytes)
        → Stage p s text right
        → drain p batch io_buf write FileFormat.v2 (chunk + 2) buf s want 0 out ≡ ok (chunk, out')
        → Holds out'
    drained s out' stage e = Ended-Holds _ out' e (
        drain-Ended write FileFormat.v2 writes p batch io_buf hb big buf room (chunk + 2) want 0 s
          out text right
          (omega (
            arith,
            short,
            p.length-keystream (start p key nonce aad).ctr (body_of (yields part)),
            length-take {0} (length (yields part) - 16) (yields part),
          ))
          stage)

  abbrev fetch : ℕ → ℕ → ℕ → ℕ → List Event → ℕ → Bytes → Result (List Event × ℕ × Bytes)
  fetch = fetch_chunks p batch io_buf write FileFormat.v2 buf key pre chunk

  -- What follows a chunk.
  abbrev next :
      ℕ → ℕ → ℕ → ℕ → List Event → ℕ → Result (ℕ × Bytes) → Result (List Event × ℕ × Bytes)
  next true_size count left i rest written r = r >>= λ got.
      guard (got.0 == chunk) Error.unexpected_eof
      >> fetch true_size count left (i + 1) rest written got.1

  step :
      (true_size count left i : ℕ) (src : List Event) (written : ℕ) (out : Bytes)
      (s : DecryptReader p)
      → i ≤ u32_max
      → open_with_aad p
          (limit (chunk + 16) src).0
          key
          (pre ++ be32 i)
          (aad_for FileFormat.v2 i (i == count - 1))
        ≡ ok s
      → fetch true_size count (suc left) i src written out
        ≡ next true_size count left i
            (limit (chunk + 16) src).1
            (written + min (true_size - written) chunk)
            (drain p batch io_buf write FileFormat.v2
              (chunk + 2)
              buf
              s
              (min (true_size - written) chunk)
              0
              out)
  unfolding fetch_chunks
  step true_size count left i src written out s hi opened =
      rw
        (
          nonce_ok write FileFormat.v2 writes p batch io_buf hb big buf room aead agree key pre
              key_sized pre_sized chunk i hi,
          opened,
        )
        refl

  next_ok :
      (true_size count left i : ℕ) (rest : List Event) (written : ℕ) (r : Result (ℕ × Bytes))
      (w : List Event × ℕ × Bytes)
      → next true_size count left i rest written r ≡ ok w
      → (out' : Bytes) × (r ≡ ok (chunk, out'))
        × (fetch true_size count left (i + 1) rest written out' ≡ ok w)
  next_ok true_size count left i rest written (err e) w h = cc
  next_ok true_size count left i rest written (ok (got, out')) w h =
      elim (Bool-cases (got == chunk)) [
        | inl same ↦
            let size : got ≡ chunk = (==_iff got chunk).0 same in
            (
              out',
              ap (λ n. ok (n, out')) size,
              ap
                    (λ b.
                      guard b Error.unexpected_eof
                      >> fetch true_size count left (i + 1) rest written out')
                    (sym same)
                  ∙ h,
            )
        | inr other ↦
            let refused : err Error.unexpected_eof ≡ ok w =
              ap
                (λ b.
                  guard b Error.unexpected_eof
                  >> fetch true_size count left (i + 1) rest written out')
                (sym other)
              ∙ h in
            cc
      ]

  -- The chunks that were read are the sealed chunks of the bytes that were written.
  abbrev Read : ℕ → ℕ → ℕ → List Event → Bytes → List Event × ℕ × Bytes → Type 0
  Read left i size src out w =
      (bytes : Bytes) × (w.2 ≡ out ++ bytes)
      × (length bytes ≡ size)
      × IsClean w.0
      × (yields src ≡ sealed_chunks aead chunk key FileFormat.v2 pre left i bytes ++ yields w.0)

  -- A chunk, and the chunks after it.
  Read-suc :
      (left i count size : ℕ)
      → i + suc left ≡ count
      → (src : List Event) (out out' t bytes : Bytes) (w : List Event × ℕ × Bytes) → out' ≡ out ++ t
      → length t ≡ min size chunk
      → length bytes ≡ size - min size chunk
      → w.2 ≡ out' ++ bytes
      → IsClean w.0
      → take (chunk + 16) (yields src)
        ≡ aead.seal key
            (pre ++ be32 i)
            (aad_for FileFormat.v2 i (i == count - 1))
            (t ++ zeros (chunk - min size chunk))
      → drop (chunk + 16) (yields src)
        ≡ sealed_chunks aead chunk key FileFormat.v2 pre left (i + 1) bytes ++ yields w.0
      → Read (suc left) i size src out w
  unfolding sealed_chunks
  Read-suc left i count size hc src out out' t bytes w te tl bl we clean3 first others =
      let want = min size chunk in
      let last = i == count - 1 in
      let nonce = pre ++ be32 i in
      let (front, behind) = cut chunk t bytes want tl (omega arith) (λ less. omega (arith, bl)) in
      let seal_of : Bool → Bytes → Bytes = λ l. aead.seal key nonce (aad_for FileFormat.v2 i l) in
      let flag : last ≡ (left == 0) = ground arith in
      let more = sealed_chunks aead chunk key FileFormat.v2 pre left (i + 1) in
      (
        t ++ bytes,
        we ∙ ap (λ o. o ++ bytes) te ∙ append_assoc out t bytes,
        omega (arith, tl, bl, length-append {0} t bytes),
        clean3,
        join (chunk + 16) (yields src) (seal_of last (t ++ zeros (chunk - want)))
            (seal_of (left == 0) (take chunk (t ++ bytes) ++ zeros (chunk - length (t ++ bytes))))
            (more bytes) (more (drop chunk (t ++ bytes))) (yields w.0) first others
            (ap (seal_of last) (sym front)
              ∙ ap (λ l. seal_of l (take chunk (t ++ bytes) ++ zeros (chunk - length (t ++ bytes))))
                  flag)
            (ap more (sym behind)),
      )

  fetch-Read :
      (left i count written true_size : ℕ) (src : List Event) (out : Bytes)
      (w : List Event × ℕ × Bytes)
      → IsClean src
      → i + left ≡ count
      → count ≤ u32_max
      → true_size - written ≤ left * chunk
      → fetch true_size count left i src written out ≡ ok w
      → Read left i (true_size - written) src out w
  unfolding sealed_chunks
  fetch-Read zero i count written true_size src out w clean hc hm hl h =
      let first : List Event × ℕ × Bytes = (src, written, out) in
      let same : first ≡ w = ok_eq (unfold fetch_chunks in h) in
      let here : Read 0 i (true_size - written) src out first =
        ([], sym (append-nil out), omega (arith, hl), clean, refl) in
      subst (Read 0 i (true_size - written) src out) same here
  fetch-Read (suc left) i count written true_size src out w clean hc hm hl h =
      let size = true_size - written in
      let want = min size chunk in
      let last = i == count - 1 in
      let aad = aad_for FileFormat.v2 i last in
      let nonce = pre ++ be32 i in
      let hi : length nonce ≡ 12 = omega (arith, pre_sized, length-append {0} pre (be32 i)) in
      let part = (limit (chunk + 16) src).0 in
      let later = (limit (chunk + 16) src).1 in
      let (first, others, clean1, clean2) = limit_lem (chunk + 16) src clean in
      let short : length (yields part) ≤ chunk + 16 =
        omega (arith, ap (length {0}) first, length-take {0} (chunk + 16) (yields src)) in
      let (s, opened, stage) =
        fresh-Stage p batch io_buf hb big part key nonce aad hi clean1 key_sized in
      let (out', dr, went_on) =
        next_ok true_size count left i later (written + want) _ w (
          sym (step true_size count left i src written out s (omega (arith, hc, hm)) opened) ∙ h) in
      let (t, te, tl, sealed) =
        drained nonce aad hi part clean1 short want (omega arith) out s out' stage dr in
      let (bytes, we, bl, clean3, all) =
        fetch-Read left (i + 1) count (written + want) true_size later out' w clean2
          (omega (arith, hc)) hm (omega (arith, hl, add-mul left 1 chunk, one-mul chunk)) went_on in
      Read-suc left i count size (omega (arith, hc)) src out out' t bytes w te tl
        (omega (arith, bl)) we clean3 (sym first ∙ sealed) (sym others ∙ all)

  -- Whatever the server sends: a download of a v2 file from a source that does not fail, if it returns, has
  -- read exactly the sealed chunks of the bytes it wrote, no chunk missing, moved or added, and as many
  -- bytes as the file has. The key has 32 bytes and the prefix 8, the chunks are not too many, the writer
  -- appends what it is given, and the library's AES-GCM agrees with the streaming one.
  pub decrypt_chunked_sound :
      (min_chunk max_chunk true_size n : ℕ) (src : List Event) (bytes : Bytes)
      → 0 < chunk
      → chunk_count true_size chunk ≤ u32_max
      → IsClean src
      → decrypt_chunked p batch io_buf write FileFormat.v2 min_chunk max_chunk buf key pre chunk
          true_size src []
        ≡ ok (n, bytes)
      → (length bytes ≡ true_size)
        × (yields src
            ≡ sealed_chunks aead chunk key FileFormat.v2 pre (chunk_count true_size chunk) 0 bytes)
  unfolding decrypt_chunked
  decrypt_chunked_sound min_chunk max_chunk true_size n src bytes positive few clean h =
      let count = chunk_count true_size chunk in
      let (_, _, h1) =
        >>=-eq-ok (guard (leb min_chunk chunk && leb chunk max_chunk) Error.bad_chunk_size) _ h in
      let (w, fetched, h2) = >>=-eq-ok (fetch true_size count count 0 src 0 []) _ h1 in
      let (done, probed, h3) = >>=-eq-ok (probe_end w.0) _ h2 in
      let (read, we, size, clean', all) =
        fetch-Read count 0 count 0 true_size src [] w clean (omega arith) few
          (omega (arith, (chunk_count_lem true_size chunk positive).1)) fetched in
      let wrote : read ≡ bytes = sym we ∙ ap (λ x. x.1) (ok_eq h3) in
      (
        omega (arith, size, ap (length {0}) wrote),
        all
            ∙ ap (λ t. sealed_chunks aead chunk key FileFormat.v2 pre count 0 read ++ t)
                (probe_sound w.0 clean' probed)
            ∙ append-nil (sealed_chunks aead chunk key FileFormat.v2 pre count 0 read)
            ∙ ap (sealed_chunks aead chunk key FileFormat.v2 pre count 0) wrote,
      )
