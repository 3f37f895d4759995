-- ===== src/Chunked/Reads.antt =====
-- The reads of `ChunkedEncryptReader`: what they send, whatever their sizes.
use lethean.Prelude.{
  ℕ, suc, ◌+◌, ◌-◌, ◌≤◌, ◌<◌, min, ◌≡◌, refl, sym, ap, ◌∙◌, inl, inr, true, false, List, [], ◌∷◌,
  ◌++◌, append_assoc, arith, ltb, leb, ◌==◌, ltb→lt, Bool-cases, length, take, drop, length-append,
  take-append-drop, length-take, length-drop, drop-drop, Bytes, Result, ok, ◌>>=◌,
}
use native.Mathlib.Nat.{zero-mul}
use mathlib.Core.Path.{subst}
use lethean.Word.{be32, u32_max}
use lethean.Source.{Event, yields, IsClean}
use lethean.Crypto.{Aead}
use lethean.Keys.{ContentKey}
use lethean.Chunked.{chunk_count, aad_for}
use lethean.Chunked.Seal.{chunk_count_lem}
use lethean.Chunked.Reader.{EncryptReader, new, next_chunk, deliver, read}
use lethean.Chunked.Stream.{
  sealed_chunks, unread, IsReady, next_plain, next_sealed, advance, next_chunk_ok, advance-IsReady,
  unread-advance, drop_of_le,
}

module _ (aead : Aead) (chunk : ℕ) where
  -- A read never fails, keeps the invariant, takes its answer off the front of what is left to send,
  -- and makes progress while anything is left.
  Served : EncryptReader → ℕ → EncryptReader × Result Bytes → Type 0
  Served s n (s', r) =
      (out : Bytes) × (r ≡ ok out)
      × IsReady aead chunk s'
      × (out ++ unread aead chunk s' ≡ unread aead chunk s)
      × (0 < n → 0 < length (unread aead chunk s) → 0 < length out)

  deliver_lem :
      (s : EncryptReader) (n : ℕ)
      → IsReady aead chunk s
      → s.pos < length s.buf
      → Served s n (deliver aead chunk s n)
  unfolding deliver Served
  deliver_lem s n v h =
      let k = min (length s.buf - s.pos) n in
      let tail = drop s.pos s.buf in
      let later =
        sealed_chunks aead chunk s.key s.format s.pre (s.count - s.index) s.index
          (yields s.source) in
      (
        take k tail,
        refl,
        record {
          clean = v.clean;
          supply = v.supply;
          enough = v.enough;
          key_sized = v.key_sized;
          pre_sized = v.pre_sized;
          index_le = v.index_le;
          count_le = v.count_le;
          pos_le = omega (arith, v.pos_le);
        },
        sym (append_assoc (take k tail) (drop (s.pos + k) s.buf) later)
            ∙ ap (λ t. t ++ later)
                (ap (λ t. take k tail ++ t) (sym (drop-drop s.pos k s.buf))
                  ∙ take-append-drop k tail),
        λ hn _. omega (arith, length-take {0} k tail, length-drop {0} s.pos s.buf),
      )

  unread_drained :
      (s : EncryptReader)
      → ltb s.pos (length s.buf) ≡ false
      → unread aead chunk s
        ≡ sealed_chunks aead chunk s.key s.format s.pre
            (s.count - s.index)
            s.index
            (yields s.source)
  unread_drained s e =
      ap
        (λ t.
          t
          ++ sealed_chunks aead chunk s.key s.format s.pre (s.count - s.index) s.index
              (yields s.source))
        (drop_of_le s.pos s.buf (ground arith))

  unread_over :
      (s : EncryptReader)
      → ltb s.pos (length s.buf) ≡ false
      → leb s.count s.index ≡ true
      → length (unread aead chunk s) ≡ 0
  unfolding sealed_chunks
  unread_over s drained over =
      let none_left : s.count - s.index ≡ 0 = ground arith in
      ap length (
        unread_drained s drained
        ∙ ap (λ k. sealed_chunks aead chunk s.key s.format s.pre k s.index (yields s.source))
            none_left)

  module _ (room : chunk ≤ aead.p_max) where
    length-sealed : (s : EncryptReader) → 0 < length (next_sealed aead chunk room s)
    length-sealed s = omega (
      arith,
      aead.length-seal s.key (s.pre ++ be32 s.index)
          (aad_for s.format s.index (s.index == s.count - 1)) (next_plain aead chunk room s),
    )

    fresh_lem :
        (s : EncryptReader) (n : ℕ) (v : IsReady aead chunk s) (h : s.index < s.count)
        → ltb s.pos (length s.buf) ≡ false
        → Served s n (deliver aead chunk (advance aead chunk room s) n)
    unfolding Served
    fresh_lem s n v h drained =
        let (out, e, v', split, progress) =
          deliver_lem (advance aead chunk room s) n (advance-IsReady aead chunk room s v h)
            (length-sealed s) in
        let same : unread aead chunk (advance aead chunk room s) ≡ unread aead chunk s =
          unread-advance aead chunk room s v h ∙ sym (unread_drained s drained) in
        (out, e, v', split ∙ same, λ hn hu. progress hn (subst (λ t. 0 < length t) (sym same) hu))

    read_lem : (s : EncryptReader) (n : ℕ) → IsReady aead chunk s → Served s n (read aead chunk s n)
    unfolding read Served
    read_lem s n v = elim (Bool-cases (n == 0)) [
      | inl none_asked ↦ rw none_asked ([], refl, v, refl, λ hn _. absurd (ground arith))
      | inr asked ↦ elim (Bool-cases (ltb s.pos (length s.buf))) [
        | inl held ↦ rw (asked, held) (deliver_lem s n v (ltb→lt s.pos (length s.buf) held))
        | inr drained ↦ elim (Bool-cases (leb s.count s.index)) [
          | inl over ↦
              rw (asked, drained, over)
                ([], refl, v, refl, λ _ h. absurd (omega (arith, unread_over s drained over, h)))
          | inr more ↦
              let h : s.index < s.count = ground arith in
              let next : (next_chunk aead chunk s).0 ≡ advance aead chunk room s =
                ap (λ r. r.0) (next_chunk_ok aead chunk room s v h) in
              let sealed : (next_chunk aead chunk s).1 ≡ ok tt =
                ap (λ r. r.1) (next_chunk_ok aead chunk room s v h) in
              rw (asked, drained, more, sealed, next) (fresh_lem s n v h drained)
        ]
      ]
    ]

  -- What a sequence of reads of the given sizes gives, put together.
  unfoldable pub sent : EncryptReader → List ℕ → Result Bytes
  sent s [] = ok []
  sent s (n ∷ ns) = do
    let (s', r) = read aead chunk s n
    out ← r
    more ← sent s' ns
    ok (out ++ more)

pub shrinks :
    (out later all : Bytes) (n k : ℕ)
    → 0 < n
    → out ++ later ≡ all
    → (0 < n → 0 < length all → 0 < length out)
    → length all ≤ suc k
    → length later ≤ k
shrinks out later all n k hn e progress h =
    let size : length out + length later ≡ length all =
      sym (length-append out later) ∙ ap length e in
    ground arith

abbrev pub AllPositive : List ℕ → Type 0
AllPositive [] = Unit
AllPositive (n ∷ ns) = (0 < n) × AllPositive ns

module _ (aead : Aead) (chunk : ℕ) (room : chunk ≤ aead.p_max) where
  abbrev Sends : List ℕ → EncryptReader → Bytes → Type 0
  Sends sizes s all =
      (out : Bytes) × (rest : Bytes) × (sent aead chunk s sizes ≡ ok out)
      × (out ++ rest ≡ all)
      × (AllPositive sizes → length all ≤ length sizes → rest ≡ [])

  sent_lem :
      (s : EncryptReader) (sizes : List ℕ)
      → IsReady aead chunk s
      → Sends sizes s (unread aead chunk s)
  unfolding sent Served
  sent_lem s [] v = ([], unread aead chunk s, refl, refl, λ _ h. ground arith)
  sent_lem s (n ∷ ns) v =
      let (out, e, v', split, progress) = read_lem aead chunk room s n v in
      let s' = (read aead chunk s n).0 in
      let (more, rest, e', split', done) = sent_lem s' ns v' in
      (
        out ++ more,
        rest,
        rw (e, e') refl,
        append_assoc out more rest ∙ ap (λ t. out ++ t) split' ∙ split,
        λ hp hl. done hp.1 (
            shrinks out (unread aead chunk s') (unread aead chunk s) n (length ns) hp.0 split
              progress hl),
      )

  -- Given a source of exactly the announced length, however it is cut, no read of the encrypting
  -- reader fails; whatever the sizes asked for, the answers are a front part of the sealed chunks of
  -- the source; and as many non-empty reads as these chunks have bytes return all of them.
  pub chunked_upload_lem :
      (source : List Event) (ck : ContentKey) (pre : Bytes) (plain_len : ℕ) (sizes : List ℕ)
      → 0 < chunk
      → IsClean source
      → length (yields source) ≡ plain_len
      → length ck.key ≡ 32
      → length pre ≡ 8
      → chunk_count plain_len chunk ≤ u32_max
      → (out : Bytes) × (rest : Bytes) × (sent aead chunk
            (new aead chunk source ck pre plain_len)
            sizes
          ≡ ok out)
        × (out ++ rest
            ≡ sealed_chunks aead chunk ck.key ck.format pre
                (chunk_count plain_len chunk)
                0
                (yields source))
        × (AllPositive sizes
            → length (
                sealed_chunks aead chunk ck.key ck.format pre
                  (chunk_count plain_len chunk)
                  0
                  (yields source))
              ≤ length sizes
            → rest ≡ [])
  unfolding new
  chunked_upload_lem source ck pre plain_len sizes some_chunk clean supply hk hp hc =
      let all_chunks : chunk_count plain_len chunk - 0 ≡ chunk_count plain_len chunk =
        omega arith in
      subst
        (λ k.
          Sends sizes (new aead chunk source ck pre plain_len)
            (sealed_chunks aead chunk ck.key ck.format pre k 0 (yields source)))
        all_chunks
        (sent_lem (new aead chunk source ck pre plain_len) sizes record {
          clean = clean;
          supply = omega (arith, supply, zero-mul chunk);
          enough = (chunk_count_lem plain_len chunk some_chunk).1;
          key_sized = hk;
          pre_sized = hp;
          index_le = omega arith;
          count_le = hc;
          pos_le = omega arith;
        })
