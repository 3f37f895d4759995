-- ===== src/Gcm/Upload.antt =====
-- A streamed upload through `GcmEncryptReader` of `lethean_fuse/src/crypto/gcm_stream.rs`, from the
-- fresh reader to the last byte of the tag.
use lethean.Prelude.{
  ℕ, ◌-◌, ◌≤◌, ◌<◌, ◌≡◌, refl, sym, ap, ◌∙◌, inl, true, none, some, List, [], ◌∷◌, ◌++◌,
  append_assoc, arith, leb, ◌==◌, if◌then◌else◌, length, length-append, Bytes, zeros, is_empty,
  Result, ok, ◌>>=◌,
}
use lethean.Source.{Event, yields, IsClean}
use lethean.Chunked.Reads.{AllPositive, shrinks}
use lethean.Gcm.{Primitives, GcmState, new, new_with_aad}
use lethean.Gcm.Absorb.{Holds, tag_of}
use lethean.Gcm.Encrypt.{StreamReader, with_aad, read}
use lethean.Gcm.Send.{IsSending, to_send}
use lethean.Gcm.Reads.{Sends, read-Serves}

module _ (p : Primitives) where
  open p use {
    Ghash, encrypt_block, ctr_new, ghash_new, keystream, update_padded, update-nil,
    length-encrypt_block,
  }

  -- What a sequence of reads of the given sizes gives, put together.
  unfoldable pub sent : ℕ → StreamReader p → List ℕ → Result Bytes
  sent io_buf s [] = ok []
  sent io_buf s (n ∷ ns) = do
    let (s', r) = read p io_buf s n
    out ← r
    more ← sent io_buf s' ns
    ok (out ++ more)

  abbrev pub Answers : ℕ → List ℕ → StreamReader p → Bytes → Type 0
  Answers io_buf sizes s all =
      (out : Bytes) × (rest : Bytes) × (sent io_buf s sizes ≡ ok out)
      × (out ++ rest ≡ all)
      × (AllPositive sizes → length all ≤ length sizes → rest ≡ [])

  sent_lem :
      (io_buf : ℕ) (s : StreamReader p) (sizes : List ℕ) (all : Bytes)
      → 0 < io_buf
      → Sends p s all
      → Answers io_buf sizes s all
  unfolding sent
  sent_lem io_buf s [] all hb h = ([], all, refl, refl, λ _ l. ground arith)
  sent_lem io_buf s (n ∷ ns) all hb h =
      let (out, later, e, h', split, progress) = read-Serves p io_buf hb s n all h in
      let s' = (read p io_buf s n).0 in
      let (more, rest, e', split', done) = sent_lem io_buf s' ns later hb h' in
      (
        out ++ more,
        rest,
        rw (e, e') refl,
        append_assoc out more rest ∙ ap (λ t. out ++ t) split' ∙ split,
        λ hp hl. done hp.1 (shrinks out later all n (length ns) hp.0 split progress hl),
      )

  -- The hash of the additional data, and the ciphertext with its tag as AES-GCM defines them, of the
  -- plaintext filled up with zeros.
  abbrev pub hash_of : Bytes → Bytes → Ghash
  hash_of key aad =
      if is_empty aad
      then ghash_new (encrypt_block key (zeros 16))
      else update_padded (ghash_new (encrypt_block key (zeros 16))) aad

  abbrev pub sealed_stream : Bytes → Bytes → Bytes → Bytes → Bytes
  sealed_stream key iv aad padded =
      let c = keystream (ctr_new key (iv ++ (0 ∷ 0 ∷ 0 ∷ 2 ∷ []))) padded in
      c
      ++ tag_of p (hash_of key aad) (encrypt_block key (iv ++ (0 ∷ 0 ∷ 0 ∷ 1 ∷ []))) (length aad) c

  abbrev pub start : Bytes → Bytes → Bytes → GcmState p
  start key iv aad = record {
    ctr = ctr_new key (iv ++ (0 ∷ 0 ∷ 0 ∷ 2 ∷ []));
    ghash = hash_of key aad;
    tag_mask = encrypt_block key (iv ++ (0 ∷ 0 ∷ 0 ∷ 1 ∷ []));
    pending = [];
    ct_len = 0;
    aad_len = length aad;
  }

  pub new_with_aad_ok :
      (key iv aad : Bytes)
      → length key ≡ 32
      → length iv ≡ 12
      → new_with_aad p key iv aad ≡ ok (start key iv aad)
  unfolding new_with_aad new
  new_with_aad_ok key iv [] hk hi =
      let sized : (length key == 32) ≡ true = ground arith in
      let nonce : (length iv == 12) ≡ true = ground arith in rw (sized, nonce) refl
  new_with_aad_ok key iv (x ∷ aad) hk hi =
      let sized : (length key == 32) ≡ true = ground arith in
      let nonce : (length iv == 12) ≡ true = ground arith in rw (sized, nonce) refl

  -- A stream over a source of exactly the announced length starts and never fails, however the source
  -- is cut; whatever the sizes of the reads, the answers are a front part of the AES-GCM ciphertext
  -- and tag of the plaintext filled up with zeros; and as many non-empty reads as these have bytes
  -- return all of them.
  pub stream_upload_lem :
      (io_buf : ℕ) (source : List Event) (key iv aad : Bytes) (plain_len padded_len : ℕ)
      (sizes : List ℕ)
      → 0 < io_buf
      → IsClean source
      → length (yields source) ≡ plain_len
      → plain_len ≤ padded_len
      → length key ≡ 32
      → length iv ≡ 12
      → (s : StreamReader p) × (with_aad p source key iv aad plain_len padded_len ≡ ok s)
        × Answers io_buf sizes s
            (sealed_stream key iv aad (yields source ++ zeros (padded_len - plain_len)))
  unfolding with_aad
  stream_upload_lem io_buf source key iv aad plain_len padded_len sizes hb clean supply fits hk hi =
      let st = start key iv aad in
      let s : StreamReader p = record {
        source = source;
        state = some st;
        plain_len = plain_len;
        padded_len = padded_len;
        consumed = 0;
        out = [];
        out_pos = 0;
        tag = none;
        tag_pos = 0;
      } in
      let fitting : leb plain_len padded_len ≡ true = ground arith in
      let held : Holds p (hash_of key aad) [] st = record {
        blocks = [];
        cut = refl;
        whole = omega arith;
        short = omega arith;
        hashed = sym (update-nil (hash_of key aad));
        counted = refl;
      } in
      let ready : IsSending p s st (hash_of key aad) [] = record {
        has_state = refl;
        no_tag = refl;
        at_start = refl;
        held = held;
        mask_sized =
            length-encrypt_block key (iv ++ (0 ∷ 0 ∷ 0 ∷ 1 ∷ []))
              (omega (arith, hi, length-append {0} iv (0 ∷ 0 ∷ 0 ∷ 1 ∷ [])));
        clean = clean;
        supply = omega (arith, supply);
        padded = fits;
        within = omega arith;
        out_pos_le = omega arith;
      } in
      let added : padded_len - plain_len ≡ padded_len - 0 - length (yields source) =
        omega (arith, supply) in
      let whole : sealed_stream key iv aad (yields source ++ zeros (padded_len - plain_len))
          ≡ to_send p s st (hash_of key aad) [] =
        ap (λ k. sealed_stream key iv aad (yields source ++ zeros k)) added in
      (
        s,
        rw (fitting, new_with_aad_ok key iv aad hk hi) refl,
        sent_lem io_buf s sizes
            (sealed_stream key iv aad (yields source ++ zeros (padded_len - plain_len))) hb
            (inl (st, hash_of key aad, [], ready, whole)),
      )
