-- ===== src/Gcm/Verdict.antt =====
-- A download through `GcmDecryptReader` of `lethean_fuse/src/crypto/gcm_stream.rs`, from the fresh
-- reader to the verdict on the tag.
use lethean.Prelude.{
  ℕ, ◌-◌, ◌<◌, ◌≡◌, refl, sym, ap, ◌∙◌, ◌↔◌, ◌⊎◌, inl, inr, Bool, true, false, Option, none, some,
  List, [], ◌∷◌, ◌++◌, arith, leb, leb→le, length, take, drop, length-append, take-append-drop,
  length-take, length-drop, take_of_le, take-append_le, drop-append_ge, Bytes, Error, Result, ok,
  err,
}
use lethean.Source.{Event, yields, IsClean}
use lethean.Chunked.Reads.{AllPositive}
use lethean.Gcm.{Primitives, GcmState}
use lethean.Gcm.Absorb.{tag_of}
use lethean.Gcm.Reads.{length-xor_bytes}
use lethean.Gcm.Decrypt.{DecryptReader, differs, open_with_aad, read}
use lethean.Gcm.Receive.{differs_iff}
use lethean.Gcm.Upload.{hash_of, sealed_stream, start, new_with_aad_ok}
use lethean.Gcm.Stage.{IsReceiving, verdict, body_of, tail_of}
use lethean.Gcm.Answer.{Stage}
use lethean.Gcm.Download.{read-Answer}

-- What the caller has after a read, given what the reads after it would bring.
unfoldable pub gather :
    Result Bytes → Bytes × Option (Result (Unit {0})) → Bytes × Option (Result (Unit {0}))
gather (err e) rest = ([], some (err e))
gather (ok []) rest = ([], some (ok tt))
gather (ok (b ∷ bs)) rest = ((b ∷ bs) ++ rest.0, rest.1)

pair_eq :
    (w : Bytes × Option (Result (Unit {0}))) {out : Bytes} {end : Option (Result (Unit {0}))}
    → w.0 ≡ out
    → w.1 ≡ end
    → w ≡ (out, end)
pair_eq w {out} e f = ap (λ a. (a, w.1)) e ∙ ap (λ b. (out, b)) f

module _ (p : Primitives) where
  open p use {
    Ghash, keystream, length-encrypt_block, length-finalize, length-keystream, update-nil,
    keystream-keystream, encrypt_block, ctr_new,
  }

  -- Reads of the given sizes, up to the end of the stream or an error: the bytes, and how it ended.
  unfoldable pub received : ℕ → ℕ → DecryptReader p → List ℕ → Bytes × Option (Result (Unit {0}))
  received batch io_buf s [] = ([], none)
  received batch io_buf s (n ∷ ns) =
      let (s', r) = read p batch io_buf s n in gather r (received batch io_buf s' ns)

  abbrev Outcome : Bytes → Bool → Bytes × Option (Result (Unit {0})) → Type 0
  Outcome out good w =
      (w.0 ≡ out)
      × (((good ≡ true) × (w.1 ≡ some (ok tt)))
          ⊎ ((x : Error) × (good ≡ false) × (w.1 ≡ some (err x))))

  gather-Outcome :
      (piece later out : Bytes) (good : Bool) (rest : Bytes × Option (Result (Unit {0})))
      → 0 < length piece
      → piece ++ later ≡ out
      → Outcome later good rest
      → Outcome out good (gather (ok piece) rest)
  unfolding gather
  gather-Outcome [] later out good rest h e o = absurd (omega arith)
  gather-Outcome (b ∷ bs) later out good rest h e (same, ends) =
      (ap (λ t. (b ∷ bs) ++ t) same ∙ e, ends)

  module _ (batch io_buf : ℕ) (hb : 0 < io_buf) (big : 16 < batch) where
    received_lem :
        (sizes : List ℕ) (s : DecryptReader p) (out : Bytes) (good : Bool)
        → AllPositive sizes
        → length out < length sizes
        → Stage p s out good
        → Outcome out good (received batch io_buf s sizes)
    unfolding received
    received_lem [] s out good hp hl h = absurd (omega arith)
    received_lem (n ∷ ns) s out good hp hl h =
        let w : DecryptReader p × Result Bytes = read p batch io_buf s n in
        let rest : Bytes × Option (Result (Unit {0})) = received batch io_buf w.0 ns in
        elim (read-Answer p batch io_buf hb big s n out good hp.0 h) [
          | inl (piece, later, r, stage, split, more) ↦ rw r (
              gather-Outcome piece later out good rest more split (
                received_lem ns w.0 later good hp.1
                  (omega (arith, ap (length {0}) split, length-append {0} piece later)) stage))
          | inr (inl (o, e, r, _)) ↦
              let ends : gather w.1 rest ≡ ([], some (ok tt)) = unfold gather in rw r refl in
              rw ends (sym o, inl (e, refl))
          | inr (inr (x, o, e, r, _)) ↦
              let ends : gather w.1 rest ≡ ([], some (err x)) = unfold gather in rw r refl in
              rw ends (sym o, inr (x, e, refl))
        ]

    -- Is the input the sealed stream of what its body decrypts to?
    module _ (key iv aad input : Bytes) (hi : length iv ≡ 12) where
      abbrev st : GcmState p
      st = start p key iv aad

      abbrev pub plain_of : Bytes
      plain_of = keystream st.ctr (body_of input)

      abbrev pub good : Bool
      good = verdict p st (hash_of p key aad) [] input

      abbrev tag : Bytes → Bytes
      tag c = tag_of p (hash_of p key aad) st.tag_mask st.aad_len c

      length-tag : (c : Bytes) → length (tag c) ≡ 16
      length-tag c =
          let mask : length st.tag_mask ≡ 16 =
            length-encrypt_block key (iv ++ (0 ∷ 0 ∷ 0 ∷ 1 ∷ []))
              (omega (arith, hi, length-append {0} iv (0 ∷ 0 ∷ 0 ∷ 1 ∷ []))) in
          length-xor_bytes p _ st.tag_mask (length-finalize _ ∙ sym mask) ∙ length-finalize _

      pub sealed-good :
          (plain : Bytes)
          → input ≡ sealed_stream p key iv aad plain
          → (plain_of ≡ plain) × (good ≡ true)
      sealed-good plain e =
          let c = keystream st.ctr plain in
          let t = tag c in
          let size : length input - 16 ≡ length c =
            omega (arith, ap (length {0}) e, length-append {0} c t, length-tag c) in
          let body : body_of input ≡ c =
            ap (λ n. take n input) size
            ∙ ap (take (length c)) e
            ∙ take-append_le (length c) c t (omega arith)
            ∙ take_of_le (length c) c (omega arith) in
          let tail : tail_of input ≡ t =
            ap (λ n. drop n input) size
            ∙ ap (drop (length c)) e
            ∙ drop-append_ge (length c) c t (omega arith)
            ∙ ap (λ n. drop n t) (zero_of (length c)) in
          let big_enough : leb 16 (length input) ≡ true =
            ground (arith, ap (length {0}) e, length-append {0} c t, length-tag c) in
          let same : differs t t ≡ false = (differs_iff t t refl).1 refl in
          (
            ap (keystream st.ctr) body ∙ keystream-keystream st.ctr plain,
            rw (big_enough, body, tail, same) refl,
          )
        where
          zero_of : (n : ℕ) → n - n ≡ 0
          zero_of n = omega arith

      pub good-sealed : good ≡ true → input ≡ sealed_stream p key iv aad plain_of
      good-sealed e =
          let c = body_of input in
          let long : leb 16 (length input) ≡ true = ground (arith, e) in
          let same : differs (tag c) (tail_of input) ≡ false = ground (arith, e) in
          let size : length (tag c) ≡ length (tail_of input) = omega (
            arith,
            length-tag c,
            leb→le 16 (length input) long,
            length-drop {0} (length input - 16) input,
          ) in
          let right : tag c ≡ tail_of input = (differs_iff (tag c) (tail_of input) size).0 same in
          sym (take-append-drop (length input - 16) input)
          ∙ ap (λ t. c ++ t) (sym right)
          ∙ ap (λ d. d ++ tag d) (sym (keystream-keystream st.ctr c))

    -- A fresh reader, at its first read.
    pub fresh-Stage :
        (source : List Event) (key iv aad : Bytes) (hi : length iv ≡ 12)
        → IsClean source
        → length key ≡ 32
        → (s : DecryptReader p) × (open_with_aad p source key iv aad ≡ ok s)
          × Stage p s (plain_of key iv aad (yields source) hi) (good key iv aad (yields source) hi)
    unfolding open_with_aad
    fresh-Stage source key iv aad hi clean hk =
        let st1 = start p key iv aad in
        let s : DecryptReader p = record {
          source = source;
          state = some st1;
          held = [];
          ready = [];
          ready_pos = 0;
          eof = false;
          done = false;
          failed = false;
        } in
        let v : IsReceiving p s st1 (hash_of p key aad) [] = record {
          has_state = refl;
          seen = record {
            blocks = [];
            cut = refl;
            whole = omega arith;
            short = omega arith;
            hashed = sym (update-nil (hash_of p key aad));
            counted = refl;
          };
          mask_sized =
              length-encrypt_block key (iv ++ (0 ∷ 0 ∷ 0 ∷ 1 ∷ []))
                (omega (arith, hi, length-append {0} iv (0 ∷ 0 ∷ 0 ∷ 1 ∷ [])));
          clean = clean;
          ended = λ e. cc;
          not_done = refl;
          not_failed = refl;
        } in
        (
          s,
          rw (new_with_aad_ok p key iv aad hk hi) refl,
          inl (st1, hash_of p key aad, [], v, refl, refl),
        )

    -- With a key of 32 bytes and a nonce of 12, a download starts on any source that does not fail, however
    -- it is cut; and whatever the sizes of the reads, none of them zero, once they are more than the source
    -- has bytes, they bring a plaintext and then the end exactly if the source yields the AES-GCM ciphertext
    -- and tag of this plaintext.
    pub stream_download_lem :
        (source : List Event) (key iv aad : Bytes) (sizes : List ℕ)
        → IsClean source
        → length key ≡ 32
        → length iv ≡ 12
        → AllPositive sizes
        → length (yields source) < length sizes
        → (s : DecryptReader p) × (open_with_aad p source key iv aad ≡ ok s)
          × ((plain : Bytes)
              → (received batch io_buf s sizes ≡ (plain, some (ok tt)))
                ↔ (yields source ≡ sealed_stream p key iv aad plain))
    stream_download_lem source key iv aad sizes clean hk hi hp hl =
        let input = yields source in
        let (s, opened, fresh) = fresh-Stage source key iv aad hi clean hk in
        let out = plain_of key iv aad input hi in
        let size : length out < length sizes = omega (
          arith,
          hl,
          length-keystream (start p key iv aad).ctr (body_of input),
          length-take {0} (length input - 16) input,
        ) in
        let (got, ends) = received_lem sizes s out (good key iv aad input hi) hp size fresh in
        (
          s,
          opened,
          λ plain. (
            λ e.
                let right : good key iv aad input hi ≡ true = elim ends [
                  | inl (g, _) ↦ g
                  | inr (x, _, f) ↦ cc
                ] in
                good-sealed key iv aad input hi right
                ∙ ap (sealed_stream p key iv aad) (sym got ∙ ap (λ w. w.0) e),
            λ e.
                let (same, right) = sealed-good key iv aad input hi plain e in
                elim ends [ inl (_, f) ↦ pair_eq _ (got ∙ same) f | inr (x, g, _) ↦ cc ],
          ),
        )
