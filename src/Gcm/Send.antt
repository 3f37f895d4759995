-- ===== src/Gcm/Send.antt =====
-- What `GcmEncryptReader` sends, whatever the sizes of the reads.
use lethean.Prelude.{
  ℕ, zero, suc, ◌+◌, ◌-◌, ◌≤◌, ◌<◌, min, ◌≡◌, refl, sym, ap, ◌∙◌, inl, inr, none, some, [], ◌∷◌,
  ◌++◌, append_assoc, append-nil, arith, leb, leb→le, Bool-cases, length, take, drop, length-append,
  take-append-drop, length-take, length-drop, take_of_le, Bytes, zeros, length-zeros, ok,
}
use lethean.Source.{Ending, Filled, fill, yields, IsClean, fill_lem}
use lethean.Chunked.Stream.{take-min, drop-min, drop_of_le}
use lethean.Gcm.{Primitives, GcmState, absorb}
use lethean.Gcm.Absorb.{Holds, absorb-Holds, tag_of, kept}
use lethean.Gcm.Encrypt.{StreamReader, encrypt_filled, refill}

zeros-append : (a b : ℕ) → zeros a ++ zeros b ≡ zeros (a + b)
zeros-append zero b = ap zeros (plus0 b)
  where
    plus0 : (b : ℕ) → b ≡ 0 + b
    plus0 b = omega arith
zeros-append (suc a) b = ap (◌∷◌ 0) (zeros-append a b) ∙ ap zeros (step a b)
  where
    step : (a b : ℕ) → suc (a + b) ≡ suc a + b
    step a b = omega arith

-- A buffer of `want` bytes takes the first bytes of a source that is filled up with zeros, and leaves
-- the others.
filled_up :
    (bytes : Bytes) (want left : ℕ)
    → want ≤ left
    → length bytes ≤ left
    → (take want bytes ++ zeros (want - length (take want bytes)))
        ++ (drop want bytes ++ zeros (left - want - length (drop want bytes)))
      ≡ bytes ++ zeros (left - length bytes)
filled_up bytes want left h l = elim (Bool-cases (leb want (length bytes))) [
  | inl more ↦
      let none_added : want - length (take want bytes) ≡ 0 =
        omega (arith, length-take {0} want bytes, leb→le want (length bytes) more) in
      let added : left - want - length (drop want bytes) ≡ left - length bytes =
        omega (arith, length-drop {0} want bytes, leb→le want (length bytes) more) in
      rw (none_added, added, append-nil (take want bytes))
        (sym (append_assoc (take want bytes) (drop want bytes) (zeros (left - length bytes)))
          ∙ ap (λ t. t ++ zeros (left - length bytes)) (take-append-drop want bytes))
  | inr fewer ↦
      let small : length bytes ≤ want = ground arith in
      let added : (want - length bytes) + (left - want - 0) ≡ left - length bytes = omega arith in
      rw (take_of_le want bytes small, drop_of_le want bytes small)
        (append_assoc bytes (zeros (want - length bytes)) (zeros (left - want - 0))
          ∙ ap (λ t. bytes ++ t)
              (zeros-append (want - length bytes) (left - want - 0) ∙ ap zeros added))
]

module _ (p : Primitives) where
  open p use {Ghash, keystream, advance, keystream-append, length-keystream}

  -- The plaintext that is still to encrypt: the rest of the source, and zeros up to the padded length.
  abbrev pub rest_of : StreamReader p → Bytes
  rest_of s = yields s.source ++ zeros (s.padded_len - s.consumed - length (yields s.source))

  abbrev pub rest_sealed : StreamReader p → GcmState p → Bytes
  rest_sealed s st = keystream st.ctr (rest_of s)

  -- A reader before its tag is computed: `before` is the ciphertext that was authenticated so far.
  pub record IsSending (s : StreamReader p) (st : GcmState p) (g : Ghash) (before : Bytes)
      : Type 0 where
    pub has_state : s.state ≡ some st
    pub no_tag : s.tag ≡ none
    pub at_start : s.tag_pos ≡ 0
    pub held : Holds p g before st
    pub mask_sized : length st.tag_mask ≡ 16
    pub clean : IsClean s.source
    pub supply : length (yields s.source) ≡ s.plain_len - s.consumed
    pub padded : s.plain_len ≤ s.padded_len
    pub within : s.consumed ≤ s.padded_len
    pub out_pos_le : s.out_pos ≤ length s.out

  abbrev pub to_send : StreamReader p → GcmState p → Ghash → Bytes → Bytes
  to_send s st g before =
      drop s.out_pos s.out
      ++ (rest_sealed s st ++ tag_of p g st.tag_mask st.aad_len (before ++ rest_sealed s st))

  module _ (io_buf : ℕ) (s : StreamReader p) (st : GcmState p) (g : Ghash) (before : Bytes)
      (hb : 0 < io_buf) (v : IsSending s st g before) (h : s.consumed < s.padded_len)
      (drained : s.out_pos ≡ length s.out) where
    abbrev pub want : ℕ
    want = min (s.padded_len - s.consumed) io_buf

    abbrev filled : Filled
    filled = fill s.source (min (s.plain_len - s.consumed) want)

    -- The bytes that this refill encrypts, and their ciphertext.
    abbrev pub plain : Bytes
    plain = take want (yields s.source) ++ zeros (want - length (take want (yields s.source)))

    abbrev pub sealed : Bytes
    sealed = keystream st.ctr plain

    abbrev pub st' : GcmState p
    st' = absorb p (record st { ctr = advance st.ctr (length plain) }) sealed

    abbrev pub refilled : StreamReader p
    refilled = record s {
      source = filled.rest;
      out = sealed;
      out_pos = 0;
      state = some st';
      consumed = s.consumed + want;
    }

    pub length-plain : length plain ≡ want
    length-plain = omega (
      arith,
      length-append {0} (take want (yields s.source))
          (zeros (want - length (take want (yields s.source)))),
      length-take {0} want (yields s.source),
      length-zeros (want - length (take want (yields s.source))),
    )

    got : filled.got ≡ take want (yields s.source)
    got =
        (fill_lem s.source (min (s.plain_len - s.consumed) want) v.clean).0
        ∙ take-min (min (s.plain_len - s.consumed) want) want (yields s.source)
            (ground (arith, v.supply))

    left : yields filled.rest ≡ drop want (yields s.source)
    left =
        (fill_lem s.source (min (s.plain_len - s.consumed) want) v.clean).1
        ∙ drop-min (min (s.plain_len - s.consumed) want) want (yields s.source)
            (ground (arith, v.supply))

    ending : filled.ending ≡ Ending.full
    ending =
        (fill_lem s.source (min (s.plain_len - s.consumed) want) v.clean).2
        ∙ ground (arith, v.supply)

    pub refill_ok : refill p io_buf s ≡ (refilled, ok tt)
    unfolding refill encrypt_filled
    refill_ok = rw (v.has_state, ending, got) refl

    -- The plaintext of this refill, and what is still to encrypt after it.
    rest_split : plain ++ rest_of refilled ≡ rest_of s
    rest_split =
        let later : s.padded_len - (s.consumed + want) - length (drop want (yields s.source))
            ≡ s.padded_len - s.consumed - want - length (drop want (yields s.source)) =
          omega arith in
        ap (λ t. plain ++ (t ++ zeros (s.padded_len - (s.consumed + want) - length t))) left
        ∙ ap (λ k. plain ++ (drop want (yields s.source) ++ zeros k)) later
        ∙ filled_up (yields s.source) want (s.padded_len - s.consumed) (omega arith)
            (omega (arith, v.supply, v.padded))

    pub refilled-IsSending : IsSending refilled st' g (before ++ sealed)
    refilled-IsSending = record {
      has_state = refl;
      no_tag = v.no_tag;
      at_start = v.at_start;
      held =
          absorb-Holds p g before sealed (record st { ctr = advance st.ctr (length plain) })
            (record {
              blocks = v.held.blocks;
              cut = v.held.cut;
              whole = v.held.whole;
              short = v.held.short;
              hashed = v.held.hashed;
              counted = v.held.counted;
            });
      mask_sized =
          ap length (kept p (record st { ctr = advance st.ctr (length plain) }) sealed).0
          ∙ v.mask_sized;
      clean = (fill_lem s.source (min (s.plain_len - s.consumed) want) v.clean).3;
      supply = rw left (omega (arith, length-drop {0} want (yields s.source), v.supply));
      padded = v.padded;
      within = omega arith;
      out_pos_le = omega arith;
    }

    pub to_send-refilled : to_send refilled st' g (before ++ sealed) ≡ to_send s st g before
    to_send-refilled =
        let (mask, aad, ctr) = kept p (record st { ctr = advance st.ctr (length plain) }) sealed in
        let k' : Bytes = rest_sealed refilled st' in
        let whole : rest_sealed s st ≡ sealed ++ k' =
          ap (keystream st.ctr) (sym rest_split)
          ∙ keystream-append st.ctr plain (rest_of refilled)
          ∙ ap (λ c. sealed ++ keystream c (rest_of refilled)) (sym ctr) in
        let gone : drop s.out_pos s.out ≡ [] = drop_of_le s.out_pos s.out (omega arith) in
        ap (λ m. sealed ++ (k' ++ tag_of p g m st'.aad_len ((before ++ sealed) ++ k'))) mask
        ∙ ap (λ a. sealed ++ (k' ++ tag_of p g st.tag_mask a ((before ++ sealed) ++ k'))) aad
        ∙ ap (λ t. sealed ++ (k' ++ tag_of p g st.tag_mask st.aad_len t))
            (append_assoc before sealed k')
        ∙ sym
            (append_assoc sealed k' (tag_of p g st.tag_mask st.aad_len (before ++ (sealed ++ k'))))
        ∙ ap (λ k. k ++ tag_of p g st.tag_mask st.aad_len (before ++ k)) (sym whole)
        ∙ ap
            (λ t.
              t
              ++ (rest_sealed s st
                  ++ tag_of p g st.tag_mask st.aad_len (before ++ rest_sealed s st)))
            (sym gone)
