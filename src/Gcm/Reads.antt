-- ===== src/Gcm/Reads.antt =====
-- The reads of `GcmEncryptReader` of `lethean_fuse/src/crypto/gcm_stream.rs`, whatever their sizes.
use lethean.Prelude.{
  ℕ, suc, ◌+◌, ◌-◌, ◌≤◌, ◌<◌, min, ◌≡◌, refl, sym, ap, ◌∙◌, ◌⊎◌, inl, inr, true, false, none, some,
  [], ◌∷◌, ◌++◌, append_assoc, append-nil, arith, ltb, leb, ◌==◌, leb→le, Bool-cases, length, take,
  drop, length-append, take-append-drop, length-take, length-drop, drop-drop, Bytes, zeros,
  length-zeros, Result, ok,
}
use mathlib.Core.Path.{subst}
use lethean.Source.{yields}
use lethean.Chunked.Stream.{drop_of_le}
use lethean.Gcm.{Primitives, GcmState, finish, xor_bytes}
use lethean.Gcm.Absorb.{finish-Holds, tag_of}
use lethean.Gcm.Encrypt.{StreamReader, refill, give_out, give_tag, read_tag, serve, read}
use lethean.Gcm.Send.{
  IsSending, rest_of, rest_sealed, to_send, refilled, st', sealed, plain, length-plain, refill_ok,
  refilled-IsSending, to_send-refilled,
}

pub length-xor_bytes :
    (p : Primitives) (xs ys : Bytes)
    → length xs ≡ length ys
    → length (xor_bytes p xs ys) ≡ length xs
unfolding xor_bytes
length-xor_bytes p [] ys h = refl
length-xor_bytes p (x ∷ xs) [] h = absurd (omega arith)
length-xor_bytes p (x ∷ xs) (y ∷ ys) h = ap suc (length-xor_bytes p xs ys (omega arith))

pub nil_of_length : (xs : Bytes) → length xs ≡ 0 → xs ≡ []
nil_of_length [] h = refl
nil_of_length (x ∷ xs) h = absurd (omega arith)

module _ (p : Primitives) where
  open p use {Ghash, keystream, length-keystream, length-finalize}

  -- A reader whose tag is computed.
  pub record IsTagged (s : StreamReader p) (t : Bytes) : Type 0 where
    pub has_tag : s.tag ≡ some t
    pub sized : length t ≡ 16
    pub tag_pos_le : s.tag_pos ≤ 16
    pub over : s.padded_len ≤ s.consumed
    pub drained : length s.out ≤ s.out_pos

  -- The reader sends `all` from here on.
  abbrev pub Sends : StreamReader p → Bytes → Type 0
  Sends s all =
      ((st : GcmState p) × (g : Ghash) × (before : Bytes) × IsSending p s st g before
        × (all ≡ to_send p s st g before))
      ⊎ ((t : Bytes) × IsTagged s t × (all ≡ drop s.tag_pos t))

  -- An answer to a read of `n` bytes: a front part of what the reader sends, which is not empty while
  -- anything is left.
  abbrev pub Serves : ℕ → Bytes → StreamReader p × Result Bytes → Type 0
  Serves n all w =
      (out : Bytes) × (later : Bytes) × (w.1 ≡ ok out)
      × Sends w.0 later
      × (out ++ later ≡ all)
      × (0 < n → 0 < length all → 0 < length out)

  give_out-Serves :
      (s : StreamReader p) (n : ℕ) (st : GcmState p) (g : Ghash) (before : Bytes)
      → IsSending p s st g before
      → s.out_pos < length s.out
      → Serves n (to_send p s st g before) (give_out p s n)
  unfolding give_out
  give_out-Serves s n st g before v h =
      let k = min (length s.out - s.out_pos) n in
      let tail = drop s.out_pos s.out in
      let end =
        rest_sealed p s st ++ tag_of p g st.tag_mask st.aad_len (before ++ rest_sealed p s st) in
      (
        take k tail,
        drop (s.out_pos + k) s.out ++ end,
        refl,
        inl (
          st,
          g,
          before,
          record {
            has_state = v.has_state;
            no_tag = v.no_tag;
            at_start = v.at_start;
            held = v.held;
            mask_sized = v.mask_sized;
            clean = v.clean;
            supply = v.supply;
            padded = v.padded;
            within = v.within;
            out_pos_le = omega arith;
          },
          refl,
        ),
        sym (append_assoc (take k tail) (drop (s.out_pos + k) s.out) end)
            ∙ ap (λ t. t ++ end)
                (ap (λ t. take k tail ++ t) (sym (drop-drop s.out_pos k s.out))
                  ∙ take-append-drop k tail),
        λ hn _. omega (arith, length-take {0} k tail, length-drop {0} s.out_pos s.out),
      )

  give_tag-Serves :
      (s : StreamReader p) (n : ℕ) (t : Bytes)
      → IsTagged s t
      → Serves n (drop s.tag_pos t) (give_tag p s t n)
  unfolding give_tag
  give_tag-Serves s n t v =
      let k = min (16 - s.tag_pos) n in
      elim (Bool-cases (leb 16 s.tag_pos)) [
        | inl over ↦ rw over (
          [],
          drop s.tag_pos t,
          refl,
          inr (t, v, refl),
          refl,
          λ hn hl.
              absurd
                (omega (arith, leb→le 16 s.tag_pos over, v.sized, length-drop {0} s.tag_pos t)),
        )
        | inr more ↦ rw more (
          take k (drop s.tag_pos t),
          drop (s.tag_pos + k) t,
          refl,
          inr (
            t,
            record {
              has_tag = v.has_tag;
              sized = v.sized;
              tag_pos_le = omega (arith, v.tag_pos_le);
              over = v.over;
              drained = v.drained;
            },
            refl,
          ),
          ap (λ r. take k (drop s.tag_pos t) ++ r) (sym (drop-drop s.tag_pos k t))
              ∙ take-append-drop k (drop s.tag_pos t),
          λ hn hl.
              omega
                (arith, v.sized, length-take {0} k (drop s.tag_pos t), length-drop {0} s.tag_pos t),
        )
      ]

  length-tag :
      (s : StreamReader p) (st : GcmState p) (g : Ghash) (before : Bytes)
      → IsSending p s st g before
      → length (finish p st) ≡ 16
  unfolding finish
  length-tag s st g before v =
      length-xor_bytes p _ st.tag_mask (length-finalize _ ∙ sym v.mask_sized) ∙ length-finalize _

  -- With nothing left to encrypt, what is left to send is the tag.
  all_is_tag :
      (s : StreamReader p) (st : GcmState p) (g : Ghash) (before : Bytes)
      → IsSending p s st g before
      → s.padded_len ≤ s.consumed
      → length s.out ≤ s.out_pos
      → to_send p s st g before ≡ finish p st
  all_is_tag s st g before v over drained =
      let k = rest_sealed p s st in
      let tag : Bytes → Bytes = λ t. tag_of p g st.tag_mask st.aad_len t in
      let no_rest : length (rest_of p s) ≡ 0 = omega (
        arith,
        v.supply,
        v.padded,
        length-append {0} (yields s.source)
            (zeros (s.padded_len - s.consumed - length (yields s.source))),
        length-zeros (s.padded_len - s.consumed - length (yields s.source)),
      ) in
      let none_left : k ≡ [] = nil_of_length k (length-keystream st.ctr (rest_of p s) ∙ no_rest) in
      ap (λ t. t ++ (k ++ tag (before ++ k))) (drop_of_le s.out_pos s.out drained)
      ∙ ap (λ t. t ++ tag (before ++ t)) none_left
      ∙ ap tag (append-nil before)
      ∙ sym (finish-Holds p g before st v.held)

  read_tag-Serves :
      (s : StreamReader p) (n : ℕ) (st : GcmState p) (g : Ghash) (before : Bytes)
      → IsSending p s st g before
      → s.padded_len ≤ s.consumed
      → length s.out ≤ s.out_pos
      → Serves n (to_send p s st g before) (read_tag p s n)
  unfolding read_tag
  read_tag-Serves s n st g before v over drained =
      let t = finish p st in
      let s' : StreamReader p = record s { tag = some t; state = none } in
      let same : drop s.tag_pos t ≡ to_send p s st g before =
        ap (λ i. drop i t) v.at_start ∙ sym (all_is_tag s st g before v over drained) in
      rw (v.no_tag, v.has_state)
        (subst (λ a. Serves n a (give_tag p s' t n)) same
          (give_tag-Serves s' n t (record {
            has_tag = refl;
            sized = length-tag s st g before v;
            tag_pos_le = omega (arith, v.at_start);
            over = over;
            drained = drained;
          })))

  module _ (io_buf : ℕ) (hb : 0 < io_buf) where
    serve_held :
        (fuel : ℕ) (s : StreamReader p) (n : ℕ)
        → ltb s.out_pos (length s.out) ≡ true
        → serve p io_buf (suc fuel) s n ≡ give_out p s n
    unfolding serve
    serve_held fuel s n held = rw held refl

    serve_again :
        (fuel : ℕ) (s s' : StreamReader p) (n : ℕ)
        → ltb s.out_pos (length s.out) ≡ false
        → ltb s.consumed s.padded_len ≡ true
        → refill p io_buf s ≡ (s', ok tt)
        → serve p io_buf (suc fuel) s n ≡ serve p io_buf fuel s' n
    unfolding serve
    serve_again fuel s s' n drained more filled =
        let result : (refill p io_buf s).1 ≡ ok tt = ap (λ r. r.1) filled in
        rw (drained, more, result) (ap (λ r. serve p io_buf fuel r.0 n) filled)

    serve_tag :
        (fuel : ℕ) (s : StreamReader p) (n : ℕ)
        → ltb s.out_pos (length s.out) ≡ false
        → ltb s.consumed s.padded_len ≡ false
        → serve p io_buf (suc fuel) s n ≡ read_tag p s n
    unfolding serve
    serve_tag fuel s n drained over = rw (drained, over) refl

    sending-Serves :
        (s : StreamReader p) (n : ℕ) (st : GcmState p) (g : Ghash) (before : Bytes)
        → IsSending p s st g before
        → Serves n (to_send p s st g before) (serve p io_buf 2 s n)
    sending-Serves s n st g before v = elim (Bool-cases (ltb s.out_pos (length s.out))) [
      | inl held ↦
          subst (Serves n (to_send p s st g before)) (sym (serve_held 1 s n held))
            (give_out-Serves s n st g before v (ground arith))
      | inr drained ↦ elim (Bool-cases (ltb s.consumed s.padded_len)) [
        | inl more ↦
            let h : s.consumed < s.padded_len = ground arith in
            let d : s.out_pos ≡ length s.out = ground (arith, v.out_pos_le) in
            let next : StreamReader p = refilled p io_buf s st g before hb v h d in
            let size : 0 < length next.out = omega (
              arith,
              length-keystream st.ctr (plain p io_buf s st g before hb v h d),
              length-plain p io_buf s st g before hb v h d,
            ) in
            let given : serve p io_buf 2 s n ≡ give_out p next n =
              serve_again 1 s next n drained more (refill_ok p io_buf s st g before hb v h d)
              ∙ serve_held 0 next n (ground arith) in
            subst (λ all. Serves n all (serve p io_buf 2 s n))
              (to_send-refilled p io_buf s st g before hb v h d)
              (subst
                (Serves n (
                  to_send p next (st' p io_buf s st g before hb v h d) g
                    (before ++ sealed p io_buf s st g before hb v h d)))
                (sym given)
                (give_out-Serves next n (st' p io_buf s st g before hb v h d) g
                  (before ++ sealed p io_buf s st g before hb v h d)
                  (refilled-IsSending p io_buf s st g before hb v h d) size))
        | inr over ↦
            subst (Serves n (to_send p s st g before)) (sym (serve_tag 1 s n drained over))
              (read_tag-Serves s n st g before v (ground arith) (ground arith))
      ]
    ]

    tagged-Serves :
        (s : StreamReader p) (n : ℕ) (t : Bytes)
        → IsTagged s t
        → Serves n (drop s.tag_pos t) (serve p io_buf 2 s n)
    unfolding read_tag
    tagged-Serves s n t v =
        let given : serve p io_buf 2 s n ≡ give_tag p s t n =
          serve_tag 1 s n (ground (arith, v.drained)) (ground (arith, v.over))
          ∙ rw v.has_tag refl in
        subst (Serves n (drop s.tag_pos t)) (sym given) (give_tag-Serves s n t v)

    pub read-Serves :
        (s : StreamReader p) (n : ℕ) (all : Bytes) → Sends s all → Serves n all (read p io_buf s n)
    unfolding read
    read-Serves s n all h = elim (Bool-cases (n == 0)) [
      | inl nothing ↦ rw nothing ([], all, refl, h, refl, λ hn _. absurd (ground arith))
      | inr some_bytes ↦ rw some_bytes (asked h)
    ]
      where
        asked : Sends s all → Serves n all (serve p io_buf 2 s n)
        asked (inl (st, g, before, v, e)) =
            subst (λ a. Serves n a (serve p io_buf 2 s n)) (sym e)
              (sending-Serves s n st g before v)
        asked (inr (t, v, e)) =
            subst (λ a. Serves n a (serve p io_buf 2 s n)) (sym e) (tagged-Serves s n t v)
