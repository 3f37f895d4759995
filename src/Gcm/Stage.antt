-- ===== src/Gcm/Stage.antt =====
-- One call of `fill` of `GcmDecryptReader` (`lethean_fuse/src/crypto/gcm_stream.rs`): it releases more
-- plaintext, or reaches the verdict on the tag.
use lethean.Prelude.{
  ℕ, ◌+◌, ◌-◌, ◌≤◌, ◌<◌, ◌≡◌, refl, sym, ap, ◌∙◌, ◌⊎◌, inl, inr, Bool, true, false, ◌&&◌, not, some,
  [], ◌++◌, append_assoc, append-nil, arith, ltb, leb, ◌==◌, ltb→lt, ==_iff, Bool-cases, length,
  take, drop, length-append, take-append-drop, length-take, length-drop, take-append_ge,
  drop-append_ge, Bytes, Error, Result, ok, err,
}
use mathlib.Core.Path.{subst}
use lethean.Source.{yields, IsClean}
use lethean.Gcm.{Primitives, GcmState, finish}
use lethean.Gcm.Absorb.{Holds, finish-Holds, tag_of}
use lethean.Gcm.Reads.{nil_of_length}
use lethean.Gcm.Decrypt.{DecryptReader, differs, decrypt_parts, verify, release_held}
use lethean.Gcm.Receive.{decrypt_parts_lem}

-- The ciphertext and the tag of an input: all but the last sixteen bytes, and these.
abbrev pub body_of : Bytes → Bytes
body_of input = take (length input - 16) input

abbrev pub tail_of : Bytes → Bytes
tail_of input = drop (length input - 16) input

body_tail-append :
    (front input : Bytes)
    → 16 ≤ length input
    → (body_of (front ++ input) ≡ front ++ body_of input)
      × (tail_of (front ++ input) ≡ tail_of input)
body_tail-append front input h =
    let size : length (front ++ input) - 16 ≡ length front + (length input - 16) =
      omega (arith, length-append front input) in
    let back : length front + (length input - 16) - length front ≡ length input - 16 =
      omega arith in
    (
      ap (λ k. take k (front ++ input)) size
          ∙ take-append_ge (length front + (length input - 16)) front input (omega arith)
          ∙ ap (λ k. front ++ take k input) back,
      ap (λ k. drop k (front ++ input)) size
          ∙ drop-append_ge (length front + (length input - 16)) front input (omega arith)
          ∙ ap (λ k. drop k input) back,
    )

module _ (p : Primitives) where
  open p use {Ghash, keystream, advance, keystream-append, length-keystream, length-finalize}

  -- Does the input end in the tag of what stands before it, after the bytes `before`?
  abbrev pub verdict : GcmState p → Ghash → Bytes → Bytes → Bool
  verdict st g before input =
      leb 16 (length input)
      && not (differs (tag_of p g st.tag_mask st.aad_len (before ++ body_of input)) (tail_of input))

  abbrev pub input_of : DecryptReader p → Bytes
  input_of s = s.held ++ yields s.source

  -- A reader before its verdict; `before` is the ciphertext that it has released.
  pub record IsReceiving (s : DecryptReader p) (st : GcmState p) (g : Ghash) (before : Bytes)
      : Type 0 where
    pub has_state : s.state ≡ some st
    pub seen : Holds p g before st
    pub mask_sized : length st.tag_mask ≡ 16
    pub clean : IsClean s.source
    pub ended : s.eof ≡ true → yields s.source ≡ []
    pub not_done : s.done ≡ false
    pub not_failed : s.failed ≡ false

  -- A reader that has still to release `out`, and whose verdict will be `good`.
  abbrev pub Going : DecryptReader p → Bytes → Bool → Type 0
  Going s out good =
      (st : GcmState p) × (g : Ghash) × (before : Bytes) × IsReceiving s st g before
      × (out ≡ drop s.ready_pos s.ready ++ keystream st.ctr (body_of (input_of s)))
      × (good ≡ verdict st g before (input_of s))

  abbrev pub Drained : DecryptReader p → Type 0
  Drained s = length s.ready ≤ s.ready_pos

  abbrev pub Passed : DecryptReader p → Type 0
  Passed s = (s.done ≡ true) × (s.failed ≡ false) × Drained s

  abbrev pub Refused : DecryptReader p → Type 0
  Refused s = (s.failed ≡ true) × Drained s

  -- What a call of `fill` comes to.
  abbrev pub FillEnds : Bytes → Bool → DecryptReader p × Result (Unit {0}) → Type 0
  FillEnds out good w =
      ((w.1 ≡ ok tt) × Going w.0 out good × (w.0.ready_pos < length w.0.ready) × (w.0.done ≡ false))
      ⊎ ((w.1 ≡ ok tt) × Passed w.0 × (out ≡ []) × (good ≡ true))
      ⊎ ((x : Error) × (w.1 ≡ err x) × Refused w.0 × (out ≡ []) × (good ≡ false))

  abbrev pub pending_out : DecryptReader p → GcmState p → Bytes
  pending_out s st = keystream st.ctr (body_of (input_of s))

  module _ (io_buf : ℕ) (hb : 0 < io_buf) (s : DecryptReader p) (st : GcmState p) (g : Ghash)
      (before : Bytes) (v : IsReceiving s st g before) where
    release-Going :
        16 < length s.held
        → FillEnds (pending_out s st) (verdict st g before (input_of s)) (release_held p io_buf s)
    unfolding release_held
    release-Going h =
        let n = length s.held - 16 in
        let front = take n s.held in
        let w = decrypt_parts p io_buf n st front in
        let parts =
          decrypt_parts_lem p io_buf n g before front st hb
            (omega (arith, length-take {0} n s.held)) v.seen in
        let later = drop n s.held ++ yields s.source in
        let long : ltb 16 (length s.held) ≡ true = ground arith in
        let whole : input_of s ≡ front ++ later =
          ap (λ t. t ++ yields s.source) (sym (take-append-drop n s.held))
          ∙ append_assoc front (drop n s.held) (yields s.source) in
        let (body, tail) = body_tail-append front later (
          omega (
            arith,
            length-append {0} (drop n s.held) (yields s.source),
            length-drop {0} n s.held,
          )) in
        let s' : DecryptReader p = record s {
          state = some w.0;
          held = drop n s.held;
          ready = w.1;
          ready_pos = 0;
        } in
        let released : release_held p io_buf s ≡ (s', ok tt) = rw (long, v.has_state) refl in
        let big : leb 16 (length (front ++ later)) ≡ true =
          ground (arith, ap length whole, length-append s.held (yields s.source)) in
        let big' : leb 16 (length later) ≡ true =
          ground (arith, length-append (drop n s.held) (yields s.source), length-drop n s.held) in
        let more : 0 < length w.1 =
          omega (
            arith,
            ap length parts.plain,
            length-keystream st.ctr front,
            length-take {0} n s.held,
          ) in
        subst (FillEnds (pending_out s st) (verdict st g before (input_of s))) (sym released) (
          inl (
            refl,
            (
              w.0,
              g,
              before ++ front,
              record {
                has_state = refl;
                seen = parts.held;
                mask_sized = ap length parts.mask ∙ v.mask_sized;
                clean = v.clean;
                ended = v.ended;
                not_done = v.not_done;
                not_failed = v.not_failed;
              },
              ap (λ t. keystream st.ctr (body_of t)) whole
                  ∙ ap (keystream st.ctr) body
                  ∙ keystream-append st.ctr front (body_of later)
                  ∙ ap (λ c. keystream st.ctr front ++ keystream c (body_of later)) (sym parts.ctr)
                  ∙ ap (λ t. t ++ keystream w.0.ctr (body_of later)) (sym parts.plain),
              rw
                  (
                    whole,
                    big,
                    big',
                    body,
                    tail,
                    parts.mask,
                    parts.aad,
                    append_assoc before front (body_of later),
                  )
                  refl,
            ),
            more,
            v.not_done,
          ))

    module _ (none_left : yields s.source ≡ []) (small : length s.held ≤ 16) where
      all_held : input_of s ≡ s.held
      all_held = ap (λ t. s.held ++ t) none_left ∙ append-nil s.held

      no_body : body_of (input_of s) ≡ []
      no_body = ap body_of all_held ∙ ap (λ k. take k s.held) (zero_of (length s.held) small)
        where
          zero_of : (n : ℕ) → n ≤ 16 → n - 16 ≡ 0
          zero_of n h = omega arith

      no_out : pending_out s st ≡ []
      no_out = ap (keystream st.ctr) no_body ∙ nil_of_length _ (length-keystream st.ctr [])

      verdict_short : (length s.held == 16) ≡ false → verdict st g before (input_of s) ≡ false
      verdict_short h =
          let short : leb 16 (length s.held) ≡ false = ground arith in rw (all_held, short) refl

      verdict_full :
          length s.held ≡ 16 → verdict st g before (input_of s) ≡ not (differs (finish p st) s.held)
      verdict_full h =
          let full : leb 16 (length s.held) ≡ true = ground arith in
          let none_before : length s.held - 16 ≡ 0 = omega arith in
          rw (all_held, full, none_before, append-nil before, finish-Holds p g before st v.seen)
            refl

      verify-Ends :
          FillEnds
            (pending_out s st)
            (verdict st g before (input_of s))
            (verify p (record s { ready = []; ready_pos = 0 }))
      unfolding verify
      verify-Ends = elim (Bool-cases (length s.held == 16)) [
        | inr short ↦
            rw short
              (inr (inr (Error.no_tag, refl, (refl, omega arith), no_out, verdict_short short)))
        | inl full ↦
            let same = verdict_full ((==_iff (length s.held) 16).0 full) in
            elim (Bool-cases (differs (finish p st) s.held)) [
              | inl other ↦
                  rw (full, v.has_state, other)
                    (inr (
                      inr (
                        Error.auth_failed,
                        refl,
                        (refl, omega arith),
                        no_out,
                        same ∙ ap not other,
                      )))
              | inr equal ↦
                  rw (full, v.has_state, equal)
                    (inr
                      (inl (refl, (refl, v.not_failed, omega arith), no_out, same ∙ ap not equal)))
            ]
      ]

    -- The second half of `fill`, where the input is over or more than a tag is held.
    pub release-Ends :
        (s.eof ≡ true) ⊎ (16 < length s.held)
        → FillEnds (pending_out s st) (verdict st g before (input_of s)) (release_held p io_buf s)
    release-Ends h = elim (Bool-cases (ltb 16 (length s.held))) [
      | inl long ↦ release-Going (ltb→lt 16 (length s.held) long)
      | inr short ↦ elim h [
        | inr long ↦ absurd (ground arith)
        | inl over ↦
            let verified : release_held p io_buf s
                ≡ verify p (record s { ready = []; ready_pos = 0 }) =
              unfold release_held in rw (short, over) refl in
            subst (FillEnds (pending_out s st) (verdict st g before (input_of s))) (sym verified)
              (verify-Ends (v.ended over) (ground arith))
      ]
    ]
