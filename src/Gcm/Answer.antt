-- ===== src/Gcm/Answer.antt =====
-- The reads of `GcmDecryptReader` of `lethean_fuse/src/crypto/gcm_stream.rs`, whatever their sizes.
use lethean.Prelude.{
  ℕ, suc, ◌+◌, ◌-◌, ◌<◌, min, ◌≡◌, refl, sym, ap, ◌∙◌, ◌⊎◌, inl, inr, Bool, true, false, [], ◌++◌,
  append_assoc, arith, leb, if◌then◌else◌, leb→le, Bool-cases, length, take, drop, length-append,
  take-append-drop, length-take, length-drop, drop-drop, Bytes, Error, Result, ok, err,
}
use mathlib.Core.Path.{subst}
use lethean.Source.{Ending, Filled, fill, yields, fill_lem}
use lethean.Chunked.Stream.{drop_of_le}
use lethean.Gcm.{Primitives, GcmState}
use lethean.Gcm.Decrypt.{DecryptReader, release_held, fill_ready, give_ready, deliver}
use lethean.Gcm.Stage.{
  IsReceiving, Going, Drained, Passed, Refused, FillEnds, pending_out, verdict, input_of, body_of,
  release-Ends,
}

module _ (p : Primitives) where
  open p use {Ghash, keystream}

  -- A reader that has still to release `out`, and whose verdict will be, or was, `good`.
  abbrev pub Stage : DecryptReader p → Bytes → Bool → Type 0
  Stage s out good =
      Going p s out good
      ⊎ (Passed p s × (out ≡ []) × (good ≡ true))
      ⊎ (Refused p s × (out ≡ []) × (good ≡ false))

  -- The answer to a read: a front part of the plaintext, then the end if the tag was right and an
  -- error if it was not.
  abbrev pub Answer : Bytes → Bool → DecryptReader p × Result Bytes → Type 0
  Answer out good w =
      ((piece : Bytes) × (later : Bytes) × (w.1 ≡ ok piece)
        × Stage w.0 later good
        × (piece ++ later ≡ out)
        × (0 < length piece))
      ⊎ ((out ≡ []) × (good ≡ true) × (w.1 ≡ ok []) × Stage w.0 [] true)
      ⊎ ((x : Error) × (out ≡ []) × (good ≡ false) × (w.1 ≡ err x) × Stage w.0 [] false)

  module _ (batch io_buf : ℕ) (hb : 0 < io_buf) (big : 16 < batch) where
    module _ (s : DecryptReader p) (st : GcmState p) (g : Ghash) (before : Bytes)
        (v : IsReceiving p s st g before) where
      abbrev filled : Filled
      filled = fill s.source batch

      abbrev fed : Bool → DecryptReader p
      fed over = record s { source = filled.rest; held = s.held ++ filled.got; eof = over }

      same_input : (over : Bool) → input_of p (fed over) ≡ input_of p s
      same_input over =
          let (got, rest, ends, clean) = fill_lem s.source batch v.clean in
          rw (got, rest)
            (append_assoc s.held (take batch (yields s.source)) (drop batch (yields s.source))
              ∙ ap (λ t. s.held ++ t) (take-append-drop batch (yields s.source)))

      fed-IsReceiving :
          (over : Bool)
          → (over ≡ true → yields filled.rest ≡ [])
          → IsReceiving p (fed over) st g before
      fed-IsReceiving over h = record {
        has_state = v.has_state;
        seen = v.seen;
        mask_sized = v.mask_sized;
        clean = (fill_lem s.source batch v.clean).3;
        ended = h;
        not_done = v.not_done;
        not_failed = v.not_failed;
      }

      fed-Ends :
          (over : Bool)
          → (over ≡ true → yields filled.rest ≡ [])
          → (over ≡ true) ⊎ (16 < length (s.held ++ filled.got))
          → FillEnds p
              (pending_out p s st)
              (verdict p st g before (input_of p s))
              (release_held p io_buf (fed over))
      fed-Ends over h e =
          subst
            (λ t.
              FillEnds p (keystream st.ctr (body_of t)) (verdict p st g before t)
                (release_held p io_buf (fed over)))
            (same_input over)
            (release-Ends p io_buf hb (fed over) st g before (fed-IsReceiving over h) e)

      fill_over : s.eof ≡ true → fill_ready p batch io_buf s ≡ release_held p io_buf s
      unfolding fill_ready
      fill_over over = ground arith

      fill_full :
          s.eof ≡ false
          → filled.ending ≡ Ending.full
          → fill_ready p batch io_buf s ≡ release_held p io_buf (fed s.eof)
      unfolding fill_ready
      fill_full open_end full = ground arith

      fill_last :
          s.eof ≡ false
          → filled.ending ≡ Ending.ended
          → fill_ready p batch io_buf s ≡ release_held p io_buf (fed true)
      unfolding fill_ready
      fill_last open_end last = ground arith

      abbrev pub Ends : DecryptReader p × Result (Unit {0}) → Type 0
      Ends = FillEnds p (pending_out p s st) (verdict p st g before (input_of p s))

      pub fill_ready-Ends : Ends (fill_ready p batch io_buf s)
      fill_ready-Ends =
          let (got, rest, ends, clean) = fill_lem s.source batch v.clean in
          elim (Bool-cases s.eof) [
            | inl over ↦
                subst Ends (sym (fill_over over))
                  (release-Ends p io_buf hb s st g before v (inl over))
            | inr open_end ↦ elim (Bool-cases (leb batch (length (yields s.source)))) [
              | inl enough ↦
                  let full : filled.ending ≡ Ending.full =
                    ends ∙ ap (λ b. if b then Ending.full else Ending.ended) enough in
                  subst Ends (sym (fill_full open_end full)) (
                    fed-Ends s.eof (λ e. cc)
                      (inr (
                        omega (
                          arith,
                          leb→le batch (length (yields s.source)) enough,
                          length-append s.held filled.got,
                          ap length got,
                          length-take batch (yields s.source),
                        ))))
              | inr short ↦
                  let last : filled.ending ≡ Ending.ended =
                    ends ∙ ap (λ b. if b then Ending.full else Ending.ended) short in
                  let dry : yields filled.rest ≡ [] =
                    rest ∙ drop_of_le batch (yields s.source) (ground arith) in
                  subst Ends (sym (fill_last open_end last)) (fed-Ends true (λ _. dry) (inl refl))
            ]
          ]

    pub give_ready-Answer :
        (s : DecryptReader p) (n : ℕ) (out : Bytes) (good : Bool)
        → 0 < n
        → s.ready_pos < length s.ready
        → Going p s out good
        → Answer out good (give_ready p s n)
    unfolding give_ready
    give_ready-Answer s n out good hn h (st, g, before, v, o, e) =
        let k = min (length s.ready - s.ready_pos) n in
        let front = drop s.ready_pos s.ready in
        let later = pending_out p s st in
        inl (
          take k front,
          drop (s.ready_pos + k) s.ready ++ later,
          refl,
          inl (
            st,
            g,
            before,
            record {
              has_state = v.has_state;
              seen = v.seen;
              mask_sized = v.mask_sized;
              clean = v.clean;
              ended = v.ended;
              not_done = v.not_done;
              not_failed = v.not_failed;
            },
            refl,
            e,
          ),
          sym (append_assoc (take k front) (drop (s.ready_pos + k) s.ready) later)
              ∙ ap (λ t. t ++ later)
                  (ap (λ t. take k front ++ t) (sym (drop-drop s.ready_pos k s.ready))
                    ∙ take-append-drop k front)
              ∙ sym o,
          omega (arith, length-take {0} k front, length-drop {0} s.ready_pos s.ready),
        )

    abbrev pub deliver_n : ℕ → DecryptReader p → ℕ → DecryptReader p × Result Bytes
    deliver_n = deliver p batch io_buf

    pub deliver_held :
        (fuel : ℕ) (s : DecryptReader p) (n : ℕ)
        → s.ready_pos < length s.ready
        → deliver_n (suc fuel) s n ≡ give_ready p s n
    unfolding deliver
    deliver_held fuel s n h = ground arith

    pub deliver_failed :
        (fuel : ℕ) (s : DecryptReader p) (n : ℕ)
        → Refused p s
        → deliver_n (suc fuel) s n ≡ (s, err Error.auth_failed)
    unfolding deliver
    deliver_failed fuel s n h = ground arith

    pub deliver_done :
        (fuel : ℕ) (s : DecryptReader p) (n : ℕ)
        → Passed p s
        → deliver_n (suc fuel) s n ≡ (s, ok [])
    unfolding deliver
    deliver_done fuel s n h = ground arith

    module _ (fuel : ℕ) (s : DecryptReader p) (n : ℕ) (drained : Drained p s)
        (not_failed : s.failed ≡ false) (not_done : s.done ≡ false) where
      pub deliver_err :
          (x : Error)
          → (fill_ready p batch io_buf s).1 ≡ err x
          → deliver_n (suc fuel) s n ≡ ((fill_ready p batch io_buf s).0, err x)
      unfolding deliver
      deliver_err x h = ground arith

      pub deliver_end :
          (fill_ready p batch io_buf s).1 ≡ ok tt
          → Passed p (fill_ready p batch io_buf s).0
          → deliver_n (suc fuel) s n ≡ ((fill_ready p batch io_buf s).0, ok [])
      unfolding deliver
      deliver_end h e = ground arith

      pub deliver_again :
          (fill_ready p batch io_buf s).1 ≡ ok tt
          → (fill_ready p batch io_buf s).0.done ≡ false
          → deliver_n (suc fuel) s n ≡ deliver_n fuel (fill_ready p batch io_buf s).0 n
      unfolding deliver
      deliver_again h e = ground arith
