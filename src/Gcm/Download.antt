-- ===== src/Gcm/Download.antt =====
-- One read of `GcmDecryptReader` of `lethean_fuse/src/crypto/gcm_stream.rs`.
use lethean.Prelude.{
  ℕ, ◌<◌, ◌≡◌, refl, sym, ap, ◌∙◌, inl, inr, Bool, false, ◌++◌, arith, ltb, ◌==◌, ltb→lt,
  Bool-cases, length, Bytes, Error, Result,
}
use mathlib.Core.Path.{subst}
use lethean.Chunked.Stream.{drop_of_le}
use lethean.Gcm.{Primitives}
use lethean.Gcm.Decrypt.{DecryptReader, fill_ready, deliver, read}
use lethean.Gcm.Stage.{Drained, FillEnds, pending_out, verdict, input_of}
use lethean.Gcm.Answer.{
  Stage, Answer, fill_ready-Ends, give_ready-Answer, deliver_held, deliver_failed, deliver_done,
  deliver_err, deliver_end, deliver_again,
}

module _ (p : Primitives) where
  open p use {
    Ghash, keystream, length-encrypt_block, update-nil, keystream-keystream, encrypt_block, ctr_new,
  }

  module _ (batch io_buf : ℕ) (hb : 0 < io_buf) (big : 16 < batch) where
    abbrev deliver2 : DecryptReader p → ℕ → DecryptReader p × Result Bytes
    deliver2 s n = deliver p batch io_buf 2 s n

    -- A reader that has released all it was given fills again, and answers.
    Drained-Answer :
        (s : DecryptReader p) (n : ℕ) (out : Bytes) (good : Bool)
        → 0 < n
        → Drained p s
        → s.failed ≡ false
        → s.done ≡ false
        → FillEnds p out good (fill_ready p batch io_buf s)
        → Answer p out good (deliver2 s n)
    Drained-Answer s n out good hn d nf nd (inl (r, going, more, undone)) =
        let s' : DecryptReader p = (fill_ready p batch io_buf s).0 in
        subst (Answer p out good)
          (sym (
            deliver_again p batch io_buf hb big 1 s n d nf nd r undone
            ∙ deliver_held p batch io_buf hb big 0 s' n more))
          (give_ready-Answer p batch io_buf hb big s' n out good hn more going)
    Drained-Answer s n out good hn d nf nd (inr (inl (r, passed, o, e))) =
        subst (Answer p out good) (sym (deliver_end p batch io_buf hb big 1 s n d nf nd r passed))
          (inr (inl (o, e, refl, inr (inl (passed, refl, refl)))))
    Drained-Answer s n out good hn d nf nd (inr (inr (x, r, refused, o, e))) =
        subst (Answer p out good) (sym (deliver_err p batch io_buf hb big 1 s n d nf nd x r))
          (inr (inr (x, o, e, refl, inr (inr (refused, refl, refl)))))

    deliver-Answer :
        (s : DecryptReader p) (n : ℕ) (out : Bytes) (good : Bool)
        → 0 < n
        → Stage p s out good
        → Answer p out good (deliver2 s n)
    deliver-Answer s n out good hn (inr (inl (passed, o, e))) =
        subst (Answer p out good) (sym (deliver_done p batch io_buf hb big 1 s n passed))
          (inr (inl (o, e, refl, inr (inl (passed, refl, refl)))))
    deliver-Answer s n out good hn (inr (inr (refused, o, e))) =
        subst (Answer p out good) (sym (deliver_failed p batch io_buf hb big 1 s n refused))
          (inr (inr (Error.auth_failed, o, e, refl, inr (inr (refused, refl, refl)))))
    deliver-Answer s n out good hn (inl (st, g, before, v, o, e)) =
        elim (Bool-cases (ltb s.ready_pos (length s.ready))) [
          | inl held ↦
              let h = ltb→lt s.ready_pos (length s.ready) held in
              subst (Answer p out good) (sym (deliver_held p batch io_buf hb big 1 s n h))
                (give_ready-Answer p batch io_buf hb big s n out good hn h (st, g, before, v, o, e))
          | inr empty ↦
              let same : FillEnds p (pending_out p s st) (verdict p st g before (input_of p s))
                  (fill_ready p batch io_buf s) =
                fill_ready-Ends p batch io_buf hb big s st g before v in
              let rest : pending_out p s st ≡ out =
                ap (λ t. t ++ pending_out p s st)
                  (sym (drop_of_le s.ready_pos s.ready (ground arith)))
                ∙ sym o in
              Drained-Answer s n out good hn (ground arith) v.not_failed v.not_done (
                subst (λ b. FillEnds p out b (fill_ready p batch io_buf s)) (sym e)
                  (subst
                    (λ t.
                      FillEnds p t (verdict p st g before (input_of p s))
                        (fill_ready p batch io_buf s))
                    rest same))
        ]

    pub read-Answer :
        (s : DecryptReader p) (n : ℕ) (out : Bytes) (good : Bool)
        → 0 < n
        → Stage p s out good
        → Answer p out good (read p batch io_buf s n)
    unfolding read
    read-Answer s n out good hn h =
        let asked : (n == 0) ≡ false = ground arith in rw asked (deliver-Answer s n out good hn h)
