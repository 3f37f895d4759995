-- ===== src/Chunked/Loop.antt =====
-- The inner loop of `decrypt_chunked` of `lethean_fuse/src/crypto/chunked.rs`, over one chunk.
use lethean.Prelude.{
  ℕ, zero, suc, ◌+◌, ◌-◌, ◌<◌, min, ◌≡◌, refl, sym, ap, ◌∙◌, ◌⊎◌, inl, inr, Bool, true, false, ◌&&◌,
  not, [], ◌∷◌, ◌++◌, append_assoc, append-nil, arith, ltb, if◌then◌else◌, Bool-cases, length, take,
  drop, length-append, take_of_le, drop-nil, Bytes, all_zero, all_zero-append, Error, Result, ok,
  err, ◌>>=◌, ◌>>◌, guard,
}
use mathlib.Core.Path.{subst}
use lethean.Keys.{FileFormat, is_v2_format}
use lethean.Gcm.{Primitives}
use lethean.Gcm.Decrypt.{DecryptReader}
use lethean.Gcm.Answer.{Stage}
use lethean.Chunked.{check_filler}
use lethean.Chunked.Stream.{take-min, drop-min}
use lethean.Chunked.Fetch.{after_piece, read_full, put_piece, drain}
use lethean.Chunked.Drain.{Full, read_full-Full}

nothing_left : (m : ℕ) → 0 ≡ 0 - suc m
nothing_left m = omega arith

take-append_any : (n : ℕ) (xs ys : Bytes) → take n (xs ++ ys) ≡ take n xs ++ take (n - length xs) ys
take-append_any n [] ys =
    ap (λ k. take k ys) (omega arith)
    ∙ ap (λ t. t ++ take (n - 0) ys) (sym (take_of_le n [] (omega arith)))
take-append_any zero (x ∷ xs) ys = ap (λ k. take k ys) (nothing_left (length xs))
take-append_any (suc n) (x ∷ xs) ys =
    ap (λ t. x ∷ t) (take-append_any n xs ys ∙ ap (λ k. take n xs ++ take k ys) (omega arith))

drop-append_any : (n : ℕ) (xs ys : Bytes) → drop n (xs ++ ys) ≡ drop n xs ++ drop (n - length xs) ys
drop-append_any n [] ys =
    ap (λ k. drop k ys) (omega arith) ∙ ap (λ t. t ++ drop (n - 0) ys) (sym (drop-nil n))
drop-append_any zero (x ∷ xs) ys = ap (λ k. (x ∷ xs) ++ drop k ys) (nothing_left (length xs))
drop-append_any (suc n) (x ∷ xs) ys =
    drop-append_any n xs ys ∙ ap (λ k. drop n xs ++ drop k ys) (omega arith)

-- May the bytes stand behind the contents?
abbrev pub is_filler : FileFormat → Bytes → Bool
is_filler format bs = not (is_v2_format format && not (all_zero bs))

is_filler-nil : (format : FileFormat) → is_filler format [] ≡ true
unfolding all_zero
is_filler-nil format = ground arith

is_filler-append :
    (format : FileFormat) (xs ys : Bytes)
    → is_filler format (xs ++ ys) ≡ (is_filler format xs && is_filler format ys)
is_filler-append format xs ys = ground (arith, all_zero-append xs ys)

ok_eq : {A : Type 0} {a b : A} → ok a ≡ ok b → a ≡ b
ok_eq e = cc

module _ (write : Bytes → Bytes → Result Bytes) (format : FileFormat)
    (writes : (out b : Bytes) → write out b ≡ ok (out ++ b)) where
  module _ (want got : ℕ) (out piece : Bytes) where
    abbrev keep : ℕ
    keep = min (want - got) (length piece)

    kept : take keep piece ≡ take (want - got) piece
    kept = take-min keep (want - got) piece (omega arith)

    left : drop keep piece ≡ drop (want - got) piece
    left = drop-min keep (want - got) piece (omega arith)

    written :
        (if ltb 0 keep then write out (take keep piece) else ok out)
        ≡ ok (out ++ take (want - got) piece)
    written = elim (Bool-cases (ltb 0 keep)) [
      | inl some_bytes ↦ rw some_bytes (writes out (take keep piece) ∙ ap (λ t. ok (out ++ t)) kept)
      | inr none_left ↦
          let nothing : keep ≡ 0 = ground arith in
          rw none_left (
            ap ok (sym (append-nil out))
            ∙ ap (λ k. ok (out ++ take k piece)) (sym nothing)
            ∙ ap (λ t. ok (out ++ t)) kept)
    ]

    put_piece_eq : put_piece write format want got out piece ≡ (
        ok (out ++ take (want - got) piece) >>= λ out'.
        guard (is_filler format (drop (want - got) piece)) Error.corrupt_padding >> ok out')
    unfolding put_piece check_filler
    put_piece_eq =
        ap
          (λ r. r >>= λ out'.
            guard (is_filler format (drop keep piece)) Error.corrupt_padding >> ok out')
          written
        ∙ ap
            (λ t.
              guard (is_filler format t) Error.corrupt_padding
              >> ok (out ++ take (want - got) piece))
            left

  -- How the loop ends on a plaintext `rest` that is still to be read.
  abbrev pub Ended : ℕ → ℕ → Bytes → Bytes → Bool → Result (ℕ × Bytes) → Type 0
  Ended want got out rest good r =
      ((r ≡ ok (got + length rest, out ++ take (want - got) rest))
        × (good ≡ true)
        × (is_filler format (drop (want - got) rest) ≡ true))
      ⊎ ((x : Error) × (r ≡ err x)
          × ((good ≡ false) ⊎ (is_filler format (drop (want - got) rest) ≡ false)))

  module _ (want got : ℕ) (out piece later : Bytes) (good : Bool) where
    later_text :
        (out ++ take (want - got) piece) ++ take (want - (got + length piece)) later
        ≡ out ++ take (want - got) (piece ++ later)
    later_text =
        append_assoc out (take (want - got) piece) (take (want - (got + length piece)) later)
        ∙ ap (λ n. out ++ (take (want - got) piece ++ take n later)) (omega arith)
        ∙ ap (λ t. out ++ t) (sym (take-append_any (want - got) piece later))

    later_filler : is_filler format (drop (want - got) (piece ++ later)) ≡ (
        is_filler format (drop (want - got) piece)
        && is_filler format (drop (want - (got + length piece)) later))
    later_filler =
        ap (is_filler format) (drop-append_any (want - got) piece later)
        ∙ is_filler-append format (drop (want - got) piece) (drop (want - got - length piece) later)
        ∙ ap (λ n. is_filler format (drop (want - got) piece) && is_filler format (drop n later))
            (omega arith)

    later-Ended :
        (r : Result (ℕ × Bytes))
        → is_filler format (drop (want - got) piece) ≡ true
        → Ended want (got + length piece) (out ++ take (want - got) piece) later good r
        → Ended want got out (piece ++ later) good r
    later-Ended r fits (inl (e, g, f)) =
        let size : got + length piece + length later ≡ got + length (piece ++ later) =
          omega (arith, length-append {0} piece later) in
        inl (
          e
              ∙ ap
                  (λ n. ok (
                    n,
                    (out ++ take (want - got) piece) ++ take (want - (got + length piece)) later,
                  ))
                  size
              ∙ ap (λ t. ok (got + length (piece ++ later), t)) later_text,
          g,
          later_filler
              ∙ ap (λ b. b && is_filler format (drop (want - (got + length piece)) later)) fits
              ∙ f,
        )
    later-Ended r fits (inr (x, e, inl g)) = inr (x, e, inl g)
    later-Ended r fits (inr (x, e, inr f)) = inr (
      x,
      e,
      inr (
          later_filler
          ∙ ap (λ b. is_filler format (drop (want - got) piece) && b) f
          ∙ ap (λ b. b && false) fits),
    )

  module _ (p : Primitives) (batch io_buf : ℕ) (hb : 0 < io_buf) (big : 16 < batch) (buf : ℕ)
      (room : 0 < buf) where
    after_piece-Ended :
        (more : Bytes → Bytes → Result (ℕ × Bytes)) (want got : ℕ) (out : Bytes) (b : ℕ)
        (bs later : Bytes) (good : Bool)
        → ((out' : Bytes) → Ended want (got + length (b ∷ bs)) out' later good (more (b ∷ bs) out'))
        → Ended want got out
            ((b ∷ bs) ++ later)
            good
            (after_piece write format more want got out (ok (b ∷ bs)))
    unfolding after_piece
    after_piece-Ended more want got out b bs later good ih =
        let piece = b ∷ bs in
        let out' = out ++ take (want - got) piece in
        let next : Result Bytes → Result (ℕ × Bytes) = λ r. r >>= λ t. more piece t in
        let step : Bool → Result Bytes = λ f. guard f Error.corrupt_padding >> ok out' in
        let put = put_piece_eq want got out piece in
        elim (Bool-cases (is_filler format (drop (want - got) piece))) [
          | inl fits ↦
              subst (Ended want got out (piece ++ later) good) (sym (ap next (put ∙ ap step fits)))
                (later-Ended want got out piece later good (more piece out') fits (ih out'))
          | inr bad ↦
              subst (Ended want got out (piece ++ later) good) (sym (ap next (put ∙ ap step bad))) (
                inr (
                  Error.corrupt_padding,
                  refl,
                  inr (
                      later_filler want got out piece later good
                      ∙ ap (λ f. f && is_filler format (drop (want - (got + length piece)) later))
                          bad),
                ))
        ]

    -- The answers of `read_full`, one by one.
    Full-Ended :
        (more : Bytes → Bytes → Result (ℕ × Bytes)) (want got : ℕ) (s' : DecryptReader p)
        (r : Result Bytes) (out rest : Bytes) (good : Bool)
        → ((piece later out' : Bytes)
            → piece ++ later ≡ rest
            → 0 < length piece
            → Stage p s' later good
            → Ended want (got + length piece) out' later good (more piece out'))
        → Full p batch io_buf hb big buf rest good (s', r)
        → Ended want got out rest good (after_piece write format more want got out r)
    unfolding after_piece
    Full-Ended more want got s' (err e) out rest good ih
          (inl (piece, later, f, st, split, more_bytes)) =
        cc
    Full-Ended more want got s' (err e) out rest good ih (inr (x, f, g)) = inr (e, refl, inl g)
    Full-Ended more want got s' (ok bytes) out rest good ih (inr (x, f, g)) = cc
    Full-Ended more want got s' (ok []) out rest good ih
          (inl (piece, later, f, st, split, inl progress)) =
        absurd (omega (arith, progress room, ap (length {0}) (ok_eq f)))
    Full-Ended more want got s' (ok []) out rest good ih
          (inl (piece, later, f, st, split, inr (_, none_left, g))) =
        let k = want - got in
        let same : out ≡ out ++ take k [] =
          sym (ap (λ t. out ++ t) (take_of_le k [] (omega arith)) ∙ append-nil out) in
        let fits : is_filler format (drop k []) ≡ true =
          ap (is_filler format) (drop-nil k) ∙ is_filler-nil format in
        let here : Ended want got out [] good (ok (got, out)) =
          inl (ap (λ n. ok (n, out)) (omega arith) ∙ ap (λ t. ok (got + 0, t)) same, g, fits) in
        subst (λ t. Ended want got out t good (ok (got, out))) (sym none_left) here
    Full-Ended more want got s' (ok (b ∷ bs)) out rest good ih
          (inl (piece, later, f, st, split, _)) =
        let whole : (b ∷ bs) ++ later ≡ rest = ap (λ t. t ++ later) (ok_eq f) ∙ split in
        subst
          (λ t.
            Ended want got out t good (after_piece write format more want got out (ok (b ∷ bs))))
          whole
          (after_piece-Ended more want got out b bs later good
            (λ out'. ih (b ∷ bs) later out' whole (omega arith) st))

    pub drain-Ended :
        (fuel want got : ℕ) (s : DecryptReader p) (out rest : Bytes) (good : Bool)
        → length rest < fuel
        → Stage p s rest good
        → Ended want got out rest good (drain p batch io_buf write format fuel buf s want got out)
    unfolding drain
    drain-Ended zero want got s out rest good hf h = absurd (omega arith)
    drain-Ended (suc fuel) want got s out rest good hf h =
        let w : DecryptReader p × Result Bytes = read_full p batch io_buf buf s buf in
        Full-Ended
          (λ piece out'.
            drain p batch io_buf write format fuel buf w.0 want (got + length piece) out')
          want got w.0 w.1 out rest good
          (λ piece later out' split some_bytes st.
            drain-Ended fuel want (got + length piece) w.0 out' later good
              (omega (arith, ap (length {0}) split, length-append {0} piece later)) st)
          (read_full-Full p batch io_buf hb big buf buf s rest good (omega arith) h)
