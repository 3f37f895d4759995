-- ===== src/Chunked/Drain.antt =====
-- One chunk through the decrypting reader: `read_full` and the inner loop of `decrypt_chunked` of
-- `lethean_fuse/src/crypto/chunked.rs`.
use lethean.Prelude.{
  ℕ, zero, suc, ◌-◌, ◌≤◌, ◌<◌, ◌≡◌, refl, sym, ap, ◌∙◌, ◌⊎◌, inl, inr, Bool, true, false, List, [],
  ◌∷◌, ◌++◌, append_assoc, append-nil, arith, ltb, ltb→lt, Bool-cases, length, take, drop,
  length-take, length-drop, take-append_le, drop-append_le, take-append_ge, drop-append_ge, Bytes,
  Error, Result, ok, err, ◌>>=◌,
}
use mathlib.Core.Path.{subst}
use lethean.Source.{Event, ready, interrupted, failing, yields, IsClean}
use lethean.Gcm.{Primitives}
use lethean.Gcm.Decrypt.{DecryptReader, read}
use lethean.Gcm.Answer.{Stage, Answer}
use lethean.Gcm.Download.{read-Answer}
use lethean.Chunked.Fetch.{limit, after_read, read_full}

pub limit_lem :
    (n : ℕ) (src : List Event)
    → IsClean src
    → (yields (limit n src).0 ≡ take n (yields src))
      × (yields (limit n src).1 ≡ drop n (yields src))
      × IsClean (limit n src).0
      × IsClean (limit n src).1
unfolding limit yields
limit_lem zero src h = (refl, refl, tt, h)
limit_lem (suc n) [] h = (refl, refl, tt, tt)
limit_lem (suc n) (interrupted ∷ src) h = limit_lem (suc n) src h
limit_lem (suc n) (failing e ∷ src) h = absurd h
limit_lem (suc n) (ready [] ∷ src) h = absurd (omega arith)
limit_lem (suc n) (ready (x ∷ xs) ∷ src) h =
    let b = x ∷ xs in
    let more = limit_lem (suc n - length b) src h.1 in
    elim (Bool-cases (ltb (suc n) (length b))) [
      | inl over ↦ rw over (
        append-nil (take (suc n) b)
            ∙ sym (
                take-append_le (suc n) b (yields src)
                  (omega (arith, ltb→lt (suc n) (length b) over))),
        sym (drop-append_le (suc n) b (yields src) (omega (arith, ltb→lt (suc n) (length b) over))),
        (omega (arith, ltb→lt (suc n) (length b) over, length-take {0} (suc n) b), tt),
        (omega (arith, ltb→lt (suc n) (length b) over, length-drop {0} (suc n) b), h.1),
      )
      | inr within ↦ rw within (
        ap (λ t. b ++ t) more.0 ∙ sym (take-append_ge (suc n) b (yields src) (ground arith)),
        more.1 ∙ sym (drop-append_ge (suc n) b (yields src) (ground arith)),
        (h.0, more.2),
        more.3,
      )
    ]

module _ (p : Primitives) (batch io_buf : ℕ) (hb : 0 < io_buf) (big : 16 < batch) where
  -- What a call of `read_full` comes to: a front part of the plaintext, which is empty only at the end
  -- of a plaintext whose tag was right, or an error if the tag is wrong.
  abbrev pub Full : ℕ → Bytes → Bool → DecryptReader p × Result Bytes → Type 0
  Full n out good w =
      ((piece : Bytes) × (later : Bytes) × (w.1 ≡ ok piece)
        × Stage p w.0 later good
        × (piece ++ later ≡ out)
        × ((0 < n → 0 < length piece) ⊎ ((piece ≡ []) × (out ≡ []) × (good ≡ true))))
      ⊎ ((x : Error) × (w.1 ≡ err x) × (good ≡ false))

  ok_eq : {A : Type 0} {a b : A} → ok a ≡ ok b → a ≡ b
  ok_eq e = cc

  after_read-Full :
      (fuel n : ℕ) (s' : DecryptReader p) (r : Result Bytes) (out : Bytes) (good : Bool)
      → ((later : Bytes) (k : ℕ)
          → k ≤ fuel
          → Stage p s' later good
          → Full k later good (read_full p batch io_buf fuel s' k))
      → n ≤ fuel
      → Answer p out good (s', r)
      → Full (suc n) out good (
          after_read p batch io_buf
            (λ piece. read_full p batch io_buf fuel s' (suc n - length piece))
            s'
            r)
  unfolding after_read
  after_read-Full fuel n s' (err e) out good ih hf (inl (piece, later, f, _, _, _)) = cc
  after_read-Full fuel n s' (err e) out good ih hf (inr (inl (o, g, f, st))) = cc
  after_read-Full fuel n s' (err e) out good ih hf (inr (inr (x, o, g, f, st))) = inr (e, refl, g)
  after_read-Full fuel n s' (ok []) out good ih hf (inl (piece, later, f, st, split, more)) =
      absurd (omega (arith, more, ap (length {0}) (ok_eq f)))
  after_read-Full fuel n s' (ok []) out good ih hf (inr (inl (o, g, f, st))) =
      inl ([], [], refl, subst (Stage p s' []) (sym g) st, sym o, inr (refl, o, g))
  after_read-Full fuel n s' (ok []) out good ih hf (inr (inr (x, o, g, f, st))) = cc
  after_read-Full fuel n s' (ok (b ∷ bs)) out good ih hf (inr (inl (o, g, f, st))) = cc
  after_read-Full fuel n s' (ok (b ∷ bs)) out good ih hf (inr (inr (x, o, g, f, st))) = cc
  after_read-Full fuel n s' (ok (b ∷ bs)) out good ih hf (inl (piece, later, f, st, split, more)) =
      let whole : (b ∷ bs) ++ later ≡ out = ap (λ t. t ++ later) (ok_eq f) ∙ split in
      let rounds : suc n - length (b ∷ bs) ≤ fuel = omega arith in
      let join : Result Bytes → Result Bytes = λ r. r >>= λ rest. ok ((b ∷ bs) ++ rest) in
      elim (ih later (suc n - length (b ∷ bs)) rounds st) [
        | inl (rest, later', e, st', split', _) ↦ inl (
          (b ∷ bs) ++ rest,
          later',
          ap join e,
          st',
          append_assoc (b ∷ bs) rest later' ∙ ap (λ t. (b ∷ bs) ++ t) split' ∙ whole,
          inl (λ _. omega arith),
        )
        | inr (x, e, g) ↦ inr (x, ap join e, g)
      ]

  pub read_full-Full :
      (fuel n : ℕ) (s : DecryptReader p) (out : Bytes) (good : Bool)
      → n ≤ fuel
      → Stage p s out good
      → Full n out good (read_full p batch io_buf fuel s n)
  unfolding read_full
  read_full-Full fuel zero s out good hf h =
      inl ([], out, refl, h, refl, inl (λ l. absurd (omega arith)))
  read_full-Full zero (suc n) s out good hf h = absurd (omega arith)
  read_full-Full (suc fuel) (suc n) s out good hf h =
      after_read-Full fuel n (read p batch io_buf s (suc n)).0 (read p batch io_buf s (suc n)).1 out
        good
        (λ later k l st. read_full-Full fuel k (read p batch io_buf s (suc n)).0 later good l st)
        (omega arith) (read-Answer p batch io_buf hb big s (suc n) out good (omega arith) h)
