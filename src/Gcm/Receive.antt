-- ===== src/Gcm/Receive.antt =====
-- What `GcmDecryptReader` of `lethean_fuse/src/crypto/gcm_stream.rs` releases, by one call of its
-- `fill`.
use lethean.Prelude.{
  ℕ, zero, suc, ◌≤◌, ◌<◌, ◌≡◌, refl, sym, ap, ◌∙◌, ◌↔◌, false, [], ◌∷◌, ◌++◌, append_assoc,
  append-nil, arith, ==_iff, length, take, drop, length-append, take-append-drop, length-drop,
  Bytes,
}
use mathlib.Core.Path.{subst}
use lethean.Gcm.{Primitives, GcmState, absorb}
use lethean.Gcm.Absorb.{Holds, absorb-Holds, kept}
use lethean.Gcm.Reads.{nil_of_length}
use lethean.Gcm.Decrypt.{differs, decrypt_parts}

pub differs_iff : (xs ys : Bytes) → length xs ≡ length ys → (differs xs ys ≡ false) ↔ (xs ≡ ys)
unfolding differs
differs_iff [] [] h = (λ _. refl, λ _. refl)
differs_iff [] (y ∷ ys) h = absurd (omega arith)
differs_iff (x ∷ xs) [] h = absurd (omega arith)
differs_iff (x ∷ xs) (y ∷ ys) h =
    let rest = differs_iff xs ys (omega arith) in ground (arith, rest, ==_iff x y)

module _ (p : Primitives) where
  open p use {
    Ghash, keystream, advance, keystream-append, length-keystream, advance-zero, advance-advance,
  }

  -- Decrypting part by part is decrypting at once, and authenticates every byte.
  pub record Parts (g : Ghash) (before bytes : Bytes) (st : GcmState p) (w : GcmState p × Bytes)
      : Type 0 where
    pub plain : w.1 ≡ keystream st.ctr bytes
    pub held : Holds p g (before ++ bytes) w.0
    pub ctr : w.0.ctr ≡ advance st.ctr (length bytes)
    pub mask : w.0.tag_mask ≡ st.tag_mask
    pub aad : w.0.aad_len ≡ st.aad_len

  Parts-nil :
      (g : Ghash) (before : Bytes) (st : GcmState p)
      → Holds p g before st
      → Parts g before [] st (st, [])
  Parts-nil g before st h = record {
    plain = sym (nil_of_length (keystream st.ctr []) (length-keystream st.ctr []));
    held = rw (append-nil before) h;
    ctr = sym (advance-zero st.ctr);
    mask = refl;
    aad = refl;
  }

  pub decrypt_parts_lem :
      (io_buf fuel : ℕ) (g : Ghash) (before bytes : Bytes) (st : GcmState p)
      → 0 < io_buf
      → length bytes ≤ fuel
      → Holds p g before st
      → Parts g before bytes st (decrypt_parts p io_buf fuel st bytes)
  unfolding decrypt_parts
  decrypt_parts_lem io_buf zero g before [] st hb l h = Parts-nil g before st h
  decrypt_parts_lem io_buf zero g before (b ∷ bs) st hb l h = absurd (omega arith)
  decrypt_parts_lem io_buf (suc fuel) g before [] st hb l h = Parts-nil g before st h
  decrypt_parts_lem io_buf (suc fuel) g before (b ∷ bs) st hb l h =
      let part = take io_buf (b ∷ bs) in
      let rest = drop io_buf (b ∷ bs) in
      let whole : part ++ rest ≡ b ∷ bs = take-append-drop io_buf (b ∷ bs) in
      let (mask, aad, ctr) = kept p st part in
      let seen : GcmState p = absorb p st part in
      let st1 : GcmState p = record seen { ctr = advance seen.ctr (length part) } in
      let h1 = absorb-Holds p g before part st h in
      let next =
        decrypt_parts_lem io_buf fuel g (before ++ part) rest st1 hb
          (omega (arith, length-drop {0} io_buf (b ∷ bs)))
          (record {
            blocks = h1.blocks;
            cut = h1.cut;
            whole = h1.whole;
            short = h1.short;
            hashed = h1.hashed;
            counted = h1.counted;
          }) in
      record {
        plain =
            ap (λ t. keystream seen.ctr part ++ t) next.plain
            ∙ sym (keystream-append seen.ctr part rest)
            ∙ ap (keystream seen.ctr) whole
            ∙ ap (λ c. keystream c (b ∷ bs)) ctr;
        held =
            subst (λ t. Holds p g t (decrypt_parts p io_buf fuel st1 rest).0)
              (append_assoc before part rest ∙ ap (λ t. before ++ t) whole) next.held;
        ctr =
            next.ctr
            ∙ advance-advance seen.ctr (length part) (length rest)
            ∙ ap (λ k. advance seen.ctr k) (sym (length-append part rest))
            ∙ ap (λ (t : Bytes). advance seen.ctr (length t)) whole
            ∙ ap (λ c. advance c (length (b ∷ bs))) ctr;
        mask = next.mask ∙ mask;
        aad = next.aad ∙ aad;
      }
