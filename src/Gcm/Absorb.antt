-- ===== src/Gcm/Absorb.antt =====
-- However a ciphertext is cut into calls of `absorb`, the authentication code is that of the whole.
use lethean.Prelude.{
  ℕ, zero, suc, ◌+◌, ◌-◌, ◌*◌, ◌/◌, ◌%◌, ◌^◌, ◌<◌, min, ◌≡◌, refl, sym, ap, ◌∙◌, inl, inr, Bool,
  true, false, List, [], ◌∷◌, ◌++◌, append_assoc, append-nil, arith, ltb, ◌==◌, if◌then◌else◌,
  ==_iff, Bool-cases, length, take, drop, length-append, take-append-drop, length-take, length-drop,
  take_of_le, Bytes,
}
use mathlib.Core.Path.{subst}
use lethean.Word.{be64}
use lethean.Gcm.{Primitives, GcmState, absorb_whole, complete_block, absorb, xor_bytes, finish}

module _ (p : Primitives) where
  open p use {Ghash, update_padded, finalize, update-nil, update-append}

  -- The state holds the bytes `before`: its whole blocks are hashed after `g`, the rest is pending.
  pub record Holds (g : Ghash) (input : Bytes) (s : GcmState p) : Type 0 where
    pub blocks : Bytes
    pub cut : input ≡ blocks ++ s.pending
    pub whole : length blocks % 16 ≡ 0
    pub short : length s.pending < 16
    pub hashed : s.ghash ≡ update_padded g blocks
    pub counted : s.ct_len ≡ length input % 2 ^ 64

  nil_of_length : (xs : Bytes) → ltb 0 (length xs) ≡ false → xs ≡ []
  nil_of_length [] h = refl
  nil_of_length (x ∷ xs) h = absurd (ground arith)

  hash_whole :
      (g h : Ghash) (before ct : Bytes) (k : ℕ)
      → length before % 16 ≡ 0
      → h ≡ update_padded g before
      → (if ltb 0 k then update_padded h (take k ct) else h) ≡ update_padded g (before ++ take k ct)
  hash_whole g h before ct zero w e = e ∙ ap (update_padded g) (sym (append-nil before))
  hash_whole g h before ct (suc k) w e =
      let positive : ltb 0 (suc k) ≡ true = ground arith in
      rw (positive, e) (sym (update-append g before (take (suc k) ct) w))

  absorb_whole-Holds :
      (g : Ghash) (before ct : Bytes) (s : GcmState p)
      → length before % 16 ≡ 0
      → s.ghash ≡ update_padded g before
      → s.ct_len ≡ length (before ++ ct) % 2 ^ 64
      → Holds g (before ++ ct) (absorb_whole p s ct)
  unfolding absorb_whole
  absorb_whole-Holds g before ct s w e n =
      let k = length ct / 16 * 16 in
      record {
        blocks = before ++ take k ct;
        cut =
            ap (λ t. before ++ t) (sym (take-append-drop k ct))
            ∙ sym (append_assoc before (take k ct) (drop k ct));
        whole = omega (arith, length-append {0} before (take k ct), length-take {0} k ct);
        short = omega (arith, length-drop {0} k ct);
        hashed = hash_whole g s.ghash before ct k w e;
        counted = n;
      }

  regroup :
      (bs begun ct : Bytes) (m : ℕ)
      → (bs ++ begun) ++ ct ≡ (bs ++ (begun ++ take m ct)) ++ drop m ct
  regroup bs begun ct m =
      ap (λ t. (bs ++ begun) ++ t) (sym (take-append-drop m ct)) ∙ simp append_assoc

  complete_block-Holds :
      (g : Ghash) (before ct : Bytes) (s t : GcmState p)
      → Holds g before s
      → t.pending ≡ s.pending
      → t.ghash ≡ s.ghash
      → t.ct_len ≡ length (before ++ ct) % 2 ^ 64
      → Holds g (before ++ ct) (complete_block p t ct)
  unfolding complete_block
  complete_block-Holds g before ct s t h ep eg n =
      let m = min (16 - length t.pending) (length ct) in
      let begun = t.pending ++ take m ct in
      let size : length begun ≡ length t.pending + m =
        omega (arith, length-append {0} t.pending (take m ct), length-take {0} m ct) in
      let cut : before ≡ h.blocks ++ t.pending = rw ep h.cut in
      elim (Bool-cases (length begun == 16)) [
        | inl done ↦
            let sixteen : length begun ≡ 16 = (==_iff (length begun) 16).0 done in
            let all : before ++ ct ≡ (h.blocks ++ begun) ++ drop m ct =
              ap (λ t. t ++ ct) cut ∙ regroup h.blocks t.pending ct m in
            rw (done, all)
              (absorb_whole-Holds g (h.blocks ++ begun) (drop m ct)
                (record t { ghash = update_padded t.ghash begun; pending = [] })
                (omega (arith, h.whole, length-append {0} h.blocks begun))
                (ap (λ x. update_padded x begun) (eg ∙ h.hashed)
                  ∙ sym (update-append g h.blocks begun h.whole))
                (rw (← all) n))
        | inr short ↦ rw short (record {
          blocks = h.blocks;
          cut =
              ap (λ t. t ++ ct) cut
              ∙ append_assoc h.blocks t.pending ct
              ∙ ap (λ x. h.blocks ++ (t.pending ++ x))
                  (sym (take_of_le m ct (ground (arith, ap (length {A = ℕ}) ep))));
          whole = h.whole;
          short = ground (arith, h.short, ap (length {A = ℕ}) ep);
          hashed = eg ∙ h.hashed;
          counted = n;
        })
      ]

  -- Absorbing a piece extends what the state holds by that piece, whatever was pending before.
  pub absorb-Holds :
      (g : Ghash) (before ct : Bytes) (s : GcmState p)
      → Holds g before s
      → Holds g (before ++ ct) (absorb p s ct)
  unfolding absorb
  absorb-Holds g before ct s h = elim (Bool-cases (ltb 0 (length s.pending))) [
    | inl begun ↦ rw begun (
        complete_block-Holds g before ct s (record s { ct_len = (s.ct_len + length ct) % 2 ^ 64 }) h
          refl refl counted)
    | inr fresh ↦
        let same : before ≡ h.blocks =
          h.cut ∙ ap (λ t. h.blocks ++ t) (nil_of_length s.pending fresh) ∙ append-nil h.blocks in
        rw fresh (
          absorb_whole-Holds g before ct (record s { ct_len = (s.ct_len + length ct) % 2 ^ 64 })
            (ap (λ (t : Bytes). length t % 16) same ∙ h.whole)
            (h.hashed ∙ ap (update_padded g) (sym same)) counted)
  ]
    where
      counted : (s.ct_len + length ct) % 2 ^ 64 ≡ length (before ++ ct) % 2 ^ 64
      counted = omega (arith, h.counted, length-append {0} before ct)

  be64_wraps : (n : ℕ) → be64 (n % 2 ^ 64 * 8) ≡ be64 (n * 8)
  be64_wraps n = ground arith

  -- The tag of the whole input, as AES-GCM defines it: the hash of the padded input and of the
  -- lengths in bits, under the mask.
  abbrev pub tag_of : Ghash → Bytes → ℕ → Bytes → Bytes
  tag_of g mask aad_len input =
      xor_bytes p
        (finalize
          (update_padded (update_padded g input) (be64 (aad_len * 8) ++ be64 (length input * 8))))
        mask

  pub finish-Holds :
      (g : Ghash) (input : Bytes) (s : GcmState p)
      → Holds g input s
      → finish p s ≡ tag_of g s.tag_mask s.aad_len input
  unfolding finish
  finish-Holds g input s h =
      let hashed : (if ltb 0 (length s.pending) then update_padded s.ghash s.pending else s.ghash)
          ≡ update_padded g input =
        last (ltb 0 (length s.pending)) refl in
      rw (hashed, h.counted, be64_wraps (length input)) refl
    where
      split : update_padded g input ≡ update_padded s.ghash s.pending
      split =
          ap (update_padded g) h.cut
          ∙ update-append g h.blocks s.pending h.whole
          ∙ ap (λ x. update_padded x s.pending) (sym h.hashed)

      last :
          (b : Bool)
          → ltb 0 (length s.pending) ≡ b
          → (if b then update_padded s.ghash s.pending else s.ghash) ≡ update_padded g input
      last true e = sym split
      last false e =
          sym (split ∙ ap (update_padded s.ghash) (nil_of_length s.pending e) ∙ update-nil s.ghash)

  pub kept :
      (s : GcmState p) (ct : Bytes)
      → ((absorb p s ct).tag_mask ≡ s.tag_mask)
        × ((absorb p s ct).aad_len ≡ s.aad_len)
        × ((absorb p s ct).ctr ≡ s.ctr)
  unfolding absorb complete_block absorb_whole
  kept s ct = ground arith

  abbrev pub absorb_all : GcmState p → List Bytes → GcmState p
  absorb_all s [] = s
  absorb_all s (ct ∷ cts) = absorb_all (absorb p s ct) cts

  abbrev pub concat : List Bytes → Bytes
  concat [] = []
  concat (ct ∷ cts) = ct ++ concat cts

  absorb_all-Holds :
      (g : Ghash) (cts : List Bytes) (before : Bytes) (s : GcmState p)
      → Holds g before s
      → Holds g (before ++ concat cts) (absorb_all s cts)
        × ((absorb_all s cts).tag_mask ≡ s.tag_mask)
        × ((absorb_all s cts).aad_len ≡ s.aad_len)
  absorb_all-Holds g [] before s h = (rw (append-nil before) h, refl, refl)
  absorb_all-Holds g (ct ∷ cts) before s h =
      let (m, a, _) = kept s ct in
      let (h', m', a') =
        absorb_all-Holds g cts (before ++ ct) (absorb p s ct) (absorb-Holds g before ct s h) in
      (
        subst (λ t. Holds g t (absorb_all (absorb p s ct) cts))
            (append_assoc before ct (concat cts)) h',
        m' ∙ m,
        a' ∙ a,
      )

  -- Cutting a ciphertext into calls of `absorb` in any way gives the tag that AES-GCM defines for
  -- the whole ciphertext.
  pub tag_any_cut :
      (cts : List Bytes) (s : GcmState p)
      → s.pending ≡ []
      → s.ct_len ≡ 0
      → finish p (absorb_all s cts) ≡ tag_of s.ghash s.tag_mask s.aad_len (concat cts)
  tag_any_cut cts s e n =
      let (h, m, a) = absorb_all-Holds s.ghash cts [] s (record {
        blocks = [];
        cut = sym e;
        whole = omega arith;
        short = ground (arith, ap (length {A = ℕ}) e);
        hashed = sym (update-nil s.ghash);
        counted = n;
      }) in
      rw (finish-Holds s.ghash (concat cts) (absorb_all s cts) h, m, a) refl
