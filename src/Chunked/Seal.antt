-- ===== src/Chunked/Seal.antt =====
-- One chunk (`seal_chunk`, `open_chunk`, `nonce_for`, `aad_for`, `chunk_count`, `sealed_len`,
-- `plan_chunked_upload` of `lethean_fuse/src/crypto/chunked.rs`).
use lethean.Prelude.{
  ℕ, zero, suc, ◌+◌, ◌-◌, ◌*◌, ◌/◌, ◌%◌, ◌^◌, ◌≤◌, ◌<◌, max, ◌≡◌, refl, sym, ap, ◌∙◌, ◌↔◌, Bool, [],
  ◌∷◌, ◌++◌, arith, ◌==◌, if◌then◌else◌, length, get_or, take, drop, length-append, Bytes, ok,
}
use native.Mathlib.Nat.{div-add-mod', mod-lt, suc-mul, zero-mul}
use mathlib.Core.Path.{subst}
use lethean.Word.{be32, be32-injective}
use lethean.Crypto.{Aead}
use lethean.Keys.{FileFormat}
use lethean.Chunked.{chunk_count, nonce_for, aad_for, aad_chunk, flag, seal_chunk, open_chunk}

-- The right parts of two equal concatenations whose left parts are of one length.
append-injective_right :
    (xs xs' ys ys' : Bytes) → length xs ≡ length xs' → xs ++ ys ≡ xs' ++ ys' → ys ≡ ys'
append-injective_right [] [] ys ys' h e = e
append-injective_right [] (x ∷ xs') ys ys' h e = absurd (omega arith)
append-injective_right (x ∷ xs) [] ys ys' h e = absurd (omega arith)
append-injective_right (x ∷ xs) (x' ∷ xs') ys ys' h e =
    append-injective_right xs xs' ys ys' (omega arith) (ap (drop 1) e)

-- A nonce determines its chunk: under one key and prefix, two chunks never share a nonce.
pub nonce_for-injective :
    (pre : Bytes) (i j : ℕ) {n : Bytes}
    → nonce_for pre i ≡ ok n
    → nonce_for pre j ≡ ok n
    → (length n ≡ 12) × (i ≡ j)
unfolding nonce_for
nonce_for-injective pre i j {n} hi hj =
    let eqs : (length pre ≡ 8)
        × (i < 2 ^ 32)
        × (j < 2 ^ 32)
        × (n ≡ pre ++ be32 i)
        × (n ≡ pre ++ be32 j) =
      ground arith in
    (
      rw eqs.3 (omega (arith, eqs.0, length-append {0} pre (be32 i))),
      be32-injective i j eqs.1 eqs.2 (append-injective_right pre pre _ _ refl (sym eqs.3 ∙ eqs.4)),
    )

place-injective :
    (i j : ℕ) (l m : Bool)
    → i < 2 ^ 32
    → j < 2 ^ 32
    → be32 i ++ (flag l ∷ []) ≡ be32 j ++ (flag m ∷ [])
    → (i ≡ j) × (l ≡ m)
place-injective i j l m hi hj e =
    (be32-injective i j hi hj (ap (take 4) e), flag-injective l m (ap (λ t. get_or t 4 0) e))
  where
    flag-injective : (l m : Bool) → flag l ≡ flag m → l ≡ m
    flag-injective l m h = ground arith

prefix_seen : {a b : ℕ} → a ≡ 5 → b ≡ 22 → a ≡ b → ⊥
prefix_seen ha hb h = omega arith

-- The additional data of a chunk determines its format, its index and whether it is the last one.
aad_for-injective :
    (f g : FileFormat) (i j : ℕ) (l m : Bool)
    → i < 2 ^ 32
    → j < 2 ^ 32
    → aad_for f i l ≡ aad_for g j m
    → (f ≡ g) × (i ≡ j) × (l ≡ m)
unfolding aad_for
aad_for-injective FileFormat.legacy FileFormat.legacy i j l m hi hj e =
    let (same, lasts) = place-injective i j l m hi hj e in (refl, same, lasts)
aad_for-injective FileFormat.legacy FileFormat.v2 i j l m hi hj e =
    absurd (prefix_seen refl refl (ap length e))
aad_for-injective FileFormat.v2 FileFormat.legacy i j l m hi hj e =
    absurd (prefix_seen refl refl (sym (ap length e)))
aad_for-injective FileFormat.v2 FileFormat.v2 i j l m hi hj e =
    let tails = append-injective_right aad_chunk aad_chunk _ _ refl e in
    let (same, lasts) = place-injective i j l m hi hj tails in (refl, same, lasts)

module _ (aead : Aead) (key : Bytes) (format : FileFormat) (pre : Bytes) (index : ℕ)
    (last : Bool) where
  -- What opens as a chunk at a place is exactly what sealing its bytes there gives.
  pub open_iff_seal :
      (plain sealed : Bytes)
      → length plain ≤ aead.p_max
      → (open_chunk aead key format pre index last sealed ≡ ok plain)
        ↔ (seal_chunk aead key format pre index last plain ≡ ok sealed)
  unfolding open_chunk seal_chunk nonce_for
  open_iff_seal plain sealed room =
      let n = pre ++ be32 index in
      let aad = aad_for format index last in
      ground (arith, aead.unseal_sound key n aad sealed plain, aead.unseal-seal key n aad plain)

suc_sub : (p : ℕ) → p ≡ suc p - 1
suc_sub p = omega arith

abbrev pub Covers : ℕ → ℕ → ℕ → Type 0
Covers k c n = (1 ≤ k) × (n ≤ k * c) × ((k - 1) * c < max n 1)

Covers-suc : (p c n : ℕ) → p * c < max n 1 → n ≤ p * c + c → Covers (suc p) c n
Covers-suc p c n lo hi =
    (omega arith, omega (arith, suc-mul p c), subst (λ q. q * c < max n 1) (suc_sub p) lo)

Covers-intro : (p c n : ℕ) {k : ℕ} → k ≡ suc p → p * c < max n 1 → n ≤ p * c + c → Covers k c n
Covers-intro p c n e lo hi = subst (λ k. Covers k c n) (sym e) (Covers-suc p c n lo hi)

covers : (q c r k : ℕ) → r < c → k ≡ max (q + (if r == 0 then 0 else 1)) 1 → Covers k c (q * c + r)
covers zero c zero k h e =
    Covers-intro 0 c _ (ground arith) (omega (arith, zero-mul c)) (omega (arith, zero-mul c))
covers zero c (suc r) k h e =
    Covers-intro 0 c _ (ground arith) (omega (arith, zero-mul c)) (omega (arith, zero-mul c))
covers (suc q) c zero k h e =
    Covers-intro q c _ (ground arith) (omega (arith, suc-mul q c)) (omega (arith, suc-mul q c))
covers (suc q) c (suc r) k h e = Covers-intro (suc q) c _ (ground arith) (omega arith) (omega arith)

-- The chunks of a file cover it, and none but the last can be spared.
pub chunk_count_lem :
    (n c : ℕ)
    → 0 < c
    → (1 ≤ chunk_count n c) × (n ≤ chunk_count n c * c) × ((chunk_count n c - 1) * c < max n 1)
unfolding chunk_count
chunk_count_lem n c h =
    subst (Covers (chunk_count n c) c) (div-add-mod' n c)
      (covers (n / c) c (n % c) (chunk_count n c) (mod-lt n h) refl)
