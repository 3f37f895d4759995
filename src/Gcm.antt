-- ===== src/Gcm.antt =====
-- Streaming AES-GCM, `lethean_fuse/src/crypto/gcm_stream.rs`: the running state of the authentication
-- code, which buffers an incomplete block between calls.
pub mod Absorb
pub mod Encrypt
pub mod Send
pub mod Reads
pub mod Upload
pub mod Decrypt
pub mod Receive
pub mod Stage
pub mod Answer
pub mod Download
pub mod Verdict
use Prim.Native.Nat.{bit_xor}
use lethean.Prelude.{
  ℕ, zero, suc, ◌+◌, ◌-◌, ◌*◌, ◌/◌, ◌%◌, ◌^◌, ◌≤◌, ◌<◌, min, max, ◌≡◌, refl, sym, ap, ◌∙◌, ◌≢◌, ◌↔◌,
  ◌⊎◌, inl, inr, Bool, true, false, ◌&&◌, ◌||◌, not, Option, none, some, List, [], ◌∷◌, ◌++◌, map,
  append_assoc, append-nil, arith, ltb, leb, ◌==◌, if◌then◌else◌, ltb→lt, lt→ltb, leb→le, ==_iff,
  Bool-cases, Option-cases, length, get_elem?, get_or, set, take, drop, replicate, length-append,
  length-set, get_elem?-set_self, get_elem?-set_ne, take-append-drop, length-take, length-drop,
  length-replicate, take_of_le, take-append, drop-append, drop-drop, drop-nil, Bytes, Text, codes,
  eq_list, eq_list_iff, eq_list_refl, all_zero, zeros, length-zeros, all_zero-zeros, all_zero_eq,
  all_zero-append, utf8_len, utf16_width, utf16_len, is_empty, Error, Result, ok, err, ◌>>=◌, ◌>>◌,
  guard, ok_or, >>=-eq-ok,
}
use lethean.Word.{be64}

-- The crates that the stream stands on: the AES-256 block, the CTR-32 key stream and GHASH. A key
-- stream applied in two calls is the key stream applied in one, and undoes itself; GHASH pads each
-- update to whole blocks, so an update of whole blocks may be split off.
pub record Primitives : Type 1 where
  pub Ctr : Type 0
  pub Ghash : Type 0
  pub encrypt_block : Bytes → Bytes → Bytes
  pub ctr_new : Bytes → Bytes → Ctr
  pub keystream : Ctr → Bytes → Bytes
  pub advance : Ctr → ℕ → Ctr
  pub ghash_new : Bytes → Ghash
  pub update_padded : Ghash → Bytes → Ghash
  pub finalize : Ghash → Bytes
  pub length-encrypt_block :
      (key block : Bytes) → length block ≡ 16 → length (encrypt_block key block) ≡ 16
  pub length-keystream : (c : Ctr) (xs : Bytes) → length (keystream c xs) ≡ length xs
  pub keystream-append :
      (c : Ctr) (xs ys : Bytes)
      → keystream c (xs ++ ys) ≡ keystream c xs ++ keystream (advance c (length xs)) ys
  pub advance-zero : (c : Ctr) → advance c 0 ≡ c
  pub advance-advance : (c : Ctr) (m n : ℕ) → advance (advance c m) n ≡ advance c (m + n)
  pub keystream-keystream : (c : Ctr) (xs : Bytes) → keystream c (keystream c xs) ≡ xs
  pub update-nil : (g : Ghash) → update_padded g [] ≡ g
  pub update-append :
      (g : Ghash) (xs ys : Bytes)
      → length xs % 16 ≡ 0
      → update_padded g (xs ++ ys) ≡ update_padded (update_padded g xs) ys
  pub length-finalize : (g : Ghash) → length (finalize g) ≡ 16

module _ (p : Primitives) where
  open p use {Ctr, Ghash, encrypt_block, ctr_new, ghash_new, update_padded, finalize}

  -- `GcmState`; `pending` holds the `pending_len` bytes of the array that are in use.
  pub record GcmState : Type 0 where
    pub ctr : Ctr
    pub ghash : Ghash
    pub tag_mask : Bytes
    pub pending : Bytes
    pub ct_len : ℕ
    pub aad_len : ℕ

  -- `GcmState::new`: the hash key is the encryption of the zero block, the tag's mask that of
  -- iv ‖ 1, and the key stream starts at iv ‖ 2.
  unfoldable pub new : Bytes → Bytes → Result GcmState
  new key iv = do
    guard (length key == 32) Error.bad_key_length
    guard (length iv == 12) Error.bad_nonce_length
    ok (record {
      ctr = ctr_new key (iv ++ (0 ∷ 0 ∷ 0 ∷ 2 ∷ []));
      ghash = ghash_new (encrypt_block key (zeros 16));
      tag_mask = encrypt_block key (iv ++ (0 ∷ 0 ∷ 0 ∷ 1 ∷ []));
      pending = [];
      ct_len = 0;
      aad_len = 0;
    })

  unfoldable pub new_with_aad : Bytes → Bytes → Bytes → Result GcmState
  new_with_aad key iv aad = do
    s ← new key iv
    ok (
        if is_empty aad
        then s
        else record s { ghash = update_padded s.ghash aad; aad_len = length aad })

  -- The second half of `absorb`, with no block begun: whole blocks at once, and the rest kept.
  unfoldable pub absorb_whole : GcmState → Bytes → GcmState
  absorb_whole s ct =
      let whole = length ct / 16 * 16 in
      record s {
        ghash = if ltb 0 whole then update_padded s.ghash (take whole ct) else s.ghash;
        pending = drop whole ct;
      }

  -- The first half of `absorb`: complete the block that was begun.
  unfoldable pub complete_block : GcmState → Bytes → GcmState
  complete_block s ct =
      let begun = s.pending ++ take (min (16 - length s.pending) (length ct)) ct in
      if length begun == 16
      then absorb_whole (record s { ghash = update_padded s.ghash begun; pending = [] })
          (drop (min (16 - length s.pending) (length ct)) ct)
      else record s { pending = begun }

  unfoldable pub absorb : GcmState → Bytes → GcmState
  absorb s ct =
      let s' = record s { ct_len = (s.ct_len + length ct) % 2 ^ 64 } in
      if ltb 0 (length s.pending) then complete_block s' ct else absorb_whole s' ct

  unfoldable pub xor_bytes : Bytes → Bytes → Bytes
  xor_bytes [] ys = []
  xor_bytes (x ∷ xs) [] = []
  xor_bytes (x ∷ xs) (y ∷ ys) = bit_xor x y ∷ xor_bytes xs ys

  -- `finish`; the multiplications by eight wrap within `be64`.
  unfoldable pub finish : GcmState → Bytes
  finish s =
      let g = if ltb 0 (length s.pending) then update_padded s.ghash s.pending else s.ghash in
      xor_bytes (finalize (update_padded g (be64 (s.aad_len * 8) ++ be64 (s.ct_len * 8))))
        s.tag_mask
