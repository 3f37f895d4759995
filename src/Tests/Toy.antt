-- ===== src/Tests/Toy.antt =====
-- Concrete libraries that satisfy the laws which the code relies on: a cipher whose tag is zero, texts
-- that stand for their own encodings, a compressor of runs of zeros.
use lethean.Prelude.{
  ℕ, ◌+◌, ◌-◌, ◌%◌, ◌^◌, ◌≡◌, refl, sym, ap, true, false, ◌&&◌, Option, none, some, [], ◌∷◌, ◌++◌,
  arith, leb, if◌then◌else◌, length, take, drop, replicate, length-append, take-append-drop,
  length-drop, take-append, drop-append, Bytes, all_zero, zeros, all_zero-zeros, all_zero_eq,
}
use lethean.Meta.{is_node_ref}
use lethean.Crypto.{Aead, Encodings, Gzip}
use lethean.Gcm.{Primitives}

abbrev pub toy_seal : Bytes → Bytes → Bytes → Bytes → Bytes
toy_seal key nonce aad p = p ++ zeros 16

unfoldable pub toy_unseal : Bytes → Bytes → Bytes → Bytes → Option Bytes
toy_unseal key nonce aad c =
    if leb 16 (length c) && all_zero (drop (length c - 16) c)
    then some (take (length c - 16) c)
    else none

pub toy_unseal-seal :
    (key nonce aad p : Bytes) → toy_unseal key nonce aad (toy_seal key nonce aad p) ≡ some p
unfolding toy_unseal
toy_unseal-seal key nonce aad p =
    let n : length (p ++ zeros 16) - 16 ≡ length p =
      omega (arith, length-append {0} p (zeros 16)) in
    rw
      (
        n,
        take-append (length p) p (zeros 16) refl,
        drop-append (length p) p (zeros 16) refl,
        all_zero-zeros 16,
      )
      (ground (arith, length-append p (zeros 16)))

pub toy_unseal_sound :
    (key nonce aad c p : Bytes) → toy_unseal key nonce aad c ≡ some p → c ≡ toy_seal key nonce aad p
unfolding toy_unseal
toy_unseal_sound key nonce aad c p h =
    let n = length c - 16 in
    let rest : drop n c ≡ zeros 16 = ground (arith, all_zero_eq (drop n c), length-drop n c) in
    let front : p ≡ take n c = ground arith in rw (front, ← rest) (sym (take-append-drop n c))

abbrev pub toy_aead : Aead
toy_aead = record {
  seal = toy_seal;
  unseal = toy_unseal;
  p_max = 2 ^ 36;
  unseal-seal = toy_unseal-seal;
  unseal_sound = toy_unseal_sound;
  length-seal = λ k n a p. length-append p (zeros 16);
}

pub toy_url : (b : Bytes) → length b ≡ 16 → is_node_ref (replicate 22 b'A') ≡ true
unfolding is_node_ref
toy_url b h = refl

abbrev pub toy_encodings : Encodings
toy_encodings = record {
  hkdf32 = λ ikm info. zeros 32;
  encode = λ b. b;
  decode = λ t. some t;
  decode_no_pad = λ t. some t;
  encode_url = λ b. replicate 22 b'A';
  is_whitespace = λ c. false;
  length-hkdf32 = λ ikm info. refl;
  decode-encode = λ b. refl;
  encode_url_16 = toy_url;
}

unfoldable pub toy_compress : Bytes → Option Bytes
toy_compress b = if all_zero b then some (length b ∷ []) else none

unfoldable pub toy_decompress : Bytes → Bytes × Option ℕ
toy_decompress [] = ([], none)
toy_decompress (n ∷ []) = (zeros n, some 1)
toy_decompress (n ∷ m ∷ rest) = ([], none)

pub toy_gzip_law :
    (b : Bytes) {c : Bytes} → toy_compress b ≡ some c → toy_decompress c ≡ (b, some (length c))
unfolding toy_compress toy_decompress
toy_gzip_law b {c} h =
    let e : c ≡ length b ∷ [] = ground arith in
    let z : b ≡ zeros (length b) = all_zero_eq b (ground arith) in
    rw e (ap (λ (t : Bytes). (t, some 1)) (sym z))

abbrev pub toy_gzip : Gzip
toy_gzip = record {
  compress = toy_compress;
  decompress = toy_decompress;
  decompress-compress = toy_gzip_law;
}

-- A hash that adds up the bytes, and a key stream that changes nothing.
unfoldable pub sum : Bytes → ℕ
sum [] = 0
sum (x ∷ xs) = x + sum xs

pub sum-append : (n : ℕ) (xs ys : Bytes) → n + sum (xs ++ ys) ≡ n + sum xs + sum ys
unfolding sum
sum-append n [] ys = omega arith
sum-append n (x ∷ xs) ys = omega (arith, sum-append n xs ys)

pub sum-nil : (n : ℕ) → n + sum [] ≡ n
unfolding sum
sum-nil n = omega arith

pub plus_zero : (c : ℕ) → c + 0 ≡ c
plus_zero c = omega arith

pub plus_assoc : (c m n : ℕ) → c + m + n ≡ c + (m + n)
plus_assoc c m n = omega arith

abbrev pub toy_primitives : Primitives
toy_primitives = record {
  Ctr = ℕ;
  Ghash = ℕ;
  encrypt_block = λ key block. block;
  ctr_new = λ key block. 0;
  keystream = λ c xs. xs;
  advance = λ c n. c + n;
  ghash_new = λ h. 0;
  update_padded = λ g xs. g + sum xs;
  finalize = λ g. (g % 256) ∷ zeros 15;
  length-encrypt_block = λ key block h. h;
  length-keystream = λ c xs. refl;
  keystream-append = λ c xs ys. refl;
  advance-zero = plus_zero;
  advance-advance = plus_assoc;
  keystream-keystream = λ c xs. refl;
  update-nil = sum-nil;
  update-append = λ g xs ys h. sum-append g xs ys;
  length-finalize = λ g. refl;
}
