-- ===== src/Keys/Wrap.antt =====
-- Wrapping a file key and unwrapping it, and what every key that is unwrapped satisfies.
use lethean.Prelude.{
  ◌≤◌, ◌≡◌, refl, inl, inr, true, Option, none, some, [], ◌++◌, arith, ◌==◌, Bool-cases, length,
  drop, length-append, length-take, length-drop, take-append, drop-append, Bytes, Text, codes,
  eq_list, ok, ◌>>=◌, >>=-eq-ok,
}
use lethean.Meta.{is_node_ref}
use lethean.Crypto.{Aead, Encodings, from_base64, from_base64-encode, aes_gcm_decrypt_aad}
use lethean.Crypto.Seal.{encrypt_ok, decrypt-seal}
use lethean.Keys.{
  FileFormat, FileKey, file_key_len, binding_len, wrap_v2_len, wrap_v2_magic, new_v2, legacy_key,
  v2_key, wrap_plaintext, node_ref, wrap_file_key, parse_key, unwrap_file_key,
}

-- The two formats of a key: a v2 key carries a 16-byte binding, a legacy key none.
abbrev pub BindingFits : FileFormat → Option Bytes → Type 0
BindingFits FileFormat.legacy none = Unit
BindingFits FileFormat.legacy (some b) = ⊥
BindingFits FileFormat.v2 none = ⊥
BindingFits FileFormat.v2 (some b) = length b ≡ binding_len

pub record IsKey (k : FileKey) : Type 0 where
  pub sized : length k.raw ≡ file_key_len
  pub bound : BindingFits k.format k.binding

parse_key-v2 :
    (raw binding : Bytes)
    → length raw ≡ file_key_len
    → length binding ≡ binding_len
    → parse_key (wrap_v2_magic ++ (raw ++ binding)) ≡ ok (new_v2 binding raw)
unfolding parse_key v2_key eq_list
parse_key-v2 raw binding h k =
    rw (take-append file_key_len raw binding h, drop-append file_key_len raw binding h)
      (ground (arith, length-append raw binding))

parse-wrap_plaintext :
    (k : FileKey)
    → IsKey k
    → (pt : Bytes) × (wrap_plaintext k ≡ ok pt) × (parse_key pt ≡ ok k) × (length pt ≤ wrap_v2_len)
unfolding wrap_plaintext parse_key legacy_key
parse-wrap_plaintext k v = by_shape k.format k.binding refl refl v.bound
  where
    by_shape :
        (f : FileFormat) (b : Option Bytes)
        → k.format ≡ f
        → k.binding ≡ b
        → BindingFits f b
        → (pt : Bytes) × (wrap_plaintext k ≡ ok pt)
          × (parse_key pt ≡ ok k)
          × (length pt ≤ wrap_v2_len)
    by_shape FileFormat.legacy none ef eb h = (k.raw, ground arith, ground arith, omega arith)
    by_shape FileFormat.legacy (some b) ef eb h = absurd h
    by_shape FileFormat.v2 none ef eb h = absurd h
    by_shape FileFormat.v2 (some b) ef eb h = (
      wrap_v2_magic ++ (k.raw ++ b),
      ground arith,
      ground (arith, parse_key-v2 k.raw b v.sized h),
      ground (arith, length-append k.raw b),
    )

-- What is parsed as a key is a key of its format: 32 bytes, with a 16-byte binding if it is v2.
parse_key-IsKey : (pt : Bytes) {k : FileKey} → parse_key pt ≡ ok k → IsKey k
unfolding parse_key legacy_key v2_key
parse_key-IsKey pt {k} h = elim (Bool-cases (length pt == file_key_len)) [
  | inl short ↦ ground arith
  | inr other ↦ ground (arith, length-drop 36 pt, length-drop 4 pt, length-take 32 (drop 4 pt))
]

module _ (enc : Encodings) (aead : Aead) (wrapping_key : Bytes) where
  -- A key that is wrapped unwraps to itself, in its own format and with its own binding.
  pub unwrap-wrap_file_key :
      (k : FileKey) (iv : Bytes)
      → IsKey k
      → length wrapping_key ≡ 32
      → length iv ≡ 12
      → wrap_v2_len ≤ aead.p_max
      → (wrap_file_key enc aead wrapping_key k iv >>= λ w.
          unwrap_file_key enc aead wrapping_key w.0 w.1)
        ≡ ok k
  unfolding wrap_file_key unwrap_file_key
  unwrap-wrap_file_key k iv v wk ivs room =
      let (pt, wrapped, parsed, short) = parse-wrap_plaintext k v in
      rw (wrapped, encrypt_ok aead wrapping_key [] iv pt wk (omega arith))
        (rw
          (
            from_base64-encode enc,
            from_base64-encode enc,
            decrypt-seal aead wrapping_key [] iv pt wk ivs,
          )
          parsed)

  -- Whatever was stored, a key that unwraps is well formed.
  pub unwrap_file_key-IsKey :
      (wrapped_b64 iv_b64 : Text) {k : FileKey}
      → unwrap_file_key enc aead wrapping_key wrapped_b64 iv_b64 ≡ ok k
      → IsKey k
  unfolding unwrap_file_key
  unwrap_file_key-IsKey w i h =
      let (iv, _, h1) = >>=-eq-ok (from_base64 enc i) _ h in
      let (c, _, h2) = >>=-eq-ok (from_base64 enc w) _ h1 in
      let (pt, _, h3) = >>=-eq-ok (aes_gcm_decrypt_aad aead wrapping_key iv c []) _ h2 in
      parse_key-IsKey pt h3

-- The reference by which children name a folder's key is always well formed.
pub node_ref-is_node_ref : (enc : Encodings) (k : FileKey) → is_node_ref (node_ref enc k) ≡ true
unfolding node_ref
node_ref-is_node_ref enc k = enc.encode_url_16 _ (
    omega (
      arith,
      length-take {0} 16 (enc.hkdf32 k.raw (codes "lethean|node-ref|v2")),
      enc.length-hkdf32 k.raw (codes "lethean|node-ref|v2"),
    ))
