-- ===== src/Duress.antt =====
-- Duress codes, `lethean_fuse/src/crypto/duress.rs`: a code that hides a secret, or the id of a vault,
-- behind the code's own key.
pub mod Codes
pub mod Keeps
pub mod Signals
pub mod Sync
use lethean.Prelude.{
  ℕ, zero, suc, ◌+◌, ◌-◌, ◌*◌, ◌/◌, ◌%◌, ◌^◌, ◌≤◌, ◌<◌, min, max, ◌≡◌, refl, sym, ap, ◌∙◌, ◌≢◌, ◌↔◌,
  ◌⊎◌, inl, inr, Bool, true, false, ◌&&◌, ◌||◌, not, Option, none, some, List, [], ◌∷◌, ◌++◌, map,
  append_assoc, append-nil, arith, ltb, leb, ◌==◌, if◌then◌else◌, ltb→lt, lt→ltb, leb→le, ==_iff,
  Bool-cases, Option-cases, length, get_elem?, get_or, set, take, drop, replicate, length-append,
  length-set, get_elem?-set_self, get_elem?-set_ne, take-append-drop, length-take, length-drop,
  length-replicate, take_of_le, take-append, drop-append, take-append_le, drop-append_le,
  take-append_ge, drop-append_ge, drop-drop, drop-nil, Bytes, Text, codes, eq_list, eq_list_iff,
  eq_list_refl, all_zero, zeros, length-zeros, all_zero-zeros, all_zero_eq, all_zero-append,
  utf8_width, utf8_len, utf16_width, utf16_len, is_empty, Error, Result, ok, err, ◌>>=◌, ◌>>◌,
  guard, ok_or, >>=-eq-ok,
}
use lethean.Crypto.{Aead, Encodings, from_base64, Sealed, aes_gcm_encrypt_aad, aes_gcm_decrypt_aad}
use lethean.Gcm.Decrypt.{differs}
use lethean.Kdf.{Hashes, kdf_params, current_kdf_version, default_legacy_kdf_version}

abbrev pub v2_magic : Bytes
v2_magic = codes "DRS2"

abbrev pub payload_len : ℕ
payload_len = 64

abbrev pub shred_secret_len : ℕ
shred_secret_len = 32

abbrev pub label_verifier : Text
label_verifier = codes "e2ee-vault|duress-verifier|v1"

abbrev pub label_wrap : Text
label_wrap = codes "e2ee-vault|duress-wrap|v1"

pub record DuressConfig : Type 0 where
  pub salt : Text
  pub verifier : Text
  pub enc_vault_id : Text
  pub iv : Text
  pub kdf_version : Option ℕ

pub data DuressMatch : Type 0 where
  secret : Bytes → DuressMatch
  legacy_vault : Text → DuressMatch

-- The comparison goes over the pairs of `zip` once the lengths are equal.
unfoldable pub ct_eq : Bytes → Bytes → Bool
ct_eq a b = if not (length a == length b) then false else not (differs a b)

abbrev version_or_legacy : Option ℕ → ℕ
version_or_legacy none = default_legacy_kdf_version
version_or_legacy (some v) = v

module _ (aead : Aead) (enc : Encodings) (hashes : Hashes) where
  open hashes use {sha256, argon2id, hex, utf8, from_utf8}

  unfoldable pub derive : Text → Bytes → Text → ℕ → Result Bytes
  derive input salt label kdf_version = do
    p ← kdf_params kdf_version
    ok_or
        (argon2id p.memory_kib p.iterations p.parallelism p.hash_len (utf8 input)
          (sha256 (label ++ salt)))
        Error.hashing_failed

  -- `seal`; the salt and the nonce are drawn.
  unfoldable pub seal : (salt iv : Bytes) → Text → Bytes → Result DuressConfig
  seal salt iv code payload = do
    verifier ← derive code salt label_verifier current_kdf_version
    wrap ← derive code salt label_wrap current_kdf_version
    sealed ← aes_gcm_encrypt_aad aead wrap payload [] iv
    ok (record {
      salt = enc.encode salt;
      verifier = hex verifier;
      enc_vault_id = enc.encode sealed.ciphertext;
      iv = enc.encode sealed.iv;
      kdf_version = some current_kdf_version;
    })

  -- `setup_duress`; the secret and the bytes that fill the payload are drawn.
  unfoldable pub setup_duress :
      (salt iv drawn filler : Bytes) → Text → Result (DuressConfig × Bytes)
  setup_duress salt iv drawn filler code = do
    config ← seal salt iv code (v2_magic ++ drawn ++ drop (4 + shred_secret_len) filler)
    ok (config, drawn)

  unfoldable pub setup_legacy_duress : (salt iv : Bytes) → Text → Text → Result DuressConfig
  setup_legacy_duress salt iv code real_vault_id = seal salt iv code (utf8 real_vault_id)

  -- `decoy_config`, of four draws.
  unfoldable pub decoy_config : (salt verifier vault iv : Bytes) → DuressConfig
  decoy_config salt verifier vault iv = record {
    salt = enc.encode salt;
    verifier = hex verifier;
    enc_vault_id = enc.encode vault;
    iv = enc.encode iv;
    kdf_version = some current_kdf_version;
  }

  -- What an opened payload says.
  unfoldable pub recognise : Bytes → Option DuressMatch
  recognise payload =
      if length payload == payload_len && eq_list (take 4 payload) v2_magic
      then some (DuressMatch.secret (take shred_secret_len (drop 4 payload)))
      else elim (from_utf8 payload) [ none ↦ none | some id ↦ some (DuressMatch.legacy_vault id) ]

  abbrev pub open_payload : DuressConfig → Bytes → Result Bytes
  open_payload cfg wrap = do
    iv ← from_base64 enc cfg.iv
    sealed ← from_base64 enc cfg.enc_vault_id
    aes_gcm_decrypt_aad aead wrap iv sealed []

  -- Both keys are derived and the payload is opened before the verifier decides.
  unfoldable pub open_config : Text → DuressConfig → Result (Bytes × Bytes)
  open_config input cfg = do
    salt ← from_base64 enc cfg.salt
    verifier ← derive input salt label_verifier (version_or_legacy cfg.kdf_version)
    wrap ← derive input salt label_wrap (version_or_legacy cfg.kdf_version)
    payload ← open_payload cfg wrap
    ok (verifier, payload)

  unfoldable pub check_duress : Text → DuressConfig → Option DuressMatch
  check_duress input cfg = elim (open_config input cfg) [
    | err why ↦ none
    | ok found ↦ if ct_eq (utf8 (hex found.0)) (utf8 cfg.verifier) then recognise found.1 else none
  ]

  unfoldable pub sha256_hex : Bytes → Text
  sha256_hex bytes = hex (sha256 bytes)

  -- `shred_payloads`, with the two draws that stand in.
  unfoldable pub shred_payloads : (drawn vault : Bytes) → Option DuressMatch → Text × Text
  shred_payloads drawn vault none = (enc.encode drawn, hex vault)
  shred_payloads drawn vault (some (DuressMatch.secret s)) = (enc.encode s, hex vault)
  shred_payloads drawn vault (some (DuressMatch.legacy_vault v)) = (enc.encode drawn, v)
