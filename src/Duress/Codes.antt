-- ===== src/Duress/Codes.antt =====
-- What a duress code opens: `setup_duress` and `check_duress` of `lethean_fuse/src/crypto/duress.rs`.
use lethean.Prelude.{
  ℕ, ◌*◌, ◌^◌, ◌≤◌, ◌<◌, ◌≡◌, refl, sym, ap, ◌∙◌, inl, inr, true, none, some, [], ◌++◌, arith, ◌==◌,
  if◌then◌else◌, Bool-cases, length, Bytes, Text, Error, Result, ok, err, >>=-eq-ok,
}
use lethean.Word.{u32_max}
use lethean.Crypto.{Aead, Encodings, from_base64, from_base64-encode}
use lethean.Crypto.Seal.{encrypt_ok, decrypt-seal, decrypt_sound}
use lethean.Gcm.Receive.{differs_iff}
use lethean.Kdf.{Hashes, kdf_params, current_kdf_version}
use lethean.Duress.{
  DuressConfig, DuressMatch, label_verifier, label_wrap, ct_eq, derive, seal, recognise,
  open_payload, open_config, check_duress, version_or_legacy,
}

-- The parameters and inputs that the crate `argon2` documents as valid (`Params::new`,
-- `hash_password_into`).
pub record Argon2Takes (memory iterations parallelism n : ℕ) (password salt : Bytes) : Type 0 where
  pub lanes : (1 ≤ parallelism) × (parallelism < 2 ^ 24)
  pub blocks : (8 * parallelism ≤ memory) × (memory ≤ u32_max)
  pub passes : (1 ≤ iterations) × (iterations ≤ u32_max)
  pub output : (4 ≤ n) × (n ≤ u32_max)
  pub password_fits : length password ≤ u32_max
  pub salt_fits : (8 ≤ length salt) × (length salt ≤ u32_max)

-- On valid parameters and inputs, Argon2 returns as many bytes as asked for; a SHA-256 digest is of 32
-- bytes.
pub record HashesWork (hashes : Hashes) : Type 0 where
  pub argon2 :
      (memory iterations parallelism n : ℕ) (password salt : Bytes)
      → Argon2Takes memory iterations parallelism n password salt
      → (out : Bytes) × (hashes.argon2id memory iterations parallelism n password salt ≡ some out)
        × (length out ≡ n)
  pub digest : (bytes : Bytes) → length (hashes.sha256 bytes) ≡ 32

ct_eq_refl : (a : Bytes) → ct_eq a a ≡ true
unfolding ct_eq
ct_eq_refl a =
    let same = (differs_iff a a refl).1 refl in
    let sized : (length a == length a) ≡ true = ground arith in rw (sized, same) refl

ct_eq_sound : (a b : Bytes) → ct_eq a b ≡ true → a ≡ b
unfolding ct_eq
ct_eq_sound a b h =
    let sized : length a ≡ length b = ground (arith, h) in
    (differs_iff a b sized).0 (ground (arith, h))

module _ (aead : Aead) (enc : Encodings) (hashes : Hashes) where
  utf8-injective : (s t : Text) → hashes.utf8 s ≡ hashes.utf8 t → s ≡ t
  utf8-injective s t e =
      some_eq (sym (hashes.from_utf8-utf8 s) ∙ ap hashes.from_utf8 e ∙ hashes.from_utf8-utf8 t)
    where
      some_eq : {a b : Text} → some a ≡ some b → a ≡ b
      some_eq e = cc

  check_opened :
      (input : Text) (cfg : DuressConfig) (found : Bytes × Bytes)
      → open_config aead enc hashes input cfg ≡ ok found
      → check_duress aead enc hashes input cfg ≡ (
          if ct_eq (hashes.utf8 (hashes.hex found.0)) (hashes.utf8 cfg.verifier)
          then recognise aead enc hashes found.1
          else none)
  unfolding check_duress
  check_opened input cfg found e =
      ap
        (λ (r : Result (Bytes × Bytes)). elim r [
          | err why ↦ none
          | ok f ↦
              if ct_eq (hashes.utf8 (hashes.hex f.0)) (hashes.utf8 cfg.verifier)
              then recognise aead enc hashes f.1
              else none
        ])
        e

  check_failed :
      (input : Text) (cfg : DuressConfig) (why : Error)
      → open_config aead enc hashes input cfg ≡ err why
      → check_duress aead enc hashes input cfg ≡ none
  unfolding check_duress
  check_failed input cfg why e =
      ap
        (λ (r : Result (Bytes × Bytes)). elim r [
          | err why ↦ none
          | ok f ↦
              if ct_eq (hashes.utf8 (hashes.hex f.0)) (hashes.utf8 cfg.verifier)
              then recognise aead enc hashes f.1
              else none
        ])
        e

  abbrev pub Opens : Text → DuressConfig → DuressMatch → Type 0
  Opens input cfg m =
      (salt : Bytes) × (verifier : Bytes) × (wrap : Bytes) × (nonce : Bytes) × (payload : Bytes)
      × (from_base64 enc cfg.salt ≡ ok salt)
      × (derive aead enc hashes input salt label_verifier (version_or_legacy cfg.kdf_version)
          ≡ ok verifier)
      × (cfg.verifier ≡ hashes.hex verifier)
      × (derive aead enc hashes input salt label_wrap (version_or_legacy cfg.kdf_version) ≡ ok wrap)
      × (from_base64 enc cfg.enc_vault_id ≡ ok (aead.seal wrap nonce [] payload))
      × (recognise aead enc hashes payload ≡ some m)

  -- A match means that the verifier is that of the code, and that the payload was sealed under the
  -- code's own key and says what was found.
  pub check_duress_sound :
      (input : Text) (cfg : DuressConfig) (m : DuressMatch)
      → check_duress aead enc hashes input cfg ≡ some m
      → Opens input cfg m
  unfolding open_config
  check_duress_sound input cfg m h = go (open_config aead enc hashes input cfg) refl
    where
      parts : (x y : Bytes × Bytes) → ok x ≡ ok y → (x.0 ≡ y.0) × (x.1 ≡ y.1)
      parts x y e = (cc, cc)

      go :
          (r : Result (Bytes × Bytes))
          → open_config aead enc hashes input cfg ≡ r
          → Opens input cfg m
      go (err why) e = let none_found = check_failed input cfg why e in cc
      go (ok (v, p)) e =
          let found = sym (check_opened input cfg (v, p) e) ∙ h in
          elim (Bool-cases (ct_eq (hashes.utf8 (hashes.hex v)) (hashes.utf8 cfg.verifier))) [
            | inr other ↦ absurd (ground (arith, other, found))
            | inl same ↦
                let (salt, e1, r1) = >>=-eq-ok (from_base64 enc cfg.salt) _ e in
                let (v', e2, r2) =
                  >>=-eq-ok
                    (derive aead enc hashes input salt label_verifier
                      (version_or_legacy cfg.kdf_version))
                    _ r1 in
                let (w, e3, r3) =
                  >>=-eq-ok
                    (derive aead enc hashes input salt label_wrap
                      (version_or_legacy cfg.kdf_version))
                    _ r2 in
                let (p', e4, r4) = >>=-eq-ok (open_payload aead enc hashes cfg w) _ r3 in
                let (nonce, e5, r5) = >>=-eq-ok (from_base64 enc cfg.iv) _ e4 in
                let (ct, e6, r6) = >>=-eq-ok (from_base64 enc cfg.enc_vault_id) _ r5 in
                let (vv, pp) = parts (v', p') (v, p) r4 in
                let matched : hashes.hex v ≡ cfg.verifier =
                  utf8-injective (hashes.hex v) cfg.verifier (ct_eq_sound _ _ same) in
                (
                  salt,
                  v',
                  w,
                  nonce,
                  p',
                  e1,
                  e2,
                  sym matched ∙ ap hashes.hex (sym vv),
                  e3,
                  e6 ∙ ap ok (decrypt_sound aead w [] nonce ct r6).0,
                  ap (recognise aead enc hashes) pp
                      ∙ sym (ap (λ b. if b then recognise aead enc hashes p else none) same)
                      ∙ found,
                )
          ]

  open_sealed :
      (salt iv : Bytes) (code : Text) (payload v w : Bytes)
      → length iv ≡ 12
      → length w ≡ 32
      → derive aead enc hashes code salt label_verifier current_kdf_version ≡ ok v
      → derive aead enc hashes code salt label_wrap current_kdf_version ≡ ok w
      → open_config aead enc hashes code (record {
        salt = enc.encode salt;
        verifier = hashes.hex v;
        enc_vault_id = enc.encode (aead.seal w iv [] payload);
        iv = enc.encode iv;
        kdf_version = some current_kdf_version;
      })
        ≡ ok (v, payload)
  unfolding open_config
  open_sealed salt iv code payload v w hi hw ve we =
      rw
        (
          from_base64-encode enc salt,
          ve,
          we,
          from_base64-encode enc iv,
          from_base64-encode enc (aead.seal w iv [] payload),
          decrypt-seal aead w [] iv payload hw hi,
        )
        refl

  module _ (works : HashesWork hashes) where
    derive_ok :
        (input : Text) (salt : Bytes) (label : Text)
        → length (hashes.utf8 input) ≤ u32_max
        → (key : Bytes) × (derive aead enc hashes input salt label current_kdf_version ≡ ok key)
          × (length key ≡ 32)
    unfolding derive kdf_params
    derive_ok input salt label small =
        let sized = works.digest (label ++ salt) in
        let (out, e, n) =
          works.argon2 262144 6 1 32 (hashes.utf8 input) (hashes.sha256 (label ++ salt)) (record {
            lanes = omega arith;
            blocks = omega arith;
            passes = omega arith;
            output = omega arith;
            password_fits = small;
            salt_fits = omega (arith, sized);
          }) in
        (out, rw e refl, n)

    -- Sealing a payload under a code makes a configuration in which the code finds this payload.
    pub seal-check :
        (salt iv : Bytes) (code : Text) (payload : Bytes)
        → length (hashes.utf8 code) ≤ u32_max
        → length iv ≡ 12
        → length payload ≤ aead.p_max
        → (c : DuressConfig) × (seal aead enc hashes salt iv code payload ≡ ok c)
          × (check_duress aead enc hashes code c ≡ recognise aead enc hashes payload)
    unfolding seal
    seal-check salt iv code payload small hi room =
        let (v, ve, vn) = derive_ok code salt label_verifier small in
        let (w, we, wn) = derive_ok code salt label_wrap small in
        let sealed = encrypt_ok aead w [] iv payload wn room in
        let c : DuressConfig = record {
          salt = enc.encode salt;
          verifier = hashes.hex v;
          enc_vault_id = enc.encode (aead.seal w iv [] payload);
          iv = enc.encode iv;
          kdf_version = some current_kdf_version;
        } in
        (
          c,
          rw (ve, we, sealed) refl,
          check_opened code c (v, payload) (open_sealed salt iv code payload v w hi wn ve we)
              ∙ ap (λ b. if b then recognise aead enc hashes payload else none)
                  (ct_eq_refl (hashes.utf8 (hashes.hex v))),
        )
