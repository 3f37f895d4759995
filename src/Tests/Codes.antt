-- ===== src/Tests/Codes.antt =====
-- Passwords and duress codes at concrete inputs.
use lethean.Prelude.{
  ℕ, ◌*◌, ◌≤◌, ◌≡◌, refl, ◌≢◌, ◌↔◌, ◌⊎◌, true, false, none, some, [], ◌∷◌, ◌++◌, arith,
  if◌then◌else◌, length, replicate, Bytes, Text, codes, eq_list, eq_list_iff, all_zero, zeros,
  length-zeros, Error, ok, err,
}
use lethean.Crypto.{from_base64, aes_gcm_decrypt_aad}
use lethean.Kdf.{Hashes, kdf_params, validate_password_strength, sequences, count_of}
use lethean.Kdf.Classes.{HasThree}
use lethean.Kdf.Runs.{HoldsNoRun}
use lethean.Kdf.Accepts.{validate_password_iff}
use lethean.Duress.{
  DuressConfig, DuressMatch, check_duress, open_config, derive, ct_eq, recognise, v2_magic,
}
use lethean.Gcm.Decrypt.{differs}
use lethean.Duress.Codes.{HashesWork, check_duress_sound, Opens}
use lethean.Duress.Keeps.{unsynced, unsynced_code_stays}
use lethean.Duress.Signals.{
  check_and_signal_lem, saved, check_and_signal-saved, check_and_signal-kept_legacy,
}
use lethean.Duress.Sync.{
  ConfigJson, MemoryCache, save, configs_to_check, reconcile, any_match, Signal, SaveScope,
  check_and_signal, is_duress_code,
}
use lethean.Tests.Toy.{toy_aead, toy_encodings, toy_unseal}

-- Hashes that are all zero, and texts that stand for their own encodings.
abbrev toy_hashes : Hashes
toy_hashes = record {
  sha256 = λ b. zeros 32;
  argon2id = λ m i p n pw salt. some (zeros n);
  hkdf = λ key info n. some (zeros n);
  hex = λ b. b;
  utf8 = λ t. t;
  from_utf8 = λ b. some b;
  lowercase = λ t. t;
  from_utf8-utf8 = λ t. refl;
}

abbrev toy_config : DuressConfig
toy_config = record {
  salt = zeros 16;
  verifier = zeros 32;
  enc_vault_id = codes "vault" ++ zeros 16;
  iv = zeros 12;
  kdf_version = some 2;
}

abbrev toy_json : ConfigJson
toy_json = record { to_json = λ c. c.salt; from_json = λ t. some toy_config }

apart_texts : (s t : Text) → eq_list s t ≡ false → s ≢ t
apart_texts s t h e = let same = (eq_list_iff s t).1 e in ground (arith, h, same)

toy_works : HashesWork toy_hashes
toy_works = record {
  argon2 = λ m i p n pw salt fine. (zeros n, refl, length-zeros n);
  digest = λ b. refl;
}

abbrev empty_cache : MemoryCache
empty_cache = record { inner = record { config = none; synced = false }; noticed = false }

validate_password_iff_example :
    ((validate_password_strength toy_hashes (codes "abc")).valid ≡ true) ↔ (
      (12 ≤ length (codes "abc"))
      × (length (codes "abc") ≤ 256)
      × ((20 ≤ length (codes "abc")) ⊎ HasThree (codes "abc"))
      × HoldsNoRun (codes "abc") 5 sequences
      × ((c : ℕ) → 2 * count_of c (codes "abc") ≤ length (codes "abc")))
validate_password_iff_example = validate_password_iff toy_hashes (codes "abc")

unsynced_code_stays_example :
    (let device = unsynced toy_config true in
      let w =
        check_and_signal toy_aead toy_encodings toy_hashes toy_json none toy_config toy_config
          (zeros 32, zeros 32)
          (codes "code")
          device in
      (w.0.0 ≡ (if w.0.1 then save toy_config true device else device))
      × ((check_duress toy_aead toy_encodings toy_hashes (codes "code") toy_config ≡ none)
          ⊎ (w.0.1 ≡ true))
      × ((is_duress_code toy_aead toy_encodings toy_hashes toy_json none toy_config
            (codes "code")
            device).0
          ≡ device)
      × ((reconcile toy_json none (λ b. ok tt) toy_config device).0.inner.config ≡ some toy_config))
unsynced_code_stays_example =
    unsynced_code_stays toy_aead toy_encodings toy_hashes toy_config true toy_json none (λ b. ok tt)
      toy_config toy_config (zeros 32, zeros 32) (codes "code")

check_duress_sound_example :
    Opens toy_aead toy_encodings toy_hashes
      (codes "code")
      toy_config
      (DuressMatch.legacy_vault (codes "vault"))
check_duress_sound_example =
    check_duress_sound toy_aead toy_encodings toy_hashes (codes "code") toy_config
      (DuressMatch.legacy_vault (codes "vault"))
      (unfold check_duress open_config from_base64 derive kdf_params aes_gcm_decrypt_aad toy_unseal
          ct_eq differs recognise all_zero eq_list in
        refl)

abbrev drawn_secret : Bytes
drawn_secret = replicate 32 7

check_and_signal-saved_example :
    (let w =
        saved toy_aead toy_encodings toy_hashes toy_works toy_json
          (zeros 16)
          (zeros 12)
          drawn_secret
          (zeros 64)
          (zeros 16)
          (zeros 12)
          (codes "code")
          (codes "vault")
          (λ b h. ok tt)
          empty_cache in
      (config : DuressConfig) × (w ≡ (
        (save config true empty_cache, ok SaveScope.all_devices),
        record { blob = toy_json.to_json config; hash = zeros 32 } ∷ [],
      ))
      × (check_and_signal toy_aead toy_encodings toy_hashes toy_json none toy_config toy_config
            (zeros 32, zeros 32)
            (codes "code")
            w.0.0
          ≡ (
            (save toy_config true w.0.0, true),
            Signal.shred_by_secret drawn_secret ∷ Signal.shred_vault (zeros 32) ∷ [],
          )))
check_and_signal-saved_example =
    check_and_signal-saved toy_aead toy_encodings toy_hashes toy_works toy_json (zeros 16)
      (zeros 12) drawn_secret (zeros 64) (zeros 16) (zeros 12) (codes "code") (codes "vault")
      (λ b h. ok tt) empty_cache (λ b h. refl) (omega arith) refl refl refl (omega arith) toy_config
      toy_config (zeros 32, zeros 32)

check_and_signal-kept_legacy_example :
    (let w =
        saved toy_aead toy_encodings toy_hashes toy_works toy_json
          (zeros 16)
          (zeros 12)
          drawn_secret
          (zeros 64)
          (zeros 16)
          (zeros 12)
          (codes "code")
          (codes "vault")
          (λ b h. err Error.missing_endpoint)
          empty_cache in
      (w.0.1 ≡ ok SaveScope.this_device_only)
      × (w.0.0.inner.synced ≡ false)
      × (check_and_signal toy_aead toy_encodings toy_hashes toy_json none toy_config toy_config
            (zeros 32, zeros 32)
            (codes "code")
            w.0.0
          ≡ (
            (save toy_config true w.0.0, true),
            Signal.shred_by_secret (zeros 32) ∷ Signal.shred_vault (codes "vault") ∷ [],
          )))
check_and_signal-kept_legacy_example =
    check_and_signal-kept_legacy toy_aead toy_encodings toy_hashes toy_works toy_json (zeros 16)
      (zeros 12) drawn_secret (zeros 64) (zeros 16) (zeros 12) (codes "code") (codes "vault")
      (λ b h. err Error.missing_endpoint) empty_cache (λ b h. refl) (omega arith) refl refl refl
      refl (omega arith) (omega arith)
      (apart_texts (codes "vaul") v2_magic (unfold eq_list in refl)) toy_config toy_config
      (zeros 32, zeros 32)

check_and_signal_lem_example :
    (let w =
        check_and_signal toy_aead toy_encodings toy_hashes toy_json none toy_config toy_config
          (zeros 32, zeros 32)
          (codes "code")
          empty_cache in
      let checked = configs_to_check toy_json none toy_config empty_cache in
      ((a : Text) × (b : Text) × (w.1 ≡ Signal.shred_by_secret a ∷ Signal.shred_vault b ∷ []))
      × (w.0.1 ≡ any_match toy_aead toy_encodings toy_hashes (codes "code") checked.1)
      × (w.0.0 ≡ (if w.0.1 then save toy_config true checked.0 else checked.0)))
check_and_signal_lem_example =
    check_and_signal_lem toy_aead toy_encodings toy_hashes toy_json none toy_config toy_config
      (zeros 32, zeros 32) (codes "code") empty_cache
