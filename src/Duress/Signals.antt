-- ===== src/Duress/Signals.antt =====
-- From setting a duress code to entering it: `save_code` and `check_and_signal` of
-- `lethean_fuse/src/duress.rs`.
use lethean.Prelude.{
  ◌+◌, ◌≤◌, ◌≡◌, refl, sym, ap, ◌∙◌, ◌≢◌, Bool, true, false, ◌&&◌, ◌||◌, Option, none, some, List,
  [], ◌∷◌, ◌++◌, arith, ◌==◌, if◌then◌else◌, length, take, drop, length-append, length-drop,
  take-append, Bytes, Text, eq_list, eq_list_iff, Error, Result, ok, err, ◌>>=◌,
}
use mathlib.Core.Path.{subst}
use lethean.Word.{u32_max}
use lethean.Crypto.{Aead, Encodings}
use lethean.Kdf.{Hashes}
use lethean.Duress.{
  DuressConfig, DuressMatch, check_duress, shred_payloads, setup_duress, setup_legacy_duress,
  sha256_hex, seal, recognise, v2_magic, shred_secret_len, payload_len,
}
use lethean.Duress.Codes.{HashesWork, seal-check}
use lethean.Duress.Sync.{
  ConfigJson, MemoryCache, save, RemoteDuress, fetch_with, choose_configs, configs_to_check, Signal,
  Upload, SaveScope, first_match, any_match, check_and_signal, signals_for, disarm, save_code,
  after_upload, keep_legacy, upload_made,
}

module _ (aead : Aead) (enc : Encodings) (hashes : Hashes) where
  abbrev is_some {ℓ} : {A : Type ℓ} → Option A → Bool
  is_some none = false
  is_some (some a) = true

  first_match-any :
      (password : Text) (configs : List DuressConfig) (matched : Option DuressMatch)
      → is_some (first_match aead enc hashes password configs matched)
        ≡ (is_some matched || any_match aead enc hashes password configs)
  unfolding first_match any_match
  first_match-any password [] matched = ground arith
  first_match-any password (c ∷ cs) (some m) = first_match-any password cs (some m)
  first_match-any password (c ∷ cs) none =
      first_match-any password cs (check_duress aead enc hashes password c)
      ∙ found (check_duress aead enc hashes password c)
    where
      found :
          (o : Option DuressMatch)
          → (is_some o || any_match aead enc hashes password cs)
            ≡ elim o [ some m ↦ true | none ↦ any_match aead enc hashes password cs ]
      found none = refl
      found (some m) = refl

  -- However unlocking goes, exactly one signal of each kind is sent; the answer is whether a checked
  -- configuration matches the password, and after a match the device holds the fresh decoy.
  pub check_and_signal_lem :
      (json : ConfigJson) (asked : Option (Result RemoteDuress)) (decoy fresh_decoy : DuressConfig)
      (stand_in : Bytes × Bytes) (password : Text) (cache : MemoryCache)
      → (let w =
            check_and_signal aead enc hashes json asked decoy fresh_decoy stand_in password cache in
          let checked = configs_to_check json asked decoy cache in
          ((a : Text) × (b : Text) × (w.1 ≡ Signal.shred_by_secret a ∷ Signal.shred_vault b ∷ []))
          × (w.0.1 ≡ any_match aead enc hashes password checked.1)
          × (w.0.0 ≡ (if w.0.1 then save fresh_decoy true checked.0 else checked.0)))
  unfolding check_and_signal signals_for
  check_and_signal_lem json asked decoy fresh_decoy stand_in password cache =
      let checked = configs_to_check json asked decoy cache in
      let matched = first_match aead enc hashes password checked.1 none in
      (
        (_, _, refl),
        answers matched checked.0 ∙ first_match-any password checked.1 none,
        holds matched checked.0,
      )
    where
      answers :
          (m : Option DuressMatch) (c : MemoryCache)
          → (disarm aead enc hashes fresh_decoy m c).1 ≡ is_some m
      answers none c = unfold disarm in refl
      answers (some m) c = unfold disarm in refl

      holds :
          (m : Option DuressMatch) (c : MemoryCache)
          → (disarm aead enc hashes fresh_decoy m c).0
            ≡ (if (disarm aead enc hashes fresh_decoy m c).1 then save fresh_decoy true c else c)
      holds none c = unfold disarm in refl
      holds (some m) c = unfold disarm in refl

  recognise_setup :
      (drawn filler : Bytes)
      → length drawn ≡ 32
      → length filler ≡ 64
      → recognise aead enc hashes (v2_magic ++ drawn ++ drop (4 + shred_secret_len) filler)
        ≡ some (DuressMatch.secret drawn)
  unfolding recognise eq_list
  recognise_setup drawn filler hd hf =
      let rest = drop (4 + shred_secret_len) filler in
      let size : (length (v2_magic ++ drawn ++ rest) == payload_len) ≡ true = ground (
        arith,
        hd,
        hf,
        length-append {0} drawn rest,
        length-drop {0} (4 + shred_secret_len) filler,
      ) in
      rw (size, take-append 32 drawn rest hd) refl

  recognise_id :
      (id : Text)
      → take 4 (hashes.utf8 id) ≢ v2_magic
      → recognise aead enc hashes (hashes.utf8 id) ≡ some (DuressMatch.legacy_vault id)
  unfolding recognise
  recognise_id id plain =
      let bytes = hashes.utf8 id in
      let other : (length bytes == payload_len && eq_list (take 4 bytes) v2_magic) ≡ false =
        ground (arith, plain, eq_list_iff (take 4 bytes) v2_magic) in
      rw (other, hashes.from_utf8-utf8 id) refl

  -- A code that the device's own configuration answers to, entered without the network.
  entered :
      (json : ConfigJson) (decoy fresh_decoy c : DuressConfig) (stand_in : Bytes × Bytes)
      (code : Text) (cache : MemoryCache) (synced : Bool) (m : DuressMatch)
      → check_duress aead enc hashes code c ≡ some m
      → check_and_signal aead enc hashes json none decoy fresh_decoy stand_in code
          (save c synced cache)
        ≡ (
          (save fresh_decoy true (save c synced cache), true),
          signals_for aead enc hashes stand_in (some m),
        )
  unfolding check_and_signal configs_to_check fetch_with choose_configs save first_match disarm
  entered json decoy fresh_decoy c stand_in code cache synced m e = rw e refl

  module _ (works : HashesWork hashes) (json : ConfigJson)
      (salt iv drawn filler legacy_salt legacy_iv : Bytes) (code vault_id : Text)
      (put : Text → Text → Result (Unit {0})) (cache : MemoryCache) where
    abbrev pub saved : (MemoryCache × Result SaveScope) × List Upload
    saved =
        save_code aead enc hashes json put salt iv drawn filler legacy_salt legacy_iv code vault_id
          cache

    abbrev payload : Bytes
    payload = v2_magic ++ drawn ++ drop (4 + shred_secret_len) filler

    payload_fits :
        length drawn ≡ 32 → length filler ≡ 64 → 64 ≤ aead.p_max → length payload ≤ aead.p_max
    payload_fits hd hf room = omega (
      arith,
      hd,
      hf,
      length-append {0} drawn (drop (4 + shred_secret_len) filler),
      length-drop {0} (4 + shred_secret_len) filler,
    )

    uploaded :
        (c : DuressConfig)
        → seal aead enc hashes salt iv code payload ≡ ok c
        → (answer : Result (Unit {0}))
        → put (json.to_json c) (sha256_hex aead enc hashes drawn) ≡ answer
        → saved ≡ (
          after_upload aead enc hashes cache
              (setup_legacy_duress aead enc hashes legacy_salt legacy_iv code vault_id)
              c
              answer,
          record { blob = json.to_json c; hash = hashes.hex (hashes.sha256 drawn) } ∷ [],
        )
    unfolding save_code upload_made setup_duress sha256_hex
    uploaded c made answer e =
        let legacy = setup_legacy_duress aead enc hashes legacy_salt legacy_iv code vault_id in
        let sent : List Upload =
          record { blob = json.to_json c; hash = hashes.hex (hashes.sha256 drawn) } ∷ [] in
        ap
          (λ r.
            upload_made aead enc hashes json put cache legacy (r >>= λ config. ok (config, drawn)))
          made
        ∙ ap (λ a. (after_upload aead enc hashes cache legacy c a, sent)) e

    then_entered :
        (c : DuressConfig) (synced : Bool) (m : DuressMatch) (decoy fresh_decoy : DuressConfig)
        (stand_in : Bytes × Bytes)
        → saved.0.0 ≡ save c synced cache
        → check_duress aead enc hashes code c ≡ some m
        → check_and_signal aead enc hashes json none decoy fresh_decoy stand_in code saved.0.0
          ≡ ((save fresh_decoy true saved.0.0, true), signals_for aead enc hashes stand_in (some m))
    then_entered c synced m decoy fresh_decoy stand_in e found =
        subst
          (λ held.
            check_and_signal aead enc hashes json none decoy fresh_decoy stand_in code held
            ≡ ((save fresh_decoy true held, true), signals_for aead enc hashes stand_in (some m)))
          (sym e) (entered json decoy fresh_decoy c stand_in code cache synced m found)

    -- When the server takes a code, it was sent one upload, of the configuration that the device now holds
    -- as uploaded and of the hash of the drawn secret. Entering the code on this device, without the
    -- network, sends this very secret, answers that it was a duress code, and leaves the decoy. This holds
    -- when Argon2 and SHA-256 work as documented, the code has less than 2 ^ 32 bytes, the nonce, the
    -- secret and the filler have their sizes of 12, 32 and 64 bytes, and the cipher takes 64 bytes.
    pub check_and_signal-saved :
        ((blob hash : Text) → put blob hash ≡ ok tt)
        → length (hashes.utf8 code) ≤ u32_max
        → length iv ≡ 12
        → length drawn ≡ 32
        → length filler ≡ 64
        → 64 ≤ aead.p_max
        → (decoy fresh_decoy : DuressConfig) (stand_in : Bytes × Bytes)
        → (config : DuressConfig) × (saved ≡ (
          (save config true cache, ok SaveScope.all_devices),
          record { blob = json.to_json config; hash = hashes.hex (hashes.sha256 drawn) } ∷ [],
        ))
          × (check_and_signal aead enc hashes json none decoy fresh_decoy stand_in code saved.0.0
              ≡ (
                (save fresh_decoy true saved.0.0, true),
                Signal.shred_by_secret (enc.encode drawn)
                    ∷ Signal.shred_vault (hashes.hex stand_in.1)
                    ∷ [],
              ))
    unfolding after_upload signals_for shred_payloads
    check_and_signal-saved takes small hi hd hf room decoy fresh_decoy stand_in =
        let (c, made, found) =
          seal-check aead enc hashes works salt iv code payload small hi
            (payload_fits hd hf room) in
        let stored : saved ≡ (
          (save c true cache, ok SaveScope.all_devices),
          record { blob = json.to_json c; hash = hashes.hex (hashes.sha256 drawn) } ∷ [],
        ) =
          uploaded c made (ok tt) (takes (json.to_json c) (sha256_hex aead enc hashes drawn)) in
        let opened = found ∙ recognise_setup drawn filler hd hf in
        (
          c,
          stored,
          then_entered c true (DuressMatch.secret drawn) decoy fresh_decoy stand_in
              (ap (λ w. w.0.0) stored) opened,
        )

    -- A server without the endpoint leaves the code on this device only, not as uploaded; entering it
    -- without the network sends the id of the vault itself and leaves the decoy: when Argon2 and SHA-256
    -- work as documented, the code has less than 2 ^ 32 bytes, the draws have their sizes, the cipher
    -- takes 64 bytes and the id, and the id does not begin as a payload with a secret does.
    pub check_and_signal-kept_legacy :
        ((blob hash : Text) → put blob hash ≡ err Error.missing_endpoint)
        → length (hashes.utf8 code) ≤ u32_max
        → length iv ≡ 12
        → length legacy_iv ≡ 12
        → length drawn ≡ 32
        → length filler ≡ 64
        → 64 ≤ aead.p_max
        → length (hashes.utf8 vault_id) ≤ aead.p_max
        → take 4 (hashes.utf8 vault_id) ≢ v2_magic
        → (decoy fresh_decoy : DuressConfig) (stand_in : Bytes × Bytes)
        → (saved.0.1 ≡ ok SaveScope.this_device_only)
          × (saved.0.0.inner.synced ≡ false)
          × (check_and_signal aead enc hashes json none decoy fresh_decoy stand_in code saved.0.0
              ≡ (
                (save fresh_decoy true saved.0.0, true),
                Signal.shred_by_secret (enc.encode stand_in.0) ∷ Signal.shred_vault vault_id ∷ [],
              ))
    unfolding after_upload keep_legacy signals_for shred_payloads save setup_legacy_duress
    check_and_signal-kept_legacy lacks small hi hl hd hf room fits plain decoy fresh_decoy
          stand_in =
        let (c, made, _) =
          seal-check aead enc hashes works salt iv code payload small hi
            (payload_fits hd hf room) in
        let (c', made', found) =
          seal-check aead enc hashes works legacy_salt legacy_iv code (hashes.utf8 vault_id) small
            hl fits in
        let stored : saved.0 ≡ (save c' false cache, ok SaveScope.this_device_only) =
          ap (λ w. w.0)
            (uploaded c made (err Error.missing_endpoint)
              (lacks (json.to_json c) (sha256_hex aead enc hashes drawn)))
          ∙ ap (keep_legacy aead enc hashes cache) made' in
        let opened = found ∙ recognise_id vault_id plain in
        (
          ap (λ w. w.1) stored,
          ap (λ w. w.0.inner.synced) stored,
          then_entered c' false (DuressMatch.legacy_vault vault_id) decoy fresh_decoy stand_in
              (ap (λ w. w.0) stored) opened,
        )
