-- ===== src/Duress/Sync.antt =====
-- The duress code on the device and on the server, `lethean_fuse/src/duress.rs`. A function takes the
-- server's answers to the calls that it makes, and returns the signals that it sends.
use lethean.Prelude.{
  ℕ, Bool, true, false, ◌&&◌, ◌||◌, not, Option, none, some, List, [], ◌∷◌, ◌==◌, if◌then◌else◌,
  Bytes, Text, eq_list, is_empty, Error, Result, ok, err, ◌>>=◌, ◌>>◌, guard, ok_or,
}
use lethean.Crypto.{Aead, Encodings}
use lethean.Kdf.{Hashes}
use lethean.Duress.{
  DuressConfig, DuressMatch, check_duress, shred_payloads, setup_duress, setup_legacy_duress,
  sha256_hex,
}

-- `serde_json` on the configuration.
pub record ConfigJson : Type 0 where
  pub to_json : DuressConfig → Text
  pub from_json : Text → Option DuressConfig

pub record LocalDuress : Type 0 where
  pub config : Option DuressConfig
  pub synced : Bool

-- `MemoryCache`: what `load` returns, and whether a conflict was noticed.
pub record MemoryCache : Type 0 where
  pub inner : LocalDuress
  pub noticed : Bool

unfoldable pub save : DuressConfig → Bool → MemoryCache → MemoryCache
save config synced cache = record cache { inner = record { config = some config; synced = synced } }

unfoldable pub set_conflict_noticed : MemoryCache → MemoryCache
set_conflict_noticed cache = record cache { noticed = true }

-- The equality that `PartialEq` derives.
abbrev pub same_version : Option ℕ → Option ℕ → Bool
same_version none none = true
same_version none (some n) = false
same_version (some m) none = false
same_version (some m) (some n) = m == n

unfoldable pub same_config : DuressConfig → DuressConfig → Bool
same_config a b =
    eq_list a.salt b.salt
    && eq_list a.verifier b.verifier
    && eq_list a.enc_vault_id b.enc_vault_id
    && eq_list a.iv b.iv
    && same_version a.kdf_version b.kdf_version

unfoldable pub valid : DuressConfig → Bool
valid c =
    not (is_empty c.salt)
    && not (is_empty c.verifier)
    && not (is_empty c.enc_vault_id)
    && not (is_empty c.iv)

-- `RemoteDuress`
pub record RemoteDuress : Type 0 where
  pub blob : Text
  pub written : Option Bool

unfoldable pub fetch : ConfigJson → Result RemoteDuress → Result (DuressConfig × Option Bool)
fetch json answer = do
  remote ← answer
  c ← ok_or (json.from_json remote.blob) Error.malformed_duress
  guard (valid c) Error.malformed_duress
  ok (c, remote.written)

-- `token.and_then(|t| fetch(api, t, None).ok())`; the answer is that to the call with a token.
unfoldable pub fetch_with : ConfigJson → Option (Result RemoteDuress) → Option DuressConfig
fetch_with json none = none
fetch_with json (some answer) = elim (fetch json answer) [
  | err why ↦ none
  | ok found ↦ some found.0
]

-- The match on the server's settings and the device's.
unfoldable pub choose_configs :
    (remote local : Option DuressConfig)
    → (decoy : DuressConfig) → MemoryCache
    → MemoryCache × List DuressConfig
choose_configs (some r) (some l) decoy cache =
    if not cache.inner.synced && not (same_config l r)
    then (cache, r ∷ l ∷ [])
    else if not cache.inner.synced
    then (cache, r ∷ [])
    else (save r true cache, r ∷ [])
choose_configs (some r) none decoy cache = (save r true cache, r ∷ [])
choose_configs none (some l) decoy cache = (cache, l ∷ [])
choose_configs none none decoy cache = (save decoy true cache, decoy ∷ [])

unfoldable pub configs_to_check :
    ConfigJson
    → (asked : Option (Result RemoteDuress)) → (decoy : DuressConfig) → MemoryCache
    → MemoryCache × List DuressConfig
configs_to_check json asked decoy cache =
    choose_configs (fetch_with json asked) cache.inner.config decoy cache

-- What `reconcile` does with the server's settings, by the server's word on whether they were written.
unfoldable pub settle_remote :
    (put : DuressConfig → Result (Unit {0}))
    → (decoy remote : DuressConfig) → Option Bool
    → MemoryCache
    → MemoryCache × Bool
settle_remote put decoy remote none cache =
    if cache.inner.synced || no_config cache.inner.config
    then (save remote true cache, false)
    else (cache, false)
  where
    no_config : Option DuressConfig → Bool
    no_config none = true
    no_config (some c) = false
settle_remote put decoy remote (some false) cache =
    let config = chosen cache.inner.config cache.inner.synced in
    elim (put config) [ err why ↦ (cache, false) | ok done ↦ (save config true cache, false) ]
  where
    chosen : Option DuressConfig → Bool → DuressConfig
    chosen (some c) false = c
    chosen (some c) true = decoy
    chosen none synced = decoy
settle_remote put decoy remote (some true) cache = elim cache.inner.config [
  | none ↦ (save remote true cache, false)
  | some l ↦
      if not cache.inner.synced && not (same_config l remote)
      then if cache.noticed then (cache, false) else (set_conflict_noticed cache, true)
      else (save remote true cache, false)
]

unfoldable pub reconcile_with :
    (put : DuressConfig → Result (Unit {0}))
    → (decoy : DuressConfig) → Result (DuressConfig × Option Bool)
    → MemoryCache
    → MemoryCache × Bool
reconcile_with put decoy (err why) cache = (cache, false)
reconcile_with put decoy (ok found) cache = settle_remote put decoy found.0 found.1 cache

-- `reconcile`; no answer when there is no token. The upload carries `config.to_json()`.
unfoldable pub reconcile :
    ConfigJson
    → Option (Result RemoteDuress)
    → (put : Text → Result (Unit {0})) → (decoy : DuressConfig) → MemoryCache
    → MemoryCache × Bool
reconcile json none put decoy cache = (cache, false)
reconcile json (some answer) put decoy cache =
    reconcile_with (λ c. put (json.to_json c)) decoy (fetch json answer) cache

pub data Signal : Type 0 where
  shred_by_secret shred_vault : Text → Signal

-- What `put_duress` sends.
pub record Upload : Type 0 where
  pub blob : Text
  pub hash : Text

pub data SaveScope : Type 0 where
  all_devices this_device_only : SaveScope

module _ (aead : Aead) (enc : Encodings) (hashes : Hashes) where
  -- The loop over the configurations: every one is checked, the first match counts.
  unfoldable pub first_match : Text → List DuressConfig → Option DuressMatch → Option DuressMatch
  first_match password [] matched = matched
  first_match password (cfg ∷ cfgs) matched =
      let m = check_duress aead enc hashes password cfg in
      first_match password cfgs (elim matched [ none ↦ m | some found ↦ some found ])

  -- The two calls, whose outcomes are ignored; `stand_in` are the draws of `shred_payloads`.
  unfoldable pub signals_for : (stand_in : Bytes × Bytes) → Option DuressMatch → List Signal
  signals_for stand_in matched =
      let (secret_b64, vault_id) = shred_payloads aead enc hashes stand_in.0 stand_in.1 matched in
      Signal.shred_by_secret secret_b64 ∷ Signal.shred_vault vault_id ∷ []

  -- `if matched.is_some() { .. }`, and the answer.
  unfoldable pub disarm : DuressConfig → Option DuressMatch → MemoryCache → MemoryCache × Bool
  disarm fresh_decoy none cache = (cache, false)
  disarm fresh_decoy (some m) cache = (save fresh_decoy true cache, true)

  unfoldable pub check_and_signal :
      ConfigJson
      → Option (Result RemoteDuress)
      → (decoy fresh_decoy : DuressConfig) → (stand_in : Bytes × Bytes) → Text
      → MemoryCache
      → (MemoryCache × Bool) × List Signal
  check_and_signal json asked decoy fresh_decoy stand_in password cache =
      let (cache', configs) = configs_to_check json asked decoy cache in
      let matched = first_match password configs none in
      (disarm fresh_decoy matched cache', signals_for stand_in matched)

  unfoldable pub any_match : Text → List DuressConfig → Bool
  any_match code [] = false
  any_match code (c ∷ cs) = elim (check_duress aead enc hashes code c) [
    | some m ↦ true
    | none ↦ any_match code cs
  ]

  unfoldable pub is_duress_code :
      ConfigJson
      → Option (Result RemoteDuress)
      → DuressConfig
      → Text
      → MemoryCache
      → MemoryCache × Bool
  is_duress_code json asked decoy code cache =
      let (cache', configs) = configs_to_check json asked decoy cache in
      (cache', any_match code configs)

  unfoldable pub keep_legacy : MemoryCache → Result DuressConfig → MemoryCache × Result SaveScope
  keep_legacy cache (err why) = (cache, err why)
  keep_legacy cache (ok config) = (save config false cache, ok SaveScope.this_device_only)

  -- `Error.missing_endpoint` stands for what `is_missing_endpoint` tells apart.
  unfoldable pub after_upload :
      MemoryCache
      → (legacy : Result DuressConfig) → (config : DuressConfig) → Result (Unit {0})
      → MemoryCache × Result SaveScope
  after_upload cache legacy config answer = elim answer [
    | ok done ↦ (save config true cache, ok SaveScope.all_devices)
    | err Error.missing_endpoint ↦ keep_legacy cache legacy
    | err why ↦ (cache, err why)
  ]

  -- `put` answers the upload of a blob and of the hash of the secret; the uploads that are sent are
  -- returned.
  unfoldable pub upload_made :
      ConfigJson
      → (put : Text → Text → Result (Unit {0})) → MemoryCache
      → (legacy : Result DuressConfig) → Result (DuressConfig × Bytes)
      → (MemoryCache × Result SaveScope) × List Upload
  upload_made json put cache legacy (err why) = ((cache, err why), [])
  upload_made json put cache legacy (ok made) =
      let blob = json.to_json made.0 in
      let hash = sha256_hex aead enc hashes made.1 in
      (after_upload cache legacy made.0 (put blob hash), record { blob = blob; hash = hash } ∷ [])

  unfoldable pub save_code :
      ConfigJson
      → (put : Text → Text → Result (Unit {0})) → (salt iv drawn filler : Bytes)
      → (legacy_salt legacy_iv : Bytes) → (code vault_id : Text) → MemoryCache
      → (MemoryCache × Result SaveScope) × List Upload
  save_code json put salt iv drawn filler legacy_salt legacy_iv code vault_id cache =
      upload_made json put cache
        (setup_legacy_duress aead enc hashes legacy_salt legacy_iv code vault_id)
        (setup_duress aead enc hashes salt iv drawn filler code)

  unfoldable pub reset_code :
      ConfigJson
      → (put : Text → Text → Result (Unit {0})) → (config : DuressConfig) → (drawn : Bytes)
      → MemoryCache
      → (MemoryCache × Result SaveScope) × List Upload
  reset_code json put config drawn cache =
      let blob = json.to_json config in
      let hash = sha256_hex aead enc hashes drawn in
      let after : MemoryCache × Result SaveScope = elim (put blob hash) [
        | ok done ↦ (save config true cache, ok SaveScope.all_devices)
        | err Error.missing_endpoint ↦ (save config false cache, ok SaveScope.this_device_only)
        | err why ↦ (cache, err why)
      ] in
      (after, record { blob = blob; hash = hash } ∷ [])
