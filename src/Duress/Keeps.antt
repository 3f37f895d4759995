-- ===== src/Duress/Keeps.antt =====
-- What becomes of a duress code that this device has not yet uploaded: `lethean_fuse/src/duress.rs`.
use lethean.Prelude.{
  ℕ, ◌≡◌, refl, sym, ap, inl, inr, Bool, true, false, Option, none, some, arith, ==_iff, Bool-cases,
  Text, ◌⊎◌, ◌∙◌, List, [], ◌∷◌, if◌then◌else◌, Bytes, eq_list_iff, Result, ok, err,
}
use lethean.Prelude.{In}
use lethean.Crypto.{Aead, Encodings}
use lethean.Kdf.{Hashes}
use lethean.Duress.{DuressConfig, DuressMatch, check_duress}
use lethean.Duress.Signals.{check_and_signal_lem}
use lethean.Duress.Sync.{
  ConfigJson, MemoryCache, save, set_conflict_noticed, same_config, RemoteDuress, fetch, fetch_with,
  choose_configs, configs_to_check, settle_remote, reconcile_with, reconcile, same_version,
  any_match, check_and_signal, is_duress_code,
}

config_eq :
    (a b : DuressConfig)
    → a.salt ≡ b.salt
    → a.verifier ≡ b.verifier
    → a.enc_vault_id ≡ b.enc_vault_id
    → a.iv ≡ b.iv
    → a.kdf_version ≡ b.kdf_version
    → a ≡ b
config_eq a b e1 e2 e3 e4 e5 = cc

same_config_sound : (a b : DuressConfig) → same_config a b ≡ true → a ≡ b
unfolding same_config
same_config_sound a b h =
    config_eq a b (ground (arith, h, eq_list_iff a.salt b.salt))
      (ground (arith, h, eq_list_iff a.verifier b.verifier))
      (ground (arith, h, eq_list_iff a.enc_vault_id b.enc_vault_id))
      (ground (arith, h, eq_list_iff a.iv b.iv))
      (versions a.kdf_version b.kdf_version (ground (arith, h)))
  where
    versions : (m n : Option ℕ) → same_version m n ≡ true → m ≡ n
    versions none none e = refl
    versions none (some n) e = cc
    versions (some m) none e = cc
    versions (some m) (some n) e = ap some ((==_iff m n).0 e)

module _ (l : DuressConfig) (noticed : Bool) where
  -- A device whose code was not uploaded.
  abbrev pub unsynced : MemoryCache
  unsynced = record { inner = record { config = some l; synced = false }; noticed = noticed }

  settle_remote-keeps :
      (put : DuressConfig → Result (Unit {0})) (decoy remote : DuressConfig) (written : Option Bool)
      → (settle_remote put decoy remote written unsynced).0.inner.config ≡ some l
  unfolding settle_remote save set_conflict_noticed
  settle_remote-keeps put decoy remote none = refl
  settle_remote-keeps put decoy remote (some false) = uploaded (put l)
    where
      after : Result (Unit {0}) → MemoryCache × Bool
      after (err why) = (unsynced, false)
      after (ok done) = (save l true unsynced, false)

      uploaded : (r : Result (Unit {0})) → (after r).0.inner.config ≡ some l
      uploaded (err why) = refl
      uploaded (ok done) = refl
  settle_remote-keeps put decoy remote (some true) = elim (Bool-cases (same_config l remote)) [
    | inl same ↦ rw same (ap some (sym (same_config_sound l remote same)))
    | inr other ↦ elim (Bool-cases noticed) [
      | inl seen ↦ rw (other, seen) refl
      | inr new ↦ rw (other, new) refl
    ]
  ]

  choose_configs-keeps :
      (remote : Option DuressConfig) (decoy : DuressConfig)
      → ((choose_configs remote (some l) decoy unsynced).0 ≡ unsynced)
        × In l (choose_configs remote (some l) decoy unsynced).1
  unfolding choose_configs
  choose_configs-keeps none decoy = (refl, inl refl)
  choose_configs-keeps (some r) decoy = elim (Bool-cases (same_config l r)) [
    | inl same ↦ rw same (refl, inl (same_config_sound l r same))
    | inr other ↦ rw other (refl, inr (inl refl))
  ]

  reconcile_with-keeps :
      (put : DuressConfig → Result (Unit {0})) (decoy : DuressConfig)
      (fetched : Result (DuressConfig × Option Bool))
      → (reconcile_with put decoy fetched unsynced).0.inner.config ≡ some l
  unfolding reconcile_with
  reconcile_with-keeps put decoy (err why) = refl
  reconcile_with-keeps put decoy (ok found) = settle_remote-keeps put decoy found.0 found.1

  reconcile-keeps :
      (json : ConfigJson) (asked : Option (Result RemoteDuress)) (put : Text → Result (Unit {0}))
      (decoy : DuressConfig)
      → (reconcile json asked put decoy unsynced).0.inner.config ≡ some l
  unfolding reconcile
  reconcile-keeps json none put decoy = refl
  reconcile-keeps json (some answer) put decoy =
      reconcile_with-keeps (λ c. put (json.to_json c)) decoy (fetch json answer)

module _ (aead : Aead) (enc : Encodings) (hashes : Hashes) where
  any_match-In :
      (code : Text) (l : DuressConfig) (configs : List DuressConfig)
      → In l configs
      → (check_duress aead enc hashes code l ≡ none)
        ⊎ (any_match aead enc hashes code configs ≡ true)
  unfolding any_match
  any_match-In code l [] h = absurd h
  any_match-In code l (c ∷ cs) h =
      by_check (any_match-In code l cs) (check_duress aead enc hashes code c) refl h
    where
      by_check :
          (In l cs
            → (check_duress aead enc hashes code l ≡ none)
              ⊎ (any_match aead enc hashes code cs ≡ true))
          → (o : Option DuressMatch) → check_duress aead enc hashes code c ≡ o
          → In l (c ∷ cs)
          → (check_duress aead enc hashes code l ≡ none)
            ⊎ (any_match aead enc hashes code (c ∷ cs) ≡ true)
      by_check rest (some m) e h = inr (rw (e, any_match) refl)
      by_check rest none e (inl here) = inl (rw here e)
      by_check rest none e (inr there) = elim (rest there) [
        | inl missed ↦ inl missed
        | inr found ↦ inr (rw (e, any_match) found)
      ]

  -- The server's settings do not replace a code that this device has not uploaded, whatever the server
  -- answers. Unlocking changes the device only when it answers that a duress code was entered, and then
  -- to the fresh decoy; it answers so whenever the password matches this code. Asking whether a text is
  -- the duress code leaves the device as it was, and reconciling leaves this code on it.
  pub unsynced_code_stays :
      (l : DuressConfig) (noticed : Bool) (json : ConfigJson) (asked : Option (Result RemoteDuress))
      (put : Text → Result (Unit {0})) (decoy fresh_decoy : DuressConfig) (stand_in : Bytes × Bytes)
      (password : Text)
      → (let device = unsynced l noticed in
          let w =
            check_and_signal aead enc hashes json asked decoy fresh_decoy stand_in password
              device in
          (w.0.0 ≡ (if w.0.1 then save fresh_decoy true device else device))
          × ((check_duress aead enc hashes password l ≡ none) ⊎ (w.0.1 ≡ true))
          × ((is_duress_code aead enc hashes json asked decoy password device).0 ≡ device)
          × ((reconcile json asked put decoy device).0.inner.config ≡ some l))
  unfolding configs_to_check is_duress_code
  unsynced_code_stays l noticed json asked put decoy fresh_decoy stand_in password =
      let (same, checked) = choose_configs-keeps l noticed (fetch_with json asked) decoy in
      let device = unsynced l noticed in
      let w =
        check_and_signal aead enc hashes json asked decoy fresh_decoy stand_in password device in
      let (_, answer, held) =
        check_and_signal_lem aead enc hashes json asked decoy fresh_decoy stand_in password
          device in
      (
        held ∙ ap (λ d. if w.0.1 then save fresh_decoy true d else d) same,
        elim (any_match-In password l _ checked) [
          | inl missed ↦ inl missed
          | inr found ↦ inr (answer ∙ found)
        ],
        same,
        reconcile-keeps l noticed json asked put decoy,
      )
