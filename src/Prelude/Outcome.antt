-- ===== src/Prelude/Outcome.antt =====
-- Fallible results: `Result<T>` of the source, with a constructor for each kind of failure that the
-- code tells apart or that a caller can see.
use mathlib.Core.Path.{◌≡◌, refl}
use mathlib.Core.Bool.{Bool, true, false}
use mathlib.Core.Option.{Option, none, some}

pub data Error : Type 0 where
  bad_key_length bad_nonce_length auth_failed encryption_failed bad_base64 : Error
  unsupported_key_format corrupt_padding corrupt_size corrupt_json : Error
  corrupt_name corrupt_mime pref_without_parent corrupt_pref corrupt_parent corrupt_from : Error
  corrupt_folder_mime corrupt_folder corrupt_unpadded_size corrupt_chunk_size : Error
  compressed_chunks corrupt_chunked_size corrupt_chunk_count corrupt_uncompressed_size : Error
  corrupt_prefix too_large unexpected_eof too_many_chunks bad_chunk_size other_io no_tag unknown_kdf
        hashing_failed malformed_duress missing_endpoint panicked out_of_fuel :
      Error

pub data Result {ℓ} (A : Type ℓ) : Type ℓ where
  err : Error → Result A
  ok : A → Result A

-- The `?` of the source: the first failure is the outcome.
infixl 5 ◌>>=◌ ◌>>◌
abbrev pub ◌>>=◌ {ℓ κ} : {A : Type ℓ} {B : Type κ} → Result A → (A → Result B) → Result B
◌>>=◌ (err why) next = err why
◌>>=◌ (ok value) next = next value

abbrev pub ◌>>◌ {ℓ} : {B : Type ℓ} → Result (Unit {0}) → Result B → Result B
◌>>◌ check next = check >>= λ _. next

-- `if !test { return Err(why) }`
abbrev pub guard : Bool → Error → Result (Unit {0})
guard false why = err why
guard true why = ok tt

-- `.ok_or(why)`
abbrev pub ok_or {ℓ} : {A : Type ℓ} → Option A → Error → Result A
ok_or none why = err why
ok_or (some value) why = ok value

-- A chain that succeeds passes through a value of its first step.
pub >>=-eq-ok {ℓ κ} :
    {A : Type ℓ} {B : Type κ} (first : Result A) (next : A → Result B) {result : B}
    → (first >>= next) ≡ ok result
    → (value : A) × (first ≡ ok value) × (next value ≡ ok result)
>>=-eq-ok (err why) next e = cc
>>=-eq-ok (ok value) next e = (value, refl, e)
