-- ===== src/Kdf.antt =====
-- Keys from passwords, `lethean_fuse/src/crypto/kdf.rs`.
pub mod Accepts
pub mod Classes
pub mod Runs
use lethean.Prelude.{
  ℕ, zero, suc, ◌+◌, ◌-◌, ◌*◌, ◌/◌, ◌%◌, ◌^◌, ◌≤◌, ◌<◌, min, max, ◌≡◌, refl, sym, ap, ◌∙◌, ◌≢◌, ◌↔◌,
  ◌⊎◌, inl, inr, Bool, true, false, ◌&&◌, ◌||◌, not, Option, none, some, List, [], ◌∷◌, ◌++◌, map,
  append_assoc, append-nil, arith, ltb, leb, ◌==◌, if◌then◌else◌, ltb→lt, lt→ltb, leb→le, ==_iff,
  Bool-cases, Option-cases, length, get_elem?, get_or, set, take, drop, replicate, length-append,
  length-set, get_elem?-set_self, get_elem?-set_ne, take-append-drop, length-take, length-drop,
  length-replicate, take_of_le, take-append, drop-append, take-append_le, drop-append_le,
  take-append_ge, drop-append_ge, drop-drop, drop-nil, Bytes, Text, codes, eq_list, eq_list_iff,
  eq_list_refl, all_zero, zeros, length-zeros, all_zero-zeros, all_zero_eq, all_zero-append,
  utf8_width, utf8_len, utf16_width, utf16_len, is_empty, Error, Result, ok, err, ◌>>=◌, ◌>>◌,
  guard, ok_or, >>=-eq-ok,
}
use lethean.Prelude.{In}

-- The crates `sha2`, `argon2` (Argon2id, version 0x13), `hkdf` and `hex`, and the encodings of texts.
pub record Hashes : Type 0 where
  pub sha256 : Bytes → Bytes
  pub argon2id : (memory_kib iterations parallelism hash_len : ℕ) → Bytes → Bytes → Option Bytes
  pub hkdf : Bytes → Text → ℕ → Option Bytes
  pub hex : Bytes → Text
  pub utf8 : Text → Bytes
  pub from_utf8 : Bytes → Option Text
  pub lowercase : Text → Text
  pub from_utf8-utf8 : (t : Text) → from_utf8 (utf8 t) ≡ some t

pub record Argon2Params : Type 0 where
  pub parallelism : ℕ
  pub iterations : ℕ
  pub memory_kib : ℕ
  pub hash_len : ℕ

abbrev pub current_kdf_version : ℕ
current_kdf_version = 2

abbrev pub default_legacy_kdf_version : ℕ
default_legacy_kdf_version = 1

unfoldable pub kdf_params : ℕ → Result Argon2Params
kdf_params version =
    if version == 1
    then ok (record { parallelism = 1; iterations = 4; memory_kib = 98304; hash_len = 32 })
    else if version == 2
    then ok (record { parallelism = 1; iterations = 6; memory_kib = 262144; hash_len = 32 })
    else err Error.unknown_kdf

pub record UnlockResult : Type 0 where
  pub vault_id : Text
  pub wrapping_key_raw : Bytes

abbrev empty_or : Option Text → Text
empty_or none = []
empty_or (some t) = t

module _ (hashes : Hashes) where
  open hashes use {sha256, argon2id, hkdf, hex, utf8, lowercase}

  unfoldable pub derive_salt : Option Text → Bytes
  derive_salt access_token = sha256 (codes "e2ee-vault|salt|v1|" ++ utf8 (empty_or access_token))

  unfoldable pub derive_master_key : Text → Option Text → ℕ → Result Bytes
  derive_master_key password access_token kdf_version = do
    p ← kdf_params kdf_version
    ok_or
        (argon2id p.memory_kib p.iterations p.parallelism p.hash_len (utf8 password)
          (derive_salt access_token))
        Error.hashing_failed

  unfoldable pub hkdf_derive : Bytes → Text → ℕ → Result Bytes
  hkdf_derive master_key info len = ok_or (hkdf master_key info len) Error.hashing_failed

  unfoldable pub derive_vault_id : Bytes → Result Text
  derive_vault_id master_key = do
    bytes ← hkdf_derive master_key (codes "e2ee-vault|vault-id|v1") 32
    ok (hex bytes)

  unfoldable pub derive_wrapping_key : Bytes → Result Bytes
  derive_wrapping_key master_key = hkdf_derive master_key (codes "e2ee-vault|wrap|v1") 32

  unfoldable pub derive_confirm_marker : Text → Text
  derive_confirm_marker vault_id =
      hex (sha256 (codes "e2ee-vault|confirmed-marker|v1|" ++ utf8 vault_id))

  unfoldable pub unlock_vault : Text → Option Text → ℕ → Result UnlockResult
  unlock_vault password access_token kdf_version = do
    master_key ← derive_master_key password access_token kdf_version
    vault_id ← derive_vault_id master_key
    wrapping_key_raw ← derive_wrapping_key master_key
    ok (record { vault_id = vault_id; wrapping_key_raw = wrapping_key_raw })

-- The errors of the password check.
pub data Weakness : Type 0 where
  too_short too_long too_few_classes sequential repeated : Weakness

pub record PasswordValidationResult : Type 0 where
  pub valid : Bool
  pub errors : List Weakness

-- `str::contains`
unfoldable pub starts_with : Text → Text → Bool
starts_with t [] = true
starts_with [] (y ∷ ys) = false
starts_with (x ∷ xs) (y ∷ ys) = x == y && starts_with xs ys

unfoldable pub contains_text : Text → Text → Bool
contains_text [] part = is_empty part
contains_text (x ∷ xs) part = starts_with (x ∷ xs) part || contains_text xs part

abbrev pub sequences : List Text
sequences =
    codes "abcdefghijklmnopqrstuvwxyz"
    ∷ codes "0123456789"
    ∷ codes "qwertyuiop"
    ∷ codes "asdfghjkl"
    ∷ codes "zxcvbnm"
    ∷ []

unfoldable pub reversed : Text → Text
reversed [] = []
reversed (x ∷ xs) = reversed xs ++ (x ∷ [])

-- The windows of a sequence from an index on, forwards and backwards.
unfoldable pub has_window : Text → Text → ℕ → ℕ → ℕ → Bool
has_window lower seq run i zero = false
has_window lower seq run i (suc left) =
    let fwd = take run (drop i seq) in
    contains_text lower fwd
    || contains_text lower (reversed fwd)
    || has_window lower seq run (i + 1) left

unfoldable pub has_run : Text → ℕ → List Text → Bool
has_run lower run [] = false
has_run lower run (seq ∷ seqs) =
    let rest = has_run lower run seqs in
    if ltb (length seq) run then rest else has_window lower seq run 0 (length seq - run + 1) || rest

unfoldable pub has_sequential_run : Hashes → Text → ℕ → Bool
has_sequential_run hashes password run = has_run (hashes.lowercase password) run sequences

unfoldable pub count_of : ℕ → Text → ℕ
count_of c [] = 0
count_of c (x ∷ xs) = (if x == c then 1 else 0) + count_of c xs

-- The largest value of the map of counts: of each character of the text, in the whole text.
unfoldable pub max_count : Text → Text → ℕ
max_count whole [] = 0
max_count whole (c ∷ cs) = max (count_of c whole) (max_count whole cs)

-- A quotient of two such counts is over one half exactly if twice the first is over the second.
unfoldable pub is_mostly_repeated_chars : Text → Bool
is_mostly_repeated_chars password =
    ltb 3 (length password) && ltb (length password) (2 * max_count password password)

abbrev pub is_lower : ℕ → Bool
is_lower c = leb b'a' c && leb c b'z'

abbrev pub is_upper : ℕ → Bool
is_upper c = leb b'A' c && leb c b'Z'

abbrev pub is_digit : ℕ → Bool
is_digit c = leb b'0' c && leb c b'9'

abbrev pub is_symbol : ℕ → Bool
is_symbol c = not (is_lower c || is_upper c || is_digit c)

unfoldable pub any_char : (ℕ → Bool) → Text → Bool
any_char test [] = false
any_char test (c ∷ cs) = test c || any_char test cs

abbrev pub one_if : Bool → ℕ
one_if b = if b then 1 else 0

unfoldable pub classes : Text → ℕ
classes password =
    one_if (any_char is_lower password)
    + one_if (any_char is_upper password)
    + one_if (any_char is_digit password)
    + one_if (any_char is_symbol password)

abbrev pub push_if : Bool → Weakness → List Weakness
push_if b w = if b then w ∷ [] else []

unfoldable pub validate_password_strength : Hashes → Text → PasswordValidationResult
validate_password_strength hashes password =
    let errors =
      push_if (ltb (length password) 12) Weakness.too_short
      ++ push_if (ltb 256 (length password)) Weakness.too_long
      ++ push_if (ltb (length password) 20 && ltb (classes password) 3) Weakness.too_few_classes
      ++ push_if (has_sequential_run hashes password 5) Weakness.sequential
      ++ push_if (is_mostly_repeated_chars password) Weakness.repeated in
    record { valid = is_empty errors; errors = errors }
