-- ===== src/Tests/Vault.antt =====
-- Names and the cache of large files at concrete inputs.
use lethean.Prelude.{ℕ, ◌≤◌, ◌<◌, ◌≡◌, refl, some, ◌∷◌, codes, replicate, utf8_len, Text, eq_list}
use lethean.Prelude.Table.{lookup}
use lethean.Index.Names.{
  fs_name_max, kernel_safe_name, numbered_name, suffix_of, needs_fix, contains, fix_dots, split_ext,
  rfind_dot, digits, cut_bytes,
}
use lethean.Index.NamesSafe.{IsKernelName, kernel_safe_name_lem, numbered_name-fits}
use lethean.Caches.Large.{new, put, member}
use lethean.Caches.Large.Valid.{Cache, IsKeyed, IsCounted, Fits, put_lem}

slashes_are_replaced : kernel_safe_name (codes "a/b") ≡ codes "a∕b"
unfolding kernel_safe_name needs_fix contains fix_dots utf8_len eq_list
slashes_are_replaced = refl

second_copy : numbered_name (codes "a.txt") 2 ≡ codes "a (2).txt"
unfolding numbered_name suffix_of split_ext rfind_dot digits cut_bytes utf8_len
second_copy = refl

kernel_safe_name_lem_example :
    IsKernelName (kernel_safe_name (codes "a/b"))
    × (IsKernelName (codes "a/b") → kernel_safe_name (codes "a/b") ≡ codes "a/b")
    × (kernel_safe_name (kernel_safe_name (codes "a/b")) ≡ kernel_safe_name (codes "a/b"))
kernel_safe_name_lem_example = kernel_safe_name_lem (codes "a/b")

-- A short stem with an extension of 252 bytes.
abbrev long_ext : Text
long_ext = b'a' ∷ b'.' ∷ replicate 251 b'x'

numbered_name-fits_example :
    (utf8_len (suffix_of long_ext 2) ≤ fs_name_max
      → utf8_len (numbered_name long_ext 2) ≤ fs_name_max)
    × (fs_name_max < utf8_len (suffix_of long_ext 2)
        → (numbered_name long_ext 2 ≡ suffix_of long_ext 2)
          × (fs_name_max < utf8_len (numbered_name long_ext 2)))
numbered_name-fits_example = numbered_name-fits long_ext 2

same_bytes : ℕ → ℕ
same_bytes n = n

new-IsKeyed : IsKeyed ℕ same_bytes (new ℕ same_bytes 100)
unfolding new member
new-IsKeyed = record { listed = λ k. unfold lookup in refl; distinct = tt; unique = tt }

-- A file of 50 bytes in a cache of 100.
abbrev one_file : Cache ℕ same_bytes
one_file = put ℕ same_bytes (new ℕ same_bytes 100) (codes "b") 50

one_file-IsKeyed : IsKeyed ℕ same_bytes one_file
one_file-IsKeyed = (put_lem ℕ same_bytes (new ℕ same_bytes 100) (codes "b") 50 new-IsKeyed).0

put_lem_example :
    IsKeyed ℕ same_bytes (put ℕ same_bytes one_file (codes "a") 170)
    × (lookup (codes "a") (put ℕ same_bytes one_file (codes "a") 170).map ≡ some 170)
    × IsCounted ℕ same_bytes (put ℕ same_bytes one_file (codes "a") 170)
    × Fits ℕ same_bytes (codes "a") (put ℕ same_bytes one_file (codes "a") 170)
put_lem_example = put_lem ℕ same_bytes one_file (codes "a") 170 one_file-IsKeyed
