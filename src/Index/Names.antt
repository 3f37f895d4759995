-- ===== src/Index/Names.antt =====
-- Names that a kernel accepts, `lethean_fuse/src/vault.rs`: `kernel_safe_name`, `split_ext` and
-- `numbered_name`.
use lethean.Prelude.{
  ℕ, zero, suc, ◌+◌, ◌-◌, ◌/◌, ◌%◌, min, Bool, false, ◌&&◌, ◌||◌, not, Option, none, some, [], ◌∷◌,
  ◌++◌, map, ltb, ◌==◌, if◌then◌else◌, length, Text, codes, eq_list, utf8_width, utf8_len, is_empty,
}

-- `FS_NAME_MAX`
abbrev pub fs_name_max : ℕ
fs_name_max = 255

unfoldable pub contains : ℕ → Text → Bool
contains c [] = false
contains c (d ∷ ds) = c == d || contains c ds

abbrev pub safe_char : ℕ → ℕ
safe_char c = if c == b'/' then 0x2215 else if c == 0 then 0xFFFD else c

abbrev pub safe_dot : ℕ → ℕ
safe_dot c = if c == b'.' then 0x2024 else c

abbrev pub is_dots : Text → Bool
is_dots t = eq_list t (b'.' ∷ []) || eq_list t (b'.' ∷ b'.' ∷ [])

unfoldable pub needs_fix : Text → Bool
needs_fix name =
    is_empty name
    || is_dots name
    || ltb fs_name_max (utf8_len name)
    || contains b'/' name
    || contains 0 name

-- `truncate` at the last character boundary within `n` bytes.
unfoldable pub cut_bytes : ℕ → Text → Text
cut_bytes n [] = []
cut_bytes n (c ∷ cs) =
    let rest = c ∷ cut_bytes (n - utf8_width c) cs in if ltb n (utf8_width c) then [] else rest

unfoldable pub fix_dots : Text → Text
fix_dots out =
    if is_empty out then codes "Untitled" else if is_dots out then map safe_dot out else out

unfoldable pub kernel_safe_name : Text → Text
kernel_safe_name name =
    let out = fix_dots (map safe_char name) in
    if not (needs_fix name)
    then name
    else if ltb fs_name_max (utf8_len out)
    then cut_bytes fs_name_max out
    else out

-- `rfind('.')`: the text before the last dot, and the text from it on.
unfoldable pub rfind_dot : Text → Option (Text × Text)
rfind_dot [] = none
rfind_dot (c ∷ cs) = elim (rfind_dot cs) [
  | some (before, after) ↦ some (c ∷ before, after)
  | none ↦ if c == b'.' then some ([], c ∷ cs) else none
]

unfoldable pub split_ext : Text → Text × Text
split_ext name = elim (rfind_dot name) [
  | some (stem, ext) ↦ if not (is_empty stem) && ltb 1 (length ext) then (stem, ext) else (name, [])
  | none ↦ (name, [])
]

-- The decimal digits of a number; a number has fewer digits than its successor counts.
unfoldable pub digits : ℕ → ℕ → Text
digits zero n = []
digits (suc fuel) n =
    let front = digits fuel (n / 10) in
    if ltb n 10 then (48 + n) ∷ [] else front ++ ((48 + n % 10) ∷ [])

-- The suffix ` (n)` with the extension.
unfoldable pub suffix_of : Text → ℕ → Text
suffix_of base n = b' ' ∷ b'(' ∷ (digits (suc n) n ++ (b')' ∷ (split_ext base).1))

unfoldable pub numbered_name : Text → ℕ → Text
numbered_name base n =
    let suffix = suffix_of base n in
    let stem = (split_ext base).0 in
    cut_bytes (min (utf8_len stem) (fs_name_max - utf8_len suffix)) stem ++ suffix
