-- ===== src/Index/NamesSafe.antt =====
-- The names of the mounted file system are names that a kernel accepts (`kernel_safe_name`,
-- `numbered_name` of `lethean_fuse/src/vault.rs`).
use lethean.Prelude.{
  ℕ, ◌+◌, ◌-◌, ◌≤◌, ◌<◌, min, ◌≡◌, refl, sym, ap, ◌∙◌, ◌≢◌, ◌↔◌, inl, inr, true, false, [], ◌∷◌,
  ◌++◌, map, arith, ltb, ltb→lt, Bool-cases, Text, eq_list, utf8_width, utf8_len, is_empty,
}
use mathlib.Core.Path.{subst}
use lethean.Index.Names.{
  fs_name_max, contains, safe_char, safe_dot, is_dots, needs_fix, cut_bytes, fix_dots,
  kernel_safe_name, split_ext, suffix_of, numbered_name,
}

utf8_width_bounds : (c : ℕ) → (1 ≤ utf8_width c) × (utf8_width c ≤ 4)
unfolding utf8_width
utf8_width_bounds c = ground arith

-- A cut fits, and wastes less than one character.
cut_bytes_len :
    (n : ℕ) (t : Text)
    → (utf8_len (cut_bytes n t) ≤ n) × (n < utf8_len t → n < utf8_len (cut_bytes n t) + 4)
unfolding cut_bytes utf8_len
cut_bytes_len n [] = ground arith
cut_bytes_len n (c ∷ cs) = ground (arith, utf8_width_bounds c, cut_bytes_len (n - utf8_width c) cs)

contains-cut_bytes :
    (x n : ℕ) (t : Text) → contains x t ≡ false → contains x (cut_bytes n t) ≡ false
unfolding cut_bytes contains
contains-cut_bytes x n [] h = h
contains-cut_bytes x n (c ∷ cs) h = ground (arith, contains-cut_bytes x (n - utf8_width c) cs)

contains-map : (x : ℕ) (f : ℕ → ℕ) (t : Text) → ((c : ℕ) → f c ≢ x) → contains x (map f t) ≡ false
unfolding contains
contains-map x f [] h = refl
contains-map x f (c ∷ cs) h = ground (arith, h c, contains-map x f cs h)

-- What a kernel asks of a name: not empty, no dots that mean a directory, at most 255 bytes, and
-- neither a slash nor a zero byte.
abbrev pub IsKernelName : Text → Type 0
IsKernelName t =
    (is_empty t ≡ false)
    × (is_dots t ≡ false)
    × (utf8_len t ≤ fs_name_max)
    × (contains b'/' t ≡ false)
    × (contains 0 t ≡ false)

needs_fix_iff : (t : Text) → (needs_fix t ≡ false) ↔ IsKernelName t
unfolding needs_fix
needs_fix_iff t = ground arith

short_dots : (t : Text) → is_dots t ≡ true → utf8_len t ≤ 2
unfolding eq_list utf8_len utf8_width
short_dots [] h = omega arith
short_dots (a ∷ []) h = ground arith
short_dots (a ∷ b ∷ []) h = ground arith
short_dots (a ∷ b ∷ c ∷ cs) h = ground arith

long_name : (t : Text) → 252 ≤ utf8_len t → (is_empty t ≡ false) × (is_dots t ≡ false)
unfolding utf8_len
long_name [] h = absurd (omega arith)
long_name (c ∷ cs) h = (refl, ground (arith, short_dots (c ∷ cs)))

-- What the replacements leave: no slash, no zero byte, not empty, no dots.
Clean : Text → Type 0
Clean t =
    (is_empty t ≡ false) × (is_dots t ≡ false) × (contains b'/' t ≡ false) × (contains 0 t ≡ false)

no_dots : (t : Text) → is_dots t ≡ true → Clean (map safe_dot t)
unfolding eq_list contains Clean
no_dots [] h = ground arith
no_dots (a ∷ []) h = ground arith
no_dots (a ∷ b ∷ []) h = ground arith
no_dots (a ∷ b ∷ c ∷ cs) h = ground arith

fix_dots-Clean : (t : Text) → contains b'/' t ≡ false → contains 0 t ≡ false → Clean (fix_dots t)
unfolding fix_dots Clean contains eq_list
fix_dots-Clean t slash nul = elim (Bool-cases (is_empty t)) [
  | inl e ↦ rw e (refl, refl, refl, refl)
  | inr e ↦ elim (Bool-cases (is_dots t)) [
    | inl d ↦ rw (e, d) (no_dots t d)
    | inr d ↦ rw (e, d) (e, d, slash, nul)
  ]
]

safe_char-slash : (c : ℕ) → safe_char c ≢ b'/'
safe_char-slash c = ground arith

safe_char-nul : (c : ℕ) → safe_char c ≢ 0
safe_char-nul c = ground arith

fixed-Clean : (name : Text) → Clean (fix_dots (map safe_char name))
fixed-Clean name =
    fix_dots-Clean (map safe_char name) (contains-map b'/' safe_char name safe_char-slash)
      (contains-map 0 safe_char name safe_char-nul)

safe_cut :
    (out : Text) → Clean out → fs_name_max < utf8_len out → IsKernelName (cut_bytes fs_name_max out)
unfolding Clean
safe_cut out h long =
    let (fits, tight) = cut_bytes_len fs_name_max out in
    let shape = long_name (cut_bytes fs_name_max out) (omega (arith, tight long)) in
    (
      shape.0,
      shape.1,
      fits,
      contains-cut_bytes b'/' fs_name_max out h.2,
      contains-cut_bytes 0 fs_name_max out h.3,
    )

kernel_safe_name-IsKernelName : (name : Text) → IsKernelName (kernel_safe_name name)
unfolding kernel_safe_name Clean
kernel_safe_name-IsKernelName name =
    let out = fix_dots (map safe_char name) in
    let clean = fixed-Clean name in
    elim (Bool-cases (needs_fix name)) [
      | inr fine ↦ rw fine ((needs_fix_iff name).0 fine)
      | inl broken ↦ elim (Bool-cases (ltb fs_name_max (utf8_len out))) [
        | inl long ↦ rw (broken, long) (safe_cut out clean (ltb→lt fs_name_max (utf8_len out) long))
        | inr short ↦ rw (broken, short) (clean.0, clean.1, ground arith, clean.2, clean.3)
      ]
    ]

kernel_safe_name_same : (name : Text) → IsKernelName name → kernel_safe_name name ≡ name
unfolding kernel_safe_name
kernel_safe_name_same name h = rw ((needs_fix_iff name).1 h) refl

-- Every name becomes one that a kernel accepts, and a name that is acceptable stays as it is; so
-- cleaning a second time changes nothing.
pub kernel_safe_name_lem :
    (name : Text)
    → IsKernelName (kernel_safe_name name)
      × (IsKernelName name → kernel_safe_name name ≡ name)
      × (kernel_safe_name (kernel_safe_name name) ≡ kernel_safe_name name)
kernel_safe_name_lem name = (
  kernel_safe_name-IsKernelName name,
  kernel_safe_name_same name,
  kernel_safe_name_same (kernel_safe_name name) (kernel_safe_name-IsKernelName name),
)

utf8_len-append : (xs ys : Text) → utf8_len (xs ++ ys) ≡ utf8_len xs + utf8_len ys
unfolding utf8_len
utf8_len-append [] ys = omega arith
utf8_len-append (x ∷ xs) ys = omega (arith, utf8_len-append xs ys)

cut_bytes-zero : (t : Text) → cut_bytes 0 t ≡ []
unfolding cut_bytes
cut_bytes-zero [] = refl
cut_bytes-zero (c ∷ cs) = ground (arith, utf8_width_bounds c)

-- A numbered name fits exactly when its suffix, the number with the extension, does; an extension
-- that is too long for the suffix to fit leaves nothing of the stem and a name that does not fit.
pub numbered_name-fits :
    (base : Text) (n : ℕ)
    → (utf8_len (suffix_of base n) ≤ fs_name_max → utf8_len (numbered_name base n) ≤ fs_name_max)
      × (fs_name_max < utf8_len (suffix_of base n)
          → (numbered_name base n ≡ suffix_of base n)
            × (fs_name_max < utf8_len (numbered_name base n)))
unfolding numbered_name
numbered_name-fits base n =
    let suffix = suffix_of base n in
    let stem = (split_ext base).0 in
    let room = min (utf8_len stem) (fs_name_max - utf8_len suffix) in
    (
      λ h. omega (arith, utf8_len-append (cut_bytes room stem) suffix, (cut_bytes_len room stem).0),
      λ h.
          let none_left : room ≡ 0 = omega arith in
          let same : cut_bytes room stem ++ suffix ≡ suffix =
            ap (λ k. cut_bytes k stem ++ suffix) none_left
            ∙ ap (λ t. t ++ suffix) (cut_bytes-zero stem) in
          (same, subst (λ t. fs_name_max < utf8_len t) (sym same) h),
    )
