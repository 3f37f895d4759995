-- ===== src/Kdf/Classes.antt =====
-- The classes of characters that `validate_password_strength` of `lethean_fuse/src/crypto/kdf.rs`
-- counts.
use lethean.Prelude.{
  ℕ, ◌+◌, ◌≤◌, ◌<◌, ◌≡◌, refl, ◌↔◌, ◌⊎◌, inl, inr, Bool, true, false, [], ◌∷◌, arith, Bool-cases,
  Text,
}
use lethean.Prelude.{In}
use lethean.Kdf.{any_char, classes, one_if, is_lower, is_upper, is_digit, is_symbol}

abbrev pub IsLower : ℕ → Type 0
IsLower c = (b'a' ≤ c) × (c ≤ b'z')

abbrev pub IsUpper : ℕ → Type 0
IsUpper c = (b'A' ≤ c) × (c ≤ b'Z')

abbrev pub IsDigit : ℕ → Type 0
IsDigit c = (b'0' ≤ c) × (c ≤ b'9')

-- What lies below, between and above the ranges of digits and letters.
abbrev pub IsSymbol : ℕ → Type 0
IsSymbol c = (c < b'0') ⊎ ((b'9' < c) × (c < b'A')) ⊎ ((b'Z' < c) × (c < b'a')) ⊎ (b'z' < c)

abbrev pub Has : (ℕ → Type 0) → Text → Type 0
Has P t = (c : ℕ) × In c t × P c

-- Characters of at least three of the four classes.
abbrev pub HasThree : Text → Type 0
HasThree t =
    (Has IsLower t × Has IsUpper t × Has IsDigit t)
    ⊎ (Has IsLower t × Has IsUpper t × Has IsSymbol t)
    ⊎ (Has IsLower t × Has IsDigit t × Has IsSymbol t)
    ⊎ (Has IsUpper t × Has IsDigit t × Has IsSymbol t)

module _ (test : ℕ → Bool) (P : ℕ → Type 0) (says : (c : ℕ) → (test c ≡ true) ↔ P c) where
  any_char_sound : (t : Text) → any_char test t ≡ true → Has P t
  unfolding any_char
  any_char_sound [] h = cc
  any_char_sound (c ∷ cs) h = elim (Bool-cases (test c)) [
    | inl here ↦ (c, inl refl, (says c).0 here)
    | inr other ↦
        let (d, there, p) = any_char_sound cs (ground (arith, h, other)) in (d, inr there, p)
  ]

  any_char_complete : (t : Text) (c : ℕ) → In c t → P c → any_char test t ≡ true
  unfolding any_char
  any_char_complete [] c h p = absurd h
  any_char_complete (d ∷ cs) c (inl here) p =
      let yes_here = (says c).1 p in ground (arith, yes_here, here)
  any_char_complete (d ∷ cs) c (inr there) p =
      let rest = any_char_complete cs c there p in ground (arith, rest)

  any_char_iff : (t : Text) → (any_char test t ≡ true) ↔ Has P t
  any_char_iff t = (any_char_sound t, λ (c, there, p). any_char_complete t c there p)

IsLower-iff : (c : ℕ) → (is_lower c ≡ true) ↔ IsLower c
IsLower-iff c = ground arith

IsUpper-iff : (c : ℕ) → (is_upper c ≡ true) ↔ IsUpper c
IsUpper-iff c = ground arith

IsDigit-iff : (c : ℕ) → (is_digit c ≡ true) ↔ IsDigit c
IsDigit-iff c = ground arith

IsSymbol-iff : (c : ℕ) → (is_symbol c ≡ true) ↔ IsSymbol c
IsSymbol-iff c = ground arith

three_of :
    {A B C D : Type 0} (a b c d : Bool)
    → (a ≡ true) ↔ A
    → (b ≡ true) ↔ B
    → (c ≡ true) ↔ C
    → (d ≡ true) ↔ D
    → (3 ≤ one_if a + one_if b + one_if c + one_if d)
      ↔ ((A × B × C) ⊎ (A × B × D) ⊎ (A × C × D) ⊎ (B × C × D))
three_of a b c d (a1, a2) (b1, b2) (c1, c2) (d1, d2) = (
  λ h. elim (which a b c d h) [
    | inl (x, y, z) ↦ inl (a1 x, b1 y, c1 z)
    | inr (inl (x, y, z)) ↦ inr (inl (a1 x, b1 y, d1 z))
    | inr (inr (inl (x, y, z))) ↦ inr (inr (inl (a1 x, c1 y, d1 z)))
    | inr (inr (inr (x, y, z))) ↦ inr (inr (inr (b1 x, c1 y, d1 z)))
  ],
  λ h. elim h [
    | inl (x, y, z) ↦ ground (arith, a2 x, b2 y, c2 z)
    | inr (inl (x, y, z)) ↦ ground (arith, a2 x, b2 y, d2 z)
    | inr (inr (inl (x, y, z))) ↦ ground (arith, a2 x, c2 y, d2 z)
    | inr (inr (inr (x, y, z))) ↦ ground (arith, b2 x, c2 y, d2 z)
  ],
)
  where
    which :
        (a b c d : Bool)
        → 3 ≤ one_if a + one_if b + one_if c + one_if d
        → ((a ≡ true) × (b ≡ true) × (c ≡ true))
          ⊎ ((a ≡ true) × (b ≡ true) × (d ≡ true))
          ⊎ ((a ≡ true) × (c ≡ true) × (d ≡ true))
          ⊎ ((b ≡ true) × (c ≡ true) × (d ≡ true))
    which true true true d h = inl (refl, refl, refl)
    which true true false true h = inr (inl (refl, refl, refl))
    which true false true true h = inr (inr (inl (refl, refl, refl)))
    which false true true true h = inr (inr (inr (refl, refl, refl)))
    which true true false false h = absurd (omega arith)
    which true false false d h = absurd (ground arith)
    which true false true false h = absurd (omega arith)
    which false false c d h = absurd (ground arith)
    which false true false d h = absurd (ground arith)
    which false true true false h = absurd (omega arith)

pub classes_iff : (t : Text) → (3 ≤ classes t) ↔ HasThree t
unfolding classes
classes_iff t =
    three_of (any_char is_lower t) (any_char is_upper t) (any_char is_digit t)
      (any_char is_symbol t) (any_char_iff is_lower IsLower IsLower-iff t)
      (any_char_iff is_upper IsUpper IsUpper-iff t) (any_char_iff is_digit IsDigit IsDigit-iff t)
      (any_char_iff is_symbol IsSymbol IsSymbol-iff t)
