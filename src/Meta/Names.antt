-- ===== src/Meta/Names.antt =====
-- The clean-up of names and types before an upload: `safe_name` and `safe_mime`.
use lethean.Prelude.{
  ℕ, ◌+◌, ◌≤◌, ◌≡◌, refl, ap, ◌≢◌, inl, inr, [], ◌∷◌, ◌++◌, append-nil, arith, ltb, leb, leb→le,
  Bool-cases, Text, codes, utf16_width, utf16_len,
}
use lethean.Meta.{safe_mime, safe_name, cut_units}

unfoldable pub IsPrefixOf : Text → Text → Type 0
IsPrefixOf p t = (rest : Text) × (p ++ rest ≡ t)

cut_units-fits :
    (units : ℕ) (t : Text) → units ≤ 4096 → units + utf16_len (cut_units units t) ≤ 4096
unfolding cut_units utf16_len
cut_units-fits units [] h = omega arith
cut_units-fits units (c ∷ cs) h = ground (arith, cut_units-fits (units + utf16_width c) cs)

cut_units-prefix : (units : ℕ) (t : Text) → IsPrefixOf (cut_units units t) t
unfolding cut_units IsPrefixOf
cut_units-prefix units [] = ([], refl)
cut_units-prefix units (c ∷ cs) = elim (Bool-cases (ltb 4096 (units + utf16_width c))) [
  | inl over ↦ (c ∷ cs, rw over)
  | inr fits ↦
      let (rest, e) = cut_units-prefix (units + utf16_width c) cs in (rest, rw fits (ap (◌∷◌ c) e))
]

cut_units-ne-nil : (c : ℕ) (cs : Text) → cut_units 0 (c ∷ cs) ≢ []
unfolding cut_units utf16_width
cut_units-ne-nil c cs = ground arith

-- A cleaned name is never empty and fits 4096 units; a name that is not empty is only ever cut at
-- its end, and one that fits is kept as it is.
pub safe_name_lem :
    (name : Text)
    → (safe_name name ≢ [])
      × (utf16_len (safe_name name) ≤ 4096)
      × (name ≢ [] → IsPrefixOf (safe_name name) name)
      × (name ≢ [] → utf16_len name ≤ 4096 → safe_name name ≡ name)
unfolding safe_name
safe_name_lem [] = (
  ground arith,
  leb→le (utf16_len (codes "Untitled")) 4096 (unfold utf16_len in refl),
  λ h. absurd (h refl),
  λ h. absurd (h refl),
)
safe_name_lem (c ∷ cs) = elim (Bool-cases (leb (utf16_len (c ∷ cs)) 4096)) [
  | inl fits ↦
      rw fits
        (λ e. cc, leb→le _ _ fits, λ h. unfold IsPrefixOf in ([], append-nil (c ∷ cs)), λ h k. refl)
  | inr long ↦ rw long (
    cut_units-ne-nil c cs,
    omega (arith, cut_units-fits 0 (c ∷ cs) (omega arith)),
    λ h. cut_units-prefix 0 (c ∷ cs),
    λ h k. ground arith,
  )
]

pub safe_mime-fits : (mime : Text) → utf16_len (safe_mime mime) ≤ 255
unfolding safe_mime utf16_len
safe_mime-fits mime = ground arith
