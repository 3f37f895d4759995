-- ===== src/Heal/Chosen.antt =====
-- The item that a group keeps is one of the group: `plan` of `lethean_fuse/src/heal.rs`.
use lethean.Prelude.{
  ℕ, ◌≡◌, refl, sym, ap, ◌∙◌, ◌⊎◌, inl, inr, Bool, true, some, List, [], ◌∷◌, ◌==◌, if◌then◌else◌,
  Bool-cases, Text,
}
use mathlib.Core.Path.{subst}
use lethean.Prelude.{In}
use lethean.Heal.{
  HealItem, least_id, keeper, winner, only_id, with_rev, top_rev, rev_of, keep_if, text_lt,
}
use lethean.Heal.Stays.{Has}

least_id-Has :
    (id : Text) (its : List HealItem) → (least_id id its ≡ id) ⊎ Has its (least_id id its)
unfolding least_id
least_id-Has id [] = inl refl
least_id-Has id (it ∷ its) = elim (Bool-cases (text_lt it.id id)) [
  | inl less ↦ rw less (elim (least_id-Has it.id its) [
    | inl e ↦ inr (it, inl refl, sym e)
    | inr (a, m, e) ↦ inr (a, inr m, e)
  ])
  | inr more ↦
      rw more (elim (least_id-Has id its) [ inl e ↦ inl e | inr (a, m, e) ↦ inr (a, inr m, e) ])
]

some_eq : {a b : Text} → some a ≡ some b → a ≡ b
some_eq e = cc

pub keeper-Has : (g : List HealItem) (w : Text) → keeper g ≡ some w → Has g w
unfolding keeper
keeper-Has [] w h = cc
keeper-Has (a ∷ []) w h = cc
keeper-Has (a ∷ b ∷ its) w h = elim (least_id-Has a.id (b ∷ its)) [
  | inl e ↦ (a, inl refl, sym e ∙ some_eq h)
  | inr (c, m, e) ↦ (c, inr m, e ∙ some_eq h)
]

with_rev-In : (top : ℕ) (its : List HealItem) (it : HealItem) → In it (with_rev top its) → In it its
unfolding with_rev
with_rev-In top [] it h = h
with_rev-In top (a ∷ its) it h = elim (Bool-cases (rev_of a == top)) [
  | inl same ↦
      elim (subst (λ b. In it (if b then a ∷ with_rev top its else with_rev top its)) same h) [
        | inl e ↦ inl e
        | inr m ↦ inr (with_rev-In top its it m)
      ]
  | inr other ↦ inr (
      with_rev-In top its it
        (subst (λ b. In it (if b then a ∷ with_rev top its else with_rev top its)) other h))
]

only_id-Has :
    (g its : List HealItem) (w : Text)
    → ((it : HealItem) → In it its → In it g)
    → only_id its ≡ some w
    → Has g w
only_id-Has g [] w sub h = cc
only_id-Has g (a ∷ []) w sub h = (a, sub a (inl refl), some_eq h)
only_id-Has g (a ∷ b ∷ its) w sub h = cc

pub winner-Has : (g : List HealItem) (w : Text) → winner g ≡ some w → Has g w
unfolding winner
winner-Has [] w h = cc
winner-Has (a ∷ []) w h = cc
winner-Has (a ∷ b ∷ its) w h =
    let g = a ∷ b ∷ its in only_id-Has g (with_rev (top_rev g) g) w (with_rev-In (top_rev g) g) h

pub keep_if-In :
    (test : HealItem → Bool) (its : List HealItem) (it : HealItem)
    → In it (keep_if test its)
    → In it its × (test it ≡ true)
unfolding keep_if
keep_if-In test [] it h = absurd h
keep_if-In test (a ∷ its) it h = elim (Bool-cases (test a)) [
  | inl good ↦
      elim (subst (λ b. In it (if b then a ∷ keep_if test its else keep_if test its)) good h) [
        | inl e ↦ (inl e, ap test e ∙ good)
        | inr m ↦ let (m', t) = keep_if-In test its it m in (inr m', t)
      ]
  | inr bad ↦
      let (m', t) =
        keep_if-In test its it
          (subst (λ b. In it (if b then a ∷ keep_if test its else keep_if test its)) bad h) in
      (inr m', t)
]
