-- ===== src/Heal/Stays.antt =====
-- No item that stays in its group gives way in another: the first two rules of `plan` of
-- `lethean_fuse/src/heal.rs`.
use lethean.Prelude.{
  ◌≡◌, refl, sym, ap, ◌∙◌, ◌≢◌, inl, inr, Option, none, some, List, [], ◌∷◌, arith, if◌then◌else◌,
  Bool-cases, Text, eq_list, eq_list_iff,
}
use mathlib.Core.Path.{subst}
use lethean.Prelude.{In, In-append}
use lethean.Prelude.Table.{Table, lookup}
use lethean.Heal.{HealItem, group_by, others, losers}
use lethean.Heal.Losers.{AreDistinct, eq_of_id, lookup_of-In, group_by-AreGroups}

-- An item of the list has the id.
abbrev pub Has : List HealItem → Text → Type 0
Has items id = (it : HealItem) × In it items × (it.id ≡ id)

others-In :
    (chosen : Text) (its : List HealItem) (id w : Text)
    → In (id, w) (others chosen its)
    → (w ≡ chosen) × (id ≢ chosen) × Has its id
unfolding others
others-In chosen [] id w h = absurd h
others-In chosen (it ∷ its) id w h = elim (Bool-cases (eq_list it.id chosen)) [
  | inl same ↦
      let (e, n, (other, m, s)) = others-In chosen its id w (
        subst
          (λ b. In (id, w) (if b then others chosen its else (it.id, chosen) ∷ others chosen its))
          same h) in
      (e, n, (other, inr m, s))
  | inr differs ↦
      elim (subst
        (λ b. In (id, w) (if b then others chosen its else (it.id, chosen) ∷ others chosen its))
        differs h) [
          | inl e ↦ (
            ap (λ x. x.1) e,
            λ at.
                ground (arith, differs, (eq_list_iff it.id chosen).1 (sym (ap (λ x. x.0) e) ∙ at)),
            (it, inl refl, sym (ap (λ x. x.0) e)),
          )
          | inr m ↦
              let (e, n, (other, m', s)) = others-In chosen its id w m in (e, n, (other, inr m', s))
        ]
]

module _ (choose : List HealItem → Option Text) where
  abbrev Loses : Table (List HealItem) → Text → Text → Type 0
  Loses groups id w =
      (k : Text) × (g : List HealItem) × In (k, g) groups
      × (choose g ≡ some w)
      × (id ≢ w)
      × Has g id

  losers-Loses :
      (groups : Table (List HealItem)) (id w : Text)
      → In (id, w) (losers choose groups)
      → Loses groups id w
  unfolding losers
  losers-Loses [] id w h = absurd h
  losers-Loses ((k, g) ∷ groups) id w h =
      elim (In-append (id, w) (elim (choose g) [ none ↦ [] | some chosen ↦ others chosen g ])
        (losers choose groups) h) [
          | inl here ↦ go (choose g) refl here
          | inr there ↦
              let (k', g', m, e, n, has) = losers-Loses groups id w there in
              (k', g', inr m, e, n, has)
        ]
    where
      go :
          (o : Option Text)
          → choose g ≡ o
          → In (id, w) (elim o [ none ↦ [] | some chosen ↦ others chosen g ])
          → Loses ((k, g) ∷ groups) id w
      go none e m = absurd m
      go (some chosen) e m =
          let (at, n, has) = others-In chosen g id w m in
          (k, g, inl refl, e ∙ ap some (sym at), λ x. n (x ∙ at), has)

  module _ (sound : (g : List HealItem) (w : Text) → choose g ≡ some w → Has g w)
      (key : HealItem → Option Text) (items its : List HealItem) (d : AreDistinct items)
      (sub : (it : HealItem) → In it its → In it items) where
    abbrev pub gone : List (Text × Text)
    gone = losers choose (group_by key its [])

    -- What gives way in a group gives way to an item of `its`, which gives way in no group.
    pub losers_lem : (id w : Text) → In (id, w) gone → Has its w × ((t : Text) → In (w, t) gone → ⊥)
    losers_lem id w h =
        let (held, u) =
          group_by-AreGroups key its its [] (λ it m. m) (λ k g it e m. absurd (unfold lookup in cc))
            tt in
        let (k, g, m, e, n, has) = losers-Loses (group_by key its []) id w h in
        let look = lookup_of-In k g (group_by key its []) u m in
        let (b, bm, bid) = sound g w e in
        let (bk, bin) = held k g b look bm in
        (
          (b, bin, bid),
          λ t h'.
              let (k', g', m', e', n', (a, am, aid)) = losers-Loses (group_by key its []) w t h' in
              let look' = lookup_of-In k' g' (group_by key its []) u m' in
              let (ak, ain) = held k' g' a look' am in
              let same : a ≡ b = eq_of_id items a b d (sub a ain) (sub b bin) (aid ∙ sym bid) in
              let keys : k' ≡ k = some_eq (sym ak ∙ ap key same ∙ bk) in
              let group : g' ≡ g =
                some_eq (sym look' ∙ ap (λ x. lookup x (group_by key its [])) keys ∙ look) in
              n' (some_eq (sym e ∙ ap choose (sym group) ∙ e')),
        )
      where
        some_eq : {A : Type 0} {a b : A} → some a ≡ some b → a ≡ b
        some_eq e = cc
