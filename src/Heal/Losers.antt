-- ===== src/Heal/Losers.antt =====
-- The items that give way in a group, and the item that stays: the first two rules of `plan` of
-- `lethean_fuse/src/heal.rs`.
use lethean.Prelude.{
  ◌≡◌, refl, sym, ap, ◌∙◌, ◌≢◌, ◌⊎◌, inl, inr, true, Option, none, some, List, [], ◌∷◌, ◌++◌, arith,
  Bool-cases, Option-cases, Text, eq_list, eq_list_iff,
}
use mathlib.Core.Path.{subst}
use lethean.Prelude.{In, In-append}
use lethean.Prelude.Table.{Table, lookup, insert, lookup-insert, Unique, insert-Unique}
use lethean.Heal.{HealItem, push, group_by, unwrap_or}

-- No two items of the list share an id.
abbrev pub AreDistinct : List HealItem → Type 0
AreDistinct [] = Unit
AreDistinct (it ∷ its) = ((other : HealItem) → In other its → other.id ≢ it.id) × AreDistinct its

pub eq_of_id :
    (items : List HealItem) (a b : HealItem)
    → AreDistinct items
    → In a items
    → In b items
    → a.id ≡ b.id
    → a ≡ b
eq_of_id [] a b d ha hb e = absurd ha
eq_of_id (it ∷ its) a b d (inl ea) (inl eb) e = ea ∙ sym eb
eq_of_id (it ∷ its) a b d (inl ea) (inr hb) e = absurd (d.0 b hb (sym e ∙ ap (λ x. x.id) ea))
eq_of_id (it ∷ its) a b d (inr ha) (inl eb) e = absurd (d.0 a ha (e ∙ ap (λ x. x.id) eb))
eq_of_id (it ∷ its) a b d (inr ha) (inr hb) e = eq_of_id its a b d.1 ha hb e

pub pair_eq : {A B : Type 0} (p q : A × B) → p.0 ≡ q.0 → p.1 ≡ q.1 → p ≡ q
pair_eq p q e f = ap (λ x. (x, p.1)) e ∙ ap (λ y. (q.0, y)) f

pub lookup-In : {V : Type 0} (k : Text) (v : V) (m : Table V) → lookup k m ≡ some v → In (k, v) m
unfolding lookup
lookup-In k v [] h = cc
lookup-In k v ((j, w) ∷ m) h = elim (Bool-cases (eq_list j k)) [
  | inl same ↦ inl (pair_eq _ _ (sym ((eq_list_iff j k).0 same)) (ground (arith, same, h)))
  | inr other ↦ inr (lookup-In k v m (ground (arith, other, h)))
]

pub lookup_of-In :
    {V : Type 0} (k : Text) (v : V) (m : Table V) → Unique m → In (k, v) m → lookup k m ≡ some v
unfolding lookup
lookup_of-In k v [] u h = absurd h
lookup_of-In k v ((j, w) ∷ m) u (inl e) =
    let same : eq_list j k ≡ true = (eq_list_iff j k).1 (sym (ap (λ x. x.0) e)) in
    rw same (ap some (sym (ap (λ x. x.1) e)))
lookup_of-In k v ((j, w) ∷ m) u (inr h) = elim (Bool-cases (eq_list j k)) [
  | inl same ↦
      let there = lookup_of-In k v m u.1 h in
      let here : lookup k m ≡ none = ap (λ x. lookup x m) (sym ((eq_list_iff j k).0 same)) ∙ u.0 in
      cc
  | inr other ↦ rw other (lookup_of-In k v m u.1 h)
]

module _ (key : HealItem → Option Text) (items : List HealItem) where
  -- Every group holds items of its key.
  abbrev pub AreGroups : Table (List HealItem) → Type 0
  AreGroups groups =
      (k : Text) (g : List HealItem) (it : HealItem)
      → lookup k groups ≡ some g
      → In it g
      → (key it ≡ some k) × In it items

  insert-AreGroups :
      (k : Text) (it : HealItem) (groups : Table (List HealItem))
      → key it ≡ some k
      → In it items
      → AreGroups groups
      → AreGroups (insert k (unwrap_or (lookup k groups) [] ++ (it ∷ [])) groups)
  insert-AreGroups k it groups hk hi h j g other look member = elim (Bool-cases (eq_list k j)) [
    | inl same ↦
        let at : k ≡ j = (eq_list_iff k j).0 same in
        let group : grown ≡ g = ground (arith, same, lookup-insert k j grown groups, look) in
        elim (In-append other (unwrap_or (lookup k groups) []) (it ∷ [])
          (subst (In other) (sym group) member)) [
            | inl old ↦ before at (Option-cases (lookup k groups)) old
            | inr (inl e) ↦ (ap key e ∙ hk ∙ ap some at, subst (λ x. In x items) (sym e) hi)
            | inr (inr none_left) ↦ absurd none_left
          ]
    | inr other_key ↦
        h j g other (ground (arith, other_key, lookup-insert k j grown groups, look)) member
  ]
    where
      grown : List HealItem
      grown = unwrap_or (lookup k groups) [] ++ (it ∷ [])

      before :
          k ≡ j
          → (lookup k groups ≡ none) ⊎ ((g : List HealItem) × (lookup k groups ≡ some g))
          → In other (unwrap_or (lookup k groups) [])
          → (key other ≡ some j) × In other items
      before at (inl e) old = absurd (subst (λ o. In other (unwrap_or o [])) e old)
      before at (inr (g', e)) old =
          let (same, there) = h k g' other e (subst (λ o. In other (unwrap_or o [])) e old) in
          (same ∙ ap some at, there)

  push-Groups :
      (o : Option Text) (it : HealItem) (groups : Table (List HealItem))
      → key it ≡ o
      → In it items
      → AreGroups groups
      → Unique groups
      → AreGroups (push o it groups) × Unique (push o it groups)
  unfolding push
  push-Groups none it groups e hi h u = (h, u)
  push-Groups (some k) it groups e hi h u =
      (insert-AreGroups k it groups e hi h, insert-Unique k _ groups u)

  pub group_by-AreGroups :
      (its : List HealItem) (groups : Table (List HealItem))
      → ((it : HealItem) → In it its → In it items)
      → AreGroups groups
      → Unique groups
      → AreGroups (group_by key its groups) × Unique (group_by key its groups)
  unfolding group_by
  group_by-AreGroups [] groups sub h u = (h, u)
  group_by-AreGroups (it ∷ its) groups sub h u =
      let (h', u') = push-Groups (key it) it groups refl (sub it (inl refl)) h u in
      group_by-AreGroups its (push (key it) it groups) (λ other m. sub other (inr m)) h' u'
