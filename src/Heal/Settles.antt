-- ===== src/Heal/Settles.antt =====
-- Every record that `plan` of `lethean_fuse/src/heal.rs` hides leads to one that stays visible.
use lethean.Prelude.{
  ℕ, zero, suc, ◌≡◌, refl, sym, ap, ◌∙◌, ◌⊎◌, inl, inr, true, Option, none, some, List, [], ◌∷◌,
  arith, Bool-cases, Option-cases, Text, eq_list, eq_list_iff,
}
use mathlib.Core.Path.{subst}
use lethean.Prelude.{In}
use lethean.Prelude.Table.{Table, lookup, insert, lookup-insert}
use lethean.Heal.{
  HealItem, HealKind, group_by, losers, keeper, winner, ref_key, hide_all, visible, file_visible,
  keep_if, successor_of, resolve, acyclic, hide_identical, hide_copies, hide_replaced, plan,
}
use lethean.Heal.Losers.{AreDistinct, pair_eq}
use lethean.Heal.Stays.{Has, losers_lem}
use lethean.Heal.Chosen.{keeper-Has, winner-Has, keep_if-In}
use lethean.Heal.Successors.{AreFiles, succeed_all-AreFiles, replaced_lem}

abbrev Hidden : Type 0
Hidden = Table (Text × HealKind)

-- The id that a hidden id is replaced by; a visible id stands for itself.
abbrev pub hop : Hidden → Text → Text
hop hidden id = elim (lookup id hidden) [ none ↦ id | some v ↦ v.0 ]

hop_visible : (hidden : Hidden) (id : Text) → lookup id hidden ≡ none → hop hidden id ≡ id
hop_visible hidden id e =
    ap (λ (o : Option (Text × HealKind)). elim o [ none ↦ id | some v ↦ v.0 ]) e

hop_hidden :
    (hidden : Hidden) (id : Text) (v : Text × HealKind)
    → lookup id hidden ≡ some v
    → hop hidden id ≡ v.0
hop_hidden hidden id v e =
    ap (λ (o : Option (Text × HealKind)). elim o [ none ↦ id | some v ↦ v.0 ]) e

hide_all-cases :
    (kind : HealKind) (pairs : List (Text × Text)) (hidden : Hidden) (id : Text)
    (v : Text × HealKind)
    → lookup id (hide_all kind pairs hidden) ≡ some v
    → In (id, v.0) pairs ⊎ (lookup id hidden ≡ some v)
unfolding hide_all
hide_all-cases kind [] hidden id v h = inr h
hide_all-cases kind ((old, succ) ∷ pairs) hidden id v h =
    elim (hide_all-cases kind pairs (insert old (succ, kind) hidden) id v h) [
      | inl m ↦ inl (inr m)
      | inr look ↦ elim (Bool-cases (eq_list old id)) [
        | inl same ↦
            let entry : Text × HealKind = (succ, kind) in
            let e : entry ≡ v = ground (arith, same, lookup-insert old id entry hidden, look) in
            inl (inl (pair_eq _ _ (sym ((eq_list_iff old id).0 same)) (sym (ap (λ x. x.0) e))))
        | inr other ↦ inr (ground (arith, other, lookup-insert old id (succ, kind) hidden, look))
      ]
    ]

hide_all-absent :
    (kind : HealKind) (pairs : List (Text × Text)) (hidden : Hidden) (id : Text)
    → ((t : Text) → In (id, t) pairs → ⊥)
    → lookup id hidden ≡ none
    → lookup id (hide_all kind pairs hidden) ≡ none
hide_all-absent kind pairs hidden id away h =
    elim (Option-cases (lookup id (hide_all kind pairs hidden))) [
      | inl e ↦ e
      | inr (v, e) ↦ elim (hide_all-cases kind pairs hidden id v e) [
        | inl m ↦ absurd (away v.0 m)
        | inr look ↦ cc
      ]
    ]

hide_all-before :
    (kind : HealKind) (pairs : List (Text × Text)) (hidden : Hidden) (id : Text)
    → lookup id (hide_all kind pairs hidden) ≡ none
    → lookup id hidden ≡ none
unfolding hide_all
hide_all-before kind [] hidden id h = h
hide_all-before kind ((old, succ) ∷ pairs) hidden id h =
    let before = hide_all-before kind pairs (insert old (succ, kind) hidden) id h in
    ground (arith, lookup-insert old id (succ, kind) hidden, before)

module _ (items : List HealItem) (d : AreDistinct items) where
  abbrev first : Hidden
  first = hide_identical items

  abbrev second : Hidden
  second = hide_copies items first

  abbrev third : Hidden
  third = hide_replaced items second

  abbrev files : List HealItem
  files = keep_if (file_visible second) items

  abbrev pairs1 : List (Text × Text)
  pairs1 = losers keeper (group_by (λ it. some it.fingerprint) items [])

  abbrev pairs2 : List (Text × Text)
  pairs2 = losers winner (group_by ref_key (keep_if (visible first) items) [])

  abbrev pairs3 : List (Text × Text)
  pairs3 =
      let succ = successor_of items second in acyclic (resolve succ succ).0 (resolve succ succ).1

  -- The id is one of the items', and comes to a visible one in so many hops.
  abbrev Stands : Text → Type 0
  Stands id = Has items id × (lookup id third ≡ none)

  abbrev Settled : ℕ → Text → Type 0
  Settled zero id = Stands id
  Settled (suc n) id =
      Stands id ⊎ ((v : Text × HealKind) × (lookup id third ≡ some v) × Settled n v.0)

  visible-lookup :
      (hidden : Hidden) (it : HealItem) → visible hidden it ≡ true → lookup it.id hidden ≡ none
  visible-lookup hidden it h = elim (Option-cases (lookup it.id hidden)) [
    | inl e ↦ e
    | inr (v, e) ↦ ground arith
  ]

  gone1 : (id w : Text) → In (id, w) pairs1 → Has items w × ((t : Text) → In (w, t) pairs1 → ⊥)
  gone1 = losers_lem keeper keeper-Has (λ it. some it.fingerprint) items items d (λ it m. m)

  gone2 :
      (id w : Text)
      → In (id, w) pairs2
      → Has items w × (lookup w first ≡ none) × ((t : Text) → In (w, t) pairs2 → ⊥)
  gone2 id w h =
      let ((b, m, e), away) =
        losers_lem winner winner-Has ref_key items (keep_if (visible first) items) d
          (λ it m. (keep_if-In (visible first) items it m).0) id w h in
      let (m', v) = keep_if-In (visible first) items b m in
      ((b, m', e), ap (λ x. lookup x first) (sym e) ∙ visible-lookup first b v, away)

  gone3 :
      (id w : Text)
      → In (id, w) pairs3
      → Has items w × (lookup w second ≡ none) × ((t : Text) → In (w, t) pairs3 → ⊥)
  gone3 id w h =
      let held : AreFiles files (successor_of items second) =
        unfold successor_of in
        succeed_all-AreFiles files (group_by (λ it. it.node_ref) files []) files [] (λ n m. m)
          (tt, λ i s e. absurd (unfold lookup in cc)) in
      let ((b, m, e), away) = replaced_lem files (successor_of items second) held id w h in
      let (m', v) = keep_if-In (file_visible second) items b m in
      (
        (b, m', e),
        ap (λ x. lookup x second) (sym e) ∙ visible-lookup second b (ground (arith, v)),
        away,
      )

  from1 : (id : Text) (v : Text × HealKind) → lookup id first ≡ some v → In (id, v.0) pairs1
  unfolding hide_identical
  from1 id v e = elim (hide_all-cases HealKind.identical pairs1 [] id v e) [
    | inl m ↦ m
    | inr look ↦ absurd (unfold lookup in cc)
  ]

  from2 :
      (id : Text) (v : Text × HealKind)
      → lookup id second ≡ some v
      → In (id, v.0) pairs2 ⊎ (lookup id first ≡ some v)
  unfolding hide_copies
  from2 = hide_all-cases HealKind.superseded pairs2 first

  from3 :
      (id : Text) (v : Text × HealKind)
      → lookup id third ≡ some v
      → In (id, v.0) pairs3 ⊎ (lookup id second ≡ some v)
  unfolding hide_replaced
  from3 = hide_all-cases HealKind.superseded pairs3 second

  end3 : (id w : Text) → In (id, w) pairs3 → Stands w
  unfolding hide_replaced
  end3 id w h =
      let (has, look, away) = gone3 id w h in
      (has, hide_all-absent HealKind.superseded pairs3 second w away look)

  stay : (n : ℕ) (id : Text) → Stands id → Settled n id
  stay zero id s = s
  stay (suc n) id s = inl s

  later : (n : ℕ) (id : Text) → Settled n id → Settled (suc n) id
  later zero id s = inl s
  later (suc n) id (inl s) = inl s
  later (suc n) id (inr (v, e, s)) = inr (v, e, later n v.0 s)

  -- An id that the first rule leaves.
  follow :
      (n : ℕ) (w : Text)
      → Has items w
      → lookup w first ≡ none
      → ((t : Text) → In (w, t) pairs2 → Settled n t)
      → Settled (suc n) w
  follow n w has none_first next = elim (Option-cases (lookup w third)) [
    | inl e ↦ inl (has, e)
    | inr (v, e) ↦ elim (from3 w v e) [
      | inl m ↦ inr (v, e, stay n v.0 (end3 w v.0 m))
      | inr look ↦ elim (from2 w v look) [ inl m ↦ inr (v, e, next v.0 m) | inr look' ↦ cc ]
    ]
  ]

  end2 : (id w : Text) → In (id, w) pairs2 → Settled 1 w
  end2 id w h =
      let (has, look, away) = gone2 id w h in follow 0 w has look (λ t m. absurd (away t m))

  end1 : (id w : Text) → In (id, w) pairs1 → Settled 2 w
  unfolding hide_identical
  end1 id w h =
      let (has, away) = gone1 id w h in
      follow 1 w has (hide_all-absent HealKind.identical pairs1 [] w away (unfold lookup in refl))
        (end2 w)

  settled : (id : Text) → Has items id → Settled 3 id
  settled id has = elim (Option-cases (lookup id third)) [
    | inl e ↦ inl (has, e)
    | inr (v, e) ↦ elim (from3 id v e) [
      | inl m ↦ inr (v, e, stay 2 v.0 (end3 id v.0 m))
      | inr look ↦ elim (from2 id v look) [
        | inl m ↦ inr (v, e, later 1 v.0 (end2 id v.0 m))
        | inr look' ↦ inr (v, e, end1 id v.0 (from1 id v look'))
      ]
    ]
  ]

  hops : ℕ → Text → Text
  hops zero id = id
  hops (suc n) id = hops n (hop third id)

  hops-Stands : (n : ℕ) (id : Text) → Settled n id → Stands (hops n id)
  unfolding hops
  hops-Stands zero id s = s
  hops-Stands (suc n) id (inl s) =
      subst (λ x. Stands (hops n x)) (sym (hop_visible third id s.1))
        (hops-Stands n id (stay n id s))
  hops-Stands (suc n) id (inr (v, e, s)) =
      subst (λ x. Stands (hops n x)) (sym (hop_hidden third id v e)) (hops-Stands n v.0 s)

  -- When no two records share an id, every record that the plan hides leads, in three hops to the
  -- successor or fewer, to a record of the vault that the plan leaves visible.
  pub plan_settles :
      (it : HealItem)
      → In it items
      → (b : HealItem) × In b items
        × (b.id ≡ hop (plan items).hidden (hop (plan items).hidden (hop (plan items).hidden it.id)))
        × (lookup b.id (plan items).hidden ≡ none)
  unfolding plan hops
  plan_settles it m =
      let ((b, m', e), v) = hops-Stands 3 it.id (settled it.id (it, m, refl)) in
      (b, m', e, ap (λ x. lookup x third) e ∙ v)
