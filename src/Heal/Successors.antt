-- ===== src/Heal/Successors.antt =====
-- The successors that the third rule of `plan` of `lethean_fuse/src/heal.rs` collects and resolves.
use lethean.Prelude.{
  ℕ, zero, suc, ◌≡◌, refl, sym, ap, ◌∙◌, ◌≢◌, ◌⊎◌, inl, inr, Bool, false, ◌&&◌, not, none, some,
  List, [], ◌∷◌, arith, if◌then◌else◌, Bool-cases, Option-cases, Text, eq_list,
}
use mathlib.Core.Path.{subst}
use lethean.Prelude.{In}
use lethean.Prelude.Table.{Table, lookup, insert, lookup-insert, Unique, insert-Unique}
use lethean.Heal.{
  HealItem, Walk, walk, walk_fuel, contains, offer, offer_all, succeed, succeed_all, resolve,
  settle, acyclic, same_ref, unwrap_or, text_lt,
}
use lethean.Heal.Losers.{lookup_of-In}
use lethean.Heal.Stays.{Has}
use lethean.Heal.Chain.{Steps, walk_lem}

module _ (files : List HealItem) where
  -- Every successor is one of the files.
  abbrev pub AreFiles : Table Text → Type 0
  AreFiles succ = Unique succ × ((id s : Text) → lookup id succ ≡ some s → Has files s)

  insert-AreFiles :
      (old n : Text) (succ : Table Text)
      → Has files n
      → AreFiles succ
      → AreFiles (insert old n succ)
  insert-AreFiles old n succ hn (u, h) = (
    insert-Unique old n succ u,
    λ id s look. elim (Bool-cases (eq_list old id)) [
      | inl same ↦
          let e : n ≡ s = ground (arith, same, lookup-insert old id n succ, look) in
          subst (Has files) e hn
      | inr other ↦ h id s (ground (arith, other, lookup-insert old id n succ, look))
    ],
  )

  -- What an offer leaves is the table, or the table with the offer.
  offer-cases :
      (old n : Text) (succ : Table Text)
      → (offer old n succ ≡ insert old n succ) ⊎ (offer old n succ ≡ succ)
  offer-cases old n succ = elim (Option-cases (lookup old succ)) [
    | inl e ↦ inl (unfold offer in ground arith)
    | inr (first, e) ↦ elim (Bool-cases (text_lt n first)) [
      | inl less ↦ inl (unfold offer in ground arith)
      | inr more ↦ inr (unfold offer in ground arith)
    ]
  ]

  offer-AreFiles :
      (old n : Text) (succ : Table Text) → Has files n → AreFiles succ → AreFiles (offer old n succ)
  offer-AreFiles old n succ hn h = elim (offer-cases old n succ) [
    | inl e ↦ subst AreFiles (sym e) (insert-AreFiles old n succ hn h)
    | inr e ↦ subst AreFiles (sym e) h
  ]

  offer_all-AreFiles :
      (n : HealItem) (olds : List HealItem) (succ : Table Text)
      → Has files n.id
      → AreFiles succ
      → AreFiles (offer_all n olds succ)
  unfolding offer_all
  offer_all-AreFiles n [] succ hn h = h
  offer_all-AreFiles n (old ∷ olds) succ hn h = elim (Bool-cases (eq_list old.id n.id)) [
    | inl same ↦ rw same (offer_all-AreFiles n olds succ hn h)
    | inr other ↦ rw other (
        offer_all-AreFiles n olds (offer old.id n.id succ) hn
          (offer-AreFiles old.id n.id succ hn h))
  ]

  succeed-AreFiles :
      (by_ref : Table (List HealItem)) (n : HealItem) (succ : Table Text)
      → Has files n.id
      → AreFiles succ
      → AreFiles (succeed by_ref n succ)
  succeed-AreFiles by_ref n succ hn h = elim (succeed-cases) [
    | inl e ↦ subst AreFiles (sym e) h
    | inr (olds, e) ↦ subst AreFiles (sym e) (offer_all-AreFiles n olds succ hn h)
  ]
    where
      succeed-cases :
          (succeed by_ref n succ ≡ succ)
          ⊎ ((olds : List HealItem) × (succeed by_ref n succ ≡ offer_all n olds succ))
      succeed-cases = elim (Option-cases n.from) [
        | inl e ↦ inl (unfold succeed in ground arith)
        | inr (from, e) ↦ elim (Bool-cases (same_ref n.node_ref from)) [
          | inl same ↦ inl (unfold succeed in ground arith)
          | inr other ↦ inr (unwrap_or (lookup from by_ref) [], unfold succeed in ground arith)
        ]
      ]

  pub succeed_all-AreFiles :
      (by_ref : Table (List HealItem)) (ns : List HealItem) (succ : Table Text)
      → ((n : HealItem) → In n ns → In n files)
      → AreFiles succ
      → AreFiles (succeed_all by_ref ns succ)
  unfolding succeed_all
  succeed_all-AreFiles by_ref [] succ sub h = h
  succeed_all-AreFiles by_ref (n ∷ ns) succ sub h =
      succeed_all-AreFiles by_ref ns (succeed by_ref n succ) (λ m i. sub m (inr i))
        (succeed-AreFiles by_ref n succ (n, sub n (inl refl), refl) h)

  module _ (succ : Table Text) (h : AreFiles succ) where
    Steps-Has : (n : ℕ) (a b : Text) → Has files a → Steps succ n a b → Has files b
    Steps-Has zero a b ha e = subst (Has files) e ha
    Steps-Has (suc n) a b ha (c, e, s) = Steps-Has n c b (h.1 a c e) s

    -- A resolved id has a successor, and is paired with a file that has none.
    abbrev pub IsResolved : Text × Text → Type 0
    IsResolved (old, cur) = (lookup old succ ≢ none) × Has files cur × (lookup cur succ ≡ none)

    resolve_reached :
        (old first cur : Text) (seen : List Text) (entries : Table Text)
        → walk (walk_fuel succ) succ first (old ∷ []) ≡ Walk.reached cur seen
        → contains seen cur ≡ false
        → (resolve succ ((old, first) ∷ entries)).1 ≡ (old, cur) ∷ (resolve succ entries).1
    unfolding resolve settle
    resolve_reached old first cur seen entries r c =
        let rest = resolve succ entries in
        let kept : Bool → List Text × List (Text × Text) =
          λ b. if b then (old ∷ rest.0, rest.1) else (rest.0, (old, cur) ∷ rest.1) in
        ap (λ w. (settle old w rest).1) r ∙ ap (λ b. (kept b).1) c

    resolve_cycle :
        (old first : Text) (entries : Table Text)
        → walk (walk_fuel succ) succ first (old ∷ []) ≡ Walk.cycle
        → (resolve succ ((old, first) ∷ entries)).1 ≡ (resolve succ entries).1
    unfolding resolve settle
    resolve_cycle old first entries r = ap (λ w. (settle old w (resolve succ entries)).1) r

    resolve-IsResolved :
        (entries : Table Text) (p : Text × Text)
        → ((e : Text × Text) → In e entries → In e succ)
        → In p (resolve succ entries).1
        → IsResolved p
    resolve-IsResolved [] p sub m = absurd (unfold resolve in m)
    resolve-IsResolved ((old, first) ∷ entries) p sub m =
        let look : lookup old succ ≡ some first =
          lookup_of-In old first succ h.0 (sub (old, first) (inl refl)) in
        let rest = resolve-IsResolved entries p (λ e i. sub e (inr i)) in
        let w = walk (walk_fuel succ) succ first (old ∷ []) in
        elim (walk_lem succ old first look) [
          | inl (n, cur, seen, r, s, e, c) ↦
              elim (subst (In p) (resolve_reached old first cur seen entries r c) m) [
                | inl at ↦
                    subst IsResolved (sym at)
                      (λ x. cc, Steps-Has n first cur (h.1 old first look) s, e)
                | inr m' ↦ rest m'
              ]
          | inr (r, _) ↦ rest (subst (In p) (resolve_cycle old first entries r) m)
        ]

    acyclic-In :
        (cyclic : List Text) (pairs : List (Text × Text)) (p : Text × Text)
        → In p (acyclic cyclic pairs)
        → In p pairs
    unfolding acyclic
    acyclic-In cyclic [] p m = m
    acyclic-In cyclic ((old, cur) ∷ pairs) p m =
        let rest = acyclic cyclic pairs in
        let kept = not (contains cyclic old) && not (contains cyclic cur) in
        let pick : Bool → List (Text × Text) = λ b. if b then (old, cur) ∷ rest else rest in
        elim (Bool-cases kept) [
          | inl good ↦ elim (subst (λ b. In p (pick b)) good m) [
            | inl e ↦ inl e
            | inr i ↦ inr (acyclic-In cyclic pairs p i)
          ]
          | inr bad ↦ inr (acyclic-In cyclic pairs p (subst (λ b. In p (pick b)) bad m))
        ]

    -- Rule 3 hides ids behind files that it does not hide.
    pub replaced_lem :
        (id w : Text)
        → In (id, w) (acyclic (resolve succ succ).0 (resolve succ succ).1)
        → Has files w
          × ((t : Text) → In (w, t) (acyclic (resolve succ succ).0 (resolve succ succ).1) → ⊥)
    replaced_lem id w m =
        let pairs = resolve succ succ in
        let (_, has, last) =
          resolve-IsResolved succ (id, w) (λ e i. i) (acyclic-In pairs.0 pairs.1 (id, w) m) in
        (
          has,
          λ t i.
              (resolve-IsResolved succ (w, t) (λ e j. j) (acyclic-In pairs.0 pairs.1 (w, t) i)).0
                last,
        )
