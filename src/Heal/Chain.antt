-- ===== src/Heal/Chain.antt =====
-- The walk along the successors in `plan` of `lethean_fuse/src/heal.rs`.
use lethean.Prelude.{
  ℕ, zero, suc, ◌+◌, ◌≤◌, ◌<◌, ◌≡◌, refl, sym, ap, ◌∙◌, ◌≢◌, ◌⊎◌, inl, inr, true, false, Option,
  none, some, List, [], ◌∷◌, arith, if◌then◌else◌, Bool-cases, length, Text, eq_list, eq_list_iff,
}
use mathlib.Core.Path.{subst}
use lethean.Prelude.Table.{Table, lookup}
use lethean.Heal.{Walk, walk, walk_fuel, contains}

module _ (succ : Table Text) where
  -- `n` steps along the table lead from one id to another.
  abbrev pub Steps : ℕ → Text → Text → Type 0
  Steps zero a b = a ≡ b
  Steps (suc n) a b = (c : Text) × (lookup a succ ≡ some c) × Steps n c b

  -- The ids of the table that the walk has not seen.
  unfoldable unseen : List Text → Table Text → ℕ
  unseen seen [] = 0
  unseen seen ((k, v) ∷ m) = (if contains seen k then 0 else 1) + unseen seen m

  unseen_le :
      (cur : Text) (seen : List Text) (m : Table Text) → unseen (cur ∷ seen) m ≤ unseen seen m
  unfolding unseen contains
  unseen_le cur seen [] = omega arith
  unseen_le cur seen ((k, v) ∷ m) = ground (arith, unseen_le cur seen m)

  unseen_lt :
      (cur : Text) (seen : List Text) (m : Table Text) (next : Text)
      → lookup cur m ≡ some next
      → contains seen cur ≡ false
      → unseen (cur ∷ seen) m < unseen seen m
  unfolding unseen contains lookup
  unseen_lt cur seen [] next h c = cc
  unseen_lt cur seen ((k, v) ∷ m) next h c = elim (Bool-cases (eq_list k cur)) [
    | inl same ↦
        let e : k ≡ cur = (eq_list_iff k cur).0 same in
        let new : contains seen k ≡ false = ap (contains seen) e ∙ c in
        let here : eq_list cur k ≡ true = (eq_list_iff cur k).1 (sym e) in
        ground (arith, unseen_le cur seen m, new, here)
    | inr other ↦ ground (arith, other, unseen_lt cur seen m next, unseen_le cur seen m)
  ]

  unseen_bound : (seen : List Text) (m : Table Text) → unseen seen m ≤ length m
  unfolding unseen
  unseen_bound seen [] = omega arith
  unseen_bound seen ((k, v) ∷ m) = ground (arith, unseen_bound seen m)

  Steps-suc : (n : ℕ) (a b c : Text) → Steps n a b → lookup b succ ≡ some c → Steps (suc n) a c
  Steps-suc zero a b c e h = (c, ap (λ x. lookup x succ) e ∙ h, refl)
  Steps-suc (suc n) a b c (d, e, s) h = (d, e, Steps-suc n d b c s h)

  -- A chain that ends passes through whatever its start leads to.
  passes :
      (n m : ℕ) (a b t : Text)
      → Steps n a t
      → lookup t succ ≡ none
      → Steps m a b
      → (k : ℕ) × (n ≡ m + k) × Steps k b t
  passes n zero a b t s h e = (n, omega arith, subst (λ x. Steps n x t) e s)
  passes zero (suc m) a b t s h (c, e, _) =
      let none_here : lookup a succ ≡ none = ap (λ x. lookup x succ) s ∙ h in cc
  passes (suc n) (suc m) a b t (d, e, s) h (c, e', s') =
      let same : d ≡ c = some_eq (sym e ∙ e') in
      let (k, at, rest) = passes n m c b t (subst (λ x. Steps n x t) same s) h s' in
      (k, omega (arith, at), rest)
    where
      some_eq : {a b : Text} → some a ≡ some b → a ≡ b
      some_eq e = cc

  -- A chain that comes back never ends.
  no_end :
      (fuel n p : ℕ) (a t : Text)
      → n < fuel
      → Steps n a t
      → lookup t succ ≡ none
      → Steps (suc p) a a
      → ⊥
  no_end zero n p a t f s h loop = omega arith
  no_end (suc fuel) n p a t f s h loop =
      let (k, at, rest) = passes n (suc p) a a t s h loop in
      no_end fuel k p a t (omega (arith, at)) rest h loop

  -- Every id that was seen leads to `cur`.
  abbrev pub Leads : List Text → Text → Type 0
  Leads [] cur = Unit
  Leads (k ∷ ks) cur = ((p : ℕ) × Steps (suc p) k cur) × Leads ks cur

  Leads-next :
      (seen : List Text) (cur next : Text)
      → Leads seen cur
      → lookup cur succ ≡ some next
      → Leads seen next
  Leads-next [] cur next h e = tt
  Leads-next (k ∷ ks) cur next ((p, s), h) e =
      ((suc p, Steps-suc (suc p) k cur next s e), Leads-next ks cur next h e)

  comes_back :
      (seen : List Text) (cur : Text)
      → Leads seen cur
      → contains seen cur ≡ true
      → (p : ℕ) × Steps (suc p) cur cur
  unfolding contains
  comes_back [] cur h e = cc
  comes_back (k ∷ ks) cur ((p, s), h) e = elim (Bool-cases (eq_list k cur)) [
    | inl same ↦ (p, subst (λ x. Steps (suc p) x cur) ((eq_list_iff k cur).0 same) s)
    | inr other ↦ comes_back ks cur h (ground (arith, other, e))
  ]

  -- The walk from an id has found the end of its chain, or the chain has no end.
  abbrev pub Found : Text → Walk → Type 0
  Found a w =
      ((n : ℕ) × (cur : Text) × (seen : List Text) × (w ≡ Walk.reached cur seen)
        × Steps n a cur
        × (lookup cur succ ≡ none)
        × (contains seen cur ≡ false))
      ⊎ ((w ≡ Walk.cycle) × ((n : ℕ) (t : Text) → Steps n a t → lookup t succ ≢ none))

  walk-Found :
      (fuel : ℕ) (cur : Text) (seen : List Text)
      → unseen seen succ < fuel
      → Leads seen cur
      → Found cur (walk fuel succ cur seen)
  unfolding walk
  walk-Found zero cur seen f h = absurd (omega arith)
  walk-Found (suc fuel) cur seen f h =
      go (λ next seen' f' h'. walk-Found fuel next seen' f' h') (lookup cur succ) refl
    where
      go :
          ((next : Text) (seen' : List Text)
            → unseen seen' succ < fuel
            → Leads seen' next
            → Found next (walk fuel succ next seen'))
          → (o : Option Text) → lookup cur succ ≡ o
          → Found cur (elim o [
            | none ↦ Walk.reached cur seen
            | some next ↦
                let rest = walk fuel succ next (cur ∷ seen) in
                if contains seen cur then Walk.cycle else rest
          ])
      go again none e = inl (0, cur, seen, refl, refl, e, not_seen (Bool-cases (contains seen cur)))
        where
          not_seen :
              (contains seen cur ≡ true) ⊎ (contains seen cur ≡ false) → contains seen cur ≡ false
          not_seen (inl seen_it) = let (p, (c, e', s)) = comes_back seen cur h seen_it in cc
          not_seen (inr new) = new
      go again (some next) e = elim (Bool-cases (contains seen cur)) [
        | inl back ↦ rw back (
            inr (
              refl,
              λ n t s e'.
                  let (p, loop) = comes_back seen cur h back in
                  no_end (suc n) n p cur t (omega arith) s e' loop,
            ))
        | inr new ↦
            rw new
              (elim (again next (cur ∷ seen) (omega (arith, f, unseen_lt cur seen succ next e new))
                ((0, (next, e, refl)), Leads-next seen cur next h e)) [
                  | inl (n, last, seen', r, s, e2, c2) ↦
                      inl (suc n, last, seen', r, (next, e, s), e2, c2)
                  | inr (r, endless) ↦ inr (r, λ n t s e'. ends_not n t s e' endless)
                ])
      ]
        where
          ends_not :
              (n : ℕ) (t : Text)
              → Steps n cur t
              → lookup t succ ≡ none
              → ((n : ℕ) (t : Text) → Steps n next t → lookup t succ ≢ none)
              → ⊥
          ends_not zero t s e' endless =
              let here : lookup cur succ ≡ none = ap (λ x. lookup x succ) s ∙ e' in cc
          ends_not (suc n) t (c, e2, s) e' endless =
              let same : some c ≡ some next = sym e2 ∙ e in
              endless n t (subst (λ o. Steps n (elim o [ none ↦ c | some x ↦ x ]) t) same s) e'

  -- With a unit of fuel more than the table has entries, the walk from the successor of an id ends:
  -- either at the one id without a successor that the chain leads to, which is none of those seen, or
  -- by telling that the chain never comes to such an id.
  pub walk_lem :
      (old first : Text)
      → lookup old succ ≡ some first
      → Found first (walk (walk_fuel succ) succ first (old ∷ []))
  walk_lem old first e =
      walk-Found (walk_fuel succ) first (old ∷ []) (omega (arith, unseen_bound (old ∷ []) succ))
        ((0, (first, e, refl)), tt)
