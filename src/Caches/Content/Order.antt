-- ===== src/Caches/Content/Order.antt =====
-- The laws of the recency order of `ContentCache`: lookups, and the stamps in increasing order.
use lethean.Prelude.{
  ℕ, ◌≤◌, ◌<◌, ◌≡◌, refl, sym, inl, inr, none, some, List, [], ◌∷◌, arith, ltb, ◌==◌, if◌then◌else◌,
  ltb→lt, ==_iff, Bool-cases, Text,
}
use mathlib.Core.Path.{subst}
use lethean.Caches.Content.{order_insert, order_lookup, order_remove}

abbrev pub Order : Type 0
Order = List (ℕ × Text)

pub order_lookup-insert :
    (s t : ℕ) (id : Text) (o : Order)
    → order_lookup t (order_insert s id o) ≡ (if t == s then some id else order_lookup t o)
unfolding order_lookup order_insert
order_lookup-insert s t id [] = refl
order_lookup-insert s t id ((u, j) ∷ o) = ground (arith, order_lookup-insert s t id o)

pub order_lookup-remove :
    (s t : ℕ) (o : Order)
    → order_lookup t (order_remove s o) ≡ (if t == s then none else order_lookup t o)
unfolding order_lookup order_remove
order_lookup-remove s t [] = ground arith
order_lookup-remove s t ((u, j) ∷ o) = ground (arith, order_lookup-remove s t o)

-- Every stamp lies above (at most at) a bound.
abbrev pub AllAbove : ℕ → Order → Type 0
AllAbove s [] = Unit
AllAbove s ((t, j) ∷ o) = (s < t) × AllAbove s o

abbrev pub AllUpTo : ℕ → Order → Type 0
AllUpTo n [] = Unit
AllUpTo n ((t, j) ∷ o) = (t ≤ n) × AllUpTo n o

abbrev pub Sorted : Order → Type 0
Sorted [] = Unit
Sorted ((t, j) ∷ o) = AllAbove t o × Sorted o

AllAbove-trans : (s t : ℕ) (o : Order) → s < t → AllAbove t o → AllAbove s o
AllAbove-trans s t [] h a = tt
AllAbove-trans s t ((u, j) ∷ o) h a = (omega arith, AllAbove-trans s t o h a.1)

pub AllAbove-lookup : (s : ℕ) (o : Order) → AllAbove s o → order_lookup s o ≡ none
unfolding order_lookup
AllAbove-lookup s [] a = refl
AllAbove-lookup s ((t, j) ∷ o) a = ground (arith, AllAbove-lookup s o a.1)

order_insert-AllAbove :
    (s t : ℕ) (id : Text) (o : Order) → s < t → AllAbove s o → AllAbove s (order_insert t id o)
unfolding order_insert
order_insert-AllAbove s t id [] h a = (h, tt)
order_insert-AllAbove s t id ((u, j) ∷ o) h a = ground (arith, order_insert-AllAbove s t id o h a.1)

order_remove-AllAbove : (s t : ℕ) (o : Order) → AllAbove s o → AllAbove s (order_remove t o)
unfolding order_remove
order_remove-AllAbove s t [] a = tt
order_remove-AllAbove s t ((u, j) ∷ o) a = ground (arith, order_remove-AllAbove s t o a.1)

order_remove_absent : (s : ℕ) (o : Order) → AllAbove s o → order_remove s o ≡ o
unfolding order_remove
order_remove_absent s [] a = refl
order_remove_absent s ((u, j) ∷ o) a = ground (arith, order_remove_absent s o a.1)

pub order_remove_head :
    (s : ℕ) (id : Text) (o : Order)
    → AllAbove s o
    → (order_remove s ((s, id) ∷ o) ≡ o) × (order_lookup s ((s, id) ∷ o) ≡ some id)
unfolding order_remove order_lookup
order_remove_head s id o a = ground (arith, order_remove_absent s o a)

pub order_insert-Sorted : (s : ℕ) (id : Text) (o : Order) → Sorted o → Sorted (order_insert s id o)
unfolding order_insert
order_insert-Sorted s id [] h = (tt, tt)
order_insert-Sorted s id ((u, j) ∷ o) h = elim (Bool-cases (ltb s u)) [
  | inl lower ↦ rw lower ((ltb→lt s u lower, AllAbove-trans s u o (ltb→lt s u lower) h.0), h)
  | inr upper ↦ elim (Bool-cases (s == u)) [
    | inl same ↦ rw (upper, same) (subst (λ x. AllAbove x o) (sym ((==_iff s u).0 same)) h.0, h.1)
    | inr other ↦
        rw (upper, other)
          (order_insert-AllAbove u s id o (ground arith) h.0, order_insert-Sorted s id o h.1)
  ]
]

pub order_remove-Sorted : (s : ℕ) (o : Order) → Sorted o → Sorted (order_remove s o)
unfolding order_remove
order_remove-Sorted s [] h = tt
order_remove-Sorted s ((u, j) ∷ o) h =
    ground (arith, order_remove-AllAbove u s o h.0, order_remove-Sorted s o h.1)

AllUpTo-widen : (n m : ℕ) (o : Order) → n ≤ m → AllUpTo n o → AllUpTo m o
AllUpTo-widen n m [] h a = tt
AllUpTo-widen n m ((u, j) ∷ o) h a = (omega arith, AllUpTo-widen n m o h a.1)

pub AllUpTo-lookup :
    (n s : ℕ) (o : Order) (id : Text) → AllUpTo n o → order_lookup s o ≡ some id → s ≤ n
unfolding order_lookup
AllUpTo-lookup n s [] id a h = absurd (ground arith)
AllUpTo-lookup n s ((u, j) ∷ o) id a h = ground (arith, AllUpTo-lookup n s o id a.1)

pub order_insert-AllUpTo :
    (n m s : ℕ) (id : Text) (o : Order)
    → n ≤ m
    → s ≤ m
    → AllUpTo n o
    → AllUpTo m (order_insert s id o)
unfolding order_insert
order_insert-AllUpTo n m s id [] h k a = (k, tt)
order_insert-AllUpTo n m s id ((u, j) ∷ o) h k a =
    ground (arith, order_insert-AllUpTo n m s id o h k a.1, AllUpTo-widen n m o h a.1)

pub order_remove-AllUpTo : (n s : ℕ) (o : Order) → AllUpTo n o → AllUpTo n (order_remove s o)
unfolding order_remove
order_remove-AllUpTo n s [] a = tt
order_remove-AllUpTo n s ((u, j) ∷ o) a = ground (arith, order_remove-AllUpTo n s o a.1)
