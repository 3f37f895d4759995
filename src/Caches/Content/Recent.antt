-- ===== src/Caches/Content/Recent.antt =====
-- What was just stored is what a lookup finds: the eviction never reaches the newest entry.
use lethean.Prelude.{
  ℕ, ◌+◌, ◌≤◌, ◌≡◌, refl, inl, inr, false, some, [], ◌∷◌, arith, ltb, ◌==◌, ==_iff, Bool-cases,
  length, Bytes, Text, eq_list_iff, eq_list_refl,
}
use mathlib.Core.Path.{subst}
use lethean.Prelude.Table.{lookup, remove, lookup-insert, lookup-remove, total-remove}
use lethean.Caches.Content.{
  ContentCache, max_bytes, max_entry_bytes, order_insert, order_lookup, get, forget, evict_one,
  evict, store, put,
}
use lethean.Caches.Content.Order.{Order, AllAbove, AllUpTo, order_remove_head, order_insert-AllUpTo}
use lethean.Caches.Content.Valid.{
  IsValid, IsLinked, unlink, no_entries, evict_one-IsValid, forget-IsValid, store-IsValid,
}

-- The newest stamp is the last of the order.
newest_last : (n : ℕ) (o : Order) → AllAbove n o → AllUpTo n o → o ≡ []
newest_last n [] a u = refl
newest_last n ((t, j) ∷ o) a u = absurd (omega arith)

-- With only the newest entry left, the bytes are its own.
only_newest :
    (n : ℕ) (id : Text) (b : Bytes) (c : ContentCache)
    → IsValid (record c { order = (n, id) ∷ [] })
    → lookup id c.entries ≡ some (b, n)
    → c.total_bytes ≡ length b
only_newest n id b c v e =
    let (gone, _) = order_remove_head n id [] tt in
    let rest : IsLinked (remove id c.entries) [] =
      subst (IsLinked (remove id c.entries)) gone
        (unlink c.entries ((n, id) ∷ []) id b n e v.linked) in
    ground (
      arith,
      v.counted,
      no_entries (remove id c.entries) rest,
      total-remove (λ w. length w.0) id c.entries v.unique,
    )

evict_one_keeps :
    (s n : ℕ) (j id : Text) (b : Bytes) (o : Order) (c : ContentCache)
    → IsValid (record c { order = (s, j) ∷ o })
    → lookup id c.entries ≡ some (b, n)
    → (s == n) ≡ false
    → lookup id (evict_one c j).entries ≡ some (b, n)
unfolding evict_one
evict_one_keeps s n j id b o c v e other =
    let (_, here) = order_remove_head s j o v.sorted.0 in
    let (b', f) = v.linked.stored s j here in
    rw (f, evict_one) (ground (arith, lookup-remove j id c.entries, eq_list_iff j id))

-- If the first of the order is the newest, it is alone.
newest_alone :
    (s n : ℕ) (j id : Text) (b : Bytes) (o : Order) (c : ContentCache)
    → IsValid (record c { order = (s, j) ∷ o })
    → AllUpTo n o
    → lookup id c.entries ≡ some (b, n)
    → s ≡ n
    → c.total_bytes ≡ length b
newest_alone s n j id b o c v u e same =
    let (_, here) = order_remove_head s j o v.sorted.0 in
    let listed : order_lookup s ((s, j) ∷ o) ≡ some id = v.linked.listed id b s (ground arith) in
    let named : j ≡ id = cc in
    let alone : o ≡ [] = newest_last n o (subst (λ x. AllAbove x o) same v.sorted.0) u in
    let path : (s, j) ∷ o ≡ (n, id) ∷ [] = cc in
    only_newest n id b c (subst (λ x. IsValid (record c { order = x })) path v) e

evict_keeps_newest :
    (o : Order) (n : ℕ) (id : Text) (b : Bytes) (c : ContentCache)
    → IsValid (record c { order = o })
    → AllUpTo n o
    → lookup id c.entries ≡ some (b, n)
    → length b ≤ max_bytes
    → lookup id (evict o c).entries ≡ some (b, n)
unfolding evict
evict_keeps_newest [] n id b c v u e h = e
evict_keeps_newest ((s, j) ∷ o) n id b c v u e h = elim (Bool-cases (ltb max_bytes c.total_bytes)) [
  | inr within ↦ rw within e
  | inl over ↦ elim (Bool-cases (s == n)) [
    | inl last ↦ absurd (ground (arith, newest_alone s n j id b o c v u.1 e ((==_iff s n).0 last)))
    | inr older ↦ rw over (
        evict_keeps_newest o n id b (evict_one c j) (evict_one-IsValid s j o c v) u.1
          (evict_one_keeps s n j id b o c v e older) h)
  ]
]

order_insert-AllUpTo_self :
    (n : ℕ) (id : Text) (o : Order) → AllUpTo n o → AllUpTo (n + 1) (order_insert (n + 1) id o)
order_insert-AllUpTo_self n id o u =
    order_insert-AllUpTo n (n + 1) (n + 1) id o (omega arith) (omega arith) u

-- A file that fits the entry limit is found right after it is stored, with its bytes.
pub get-put :
    (c : ContentCache) (id : Text) (b : Bytes)
    → IsValid c
    → length b ≤ max_entry_bytes
    → (get (put c id b) id).1 ≡ some b
unfolding get put store
get-put c id b v h =
    let (v', absent) = forget-IsValid c id v in
    let d = forget c id in
    let stored = store d id b in
    let large : ltb max_entry_bytes (length b) ≡ false = ground arith in
    let found : lookup id stored.entries ≡ some (b, d.next_stamp + 1) =
      ground (arith, lookup-insert id id (b, d.next_stamp + 1) d.entries, eq_list_refl id) in
    let kept : lookup id (evict stored.order stored).entries ≡ some (b, d.next_stamp + 1) =
      evict_keeps_newest stored.order (d.next_stamp + 1) id b stored
        (store-IsValid d id b v' absent)
        (order_insert-AllUpTo_self d.next_stamp id d.order v'.stamped) found (omega arith) in
    rw (large, kept, get) refl
