-- ===== src/Caches/Content/Valid.antt =====
-- The invariant of `ContentCache`, kept by every operation, and its budget.
use lethean.Prelude.{
  ℕ, ◌+◌, ◌≤◌, ◌≡◌, refl, sym, ◌∙◌, inl, inr, false, Option, none, some, [], ◌∷◌, arith, ltb, ◌==◌,
  Bool-cases, length, Bytes, Text, eq_list, eq_list_iff, eq_list_refl,
}
use mathlib.Core.Path.{subst}
use lethean.Prelude.Table.{
  Table, lookup, insert, remove, Unique, total, lookup-insert, lookup-remove, insert-Unique,
  remove-Unique, total-insert, total-remove,
}
use lethean.Caches.Content.{
  ContentCache, max_bytes, max_entry_bytes, new, order_insert, order_lookup, order_remove, get,
  forget, evict_one, evict, store, put, rekey,
}
use lethean.Caches.Content.Order.{
  Order, order_remove_head, AllUpTo, Sorted, order_lookup-insert, order_lookup-remove,
  AllUpTo-lookup, order_insert-Sorted, order_remove-Sorted, order_insert-AllUpTo,
  order_remove-AllUpTo,
}

abbrev pub bytes_of : Table (Bytes × ℕ) → ℕ
bytes_of = total (λ v. length v.0)

-- The map and the order are two views of the same entries.
pub record IsLinked (m : Table (Bytes × ℕ)) (o : Order) : Type 0 where
  pub listed :
      (id : Text) (b : Bytes) (s : ℕ) → lookup id m ≡ some (b, s) → order_lookup s o ≡ some id
  pub stored :
      (s : ℕ) (id : Text) → order_lookup s o ≡ some id → (b : Bytes) × (lookup id m ≡ some (b, s))

pub record IsValid (c : ContentCache) : Type 0 where
  pub unique : Unique c.entries
  pub counted : c.total_bytes ≡ bytes_of c.entries
  pub sorted : Sorted c.order
  pub stamped : AllUpTo c.next_stamp c.order
  pub linked : IsLinked c.entries c.order

pub new-IsValid : IsValid new
unfolding total lookup order_lookup
new-IsValid = record {
  unique = tt;
  counted = refl;
  sorted = tt;
  stamped = tt;
  linked = record { listed = λ id b s h. cc; stored = λ s id h. absurd (ground arith) };
}

-- Taking an entry out of the map and its stamp out of the order keeps the two views together.
pub unlink :
    (m : Table (Bytes × ℕ)) (o : Order) (id : Text) (b : Bytes) (s : ℕ)
    → lookup id m ≡ some (b, s)
    → IsLinked m o
    → IsLinked (remove id m) (order_remove s o)
unlink m o id b s e l = record {
  listed = λ j c t h. ground (
    arith,
    lookup-remove id j m,
    order_lookup-remove s t o,
    eq_list_iff id j,
    l.listed j c t,
    l.listed id b s,
  );
  stored = λ t j h.
      let there : ((t == s) ≡ false) × (order_lookup t o ≡ some j) =
        ground (arith, order_lookup-remove s t o) in
      let (c, f) = l.stored t j there.1 in
      (c, ground (arith, lookup-remove id j m, eq_list_iff id j));
}

-- Adding an entry under a new stamp.
link :
    (m : Table (Bytes × ℕ)) (o : Order) (n : ℕ) (id : Text) (b : Bytes)
    → lookup id m ≡ none
    → AllUpTo n o
    → IsLinked m o
    → IsLinked (insert id (b, n + 1) m) (order_insert (n + 1) id o)
link m o n id b e u l = record {
  listed = λ j c t h. elim (Bool-cases (eq_list id j)) [
    | inl same ↦ ground (
      arith,
      lookup-insert id j (b, n + 1) m,
      order_lookup-insert (n + 1) t id o,
      eq_list_iff id j,
    )
    | inr other ↦
        let q : lookup j m ≡ some (c, t) = ground (arith, lookup-insert id j (b, n + 1) m) in
        let r : order_lookup t o ≡ some j = l.listed j c t q in
        ground (arith, order_lookup-insert (n + 1) t id o, AllUpTo-lookup n t o j u r)
  ];
  stored = λ t j h. elim (Bool-cases (t == (n + 1))) [
    | inl newest ↦ (
      b,
      ground (
        arith,
        lookup-insert id j (b, n + 1) m,
        order_lookup-insert (n + 1) t id o,
        eq_list_iff id j,
      ),
    )
    | inr older ↦
        let r : order_lookup t o ≡ some j = ground (arith, order_lookup-insert (n + 1) t id o) in
        let (c, f) = l.stored t j r in
        (c, ground (arith, lookup-insert id j (b, n + 1) m, eq_list_iff id j))
  ];
}

-- The links depend on the map's lookups alone.
relink :
    (m m' : Table (Bytes × ℕ)) (o : Order)
    → ((j : Text) → lookup j m' ≡ lookup j m)
    → IsLinked m o
    → IsLinked m' o
relink m m' o same l = record {
  listed = λ j b s h. l.listed j b s (sym (same j) ∙ h);
  stored = λ s j h. let (b, f) = l.stored s j h in (b, same j ∙ f);
}

-- `remove` keeps the invariant and forgets the id.
pub forget-IsValid :
    (c : ContentCache) (id : Text)
    → IsValid c
    → IsValid (forget c id) × (lookup id (forget c id).entries ≡ none)
unfolding forget
forget-IsValid c id v = by_entry (lookup id c.entries) refl
  where
    by_entry :
        (r : Option (Bytes × ℕ))
        → lookup id c.entries ≡ r
        → IsValid (forget c id) × (lookup id (forget c id).entries ≡ none)
    by_entry none e = rw (e, forget) (v, e)
    by_entry (some (b, s)) e =
        rw (e, forget)
          (
            record {
              unique = remove-Unique id c.entries v.unique;
              counted =
                  ground (arith, v.counted, total-remove (λ w. length w.0) id c.entries v.unique);
              sorted = order_remove-Sorted s c.order v.sorted;
              stamped = order_remove-AllUpTo c.next_stamp s c.order v.stamped;
              linked = unlink c.entries c.order id b s e v.linked;
            },
            ground (arith, lookup-remove id id c.entries, eq_list_refl id),
          )

pub store-IsValid :
    (c : ContentCache) (id : Text) (b : Bytes)
    → IsValid c
    → lookup id c.entries ≡ none
    → IsValid (store c id b)
unfolding store
store-IsValid c id b v e = record {
  unique = insert-Unique id (b, c.next_stamp + 1) c.entries v.unique;
  counted =
      ground (arith, v.counted, total-insert (λ w. length w.0) id (b, c.next_stamp + 1) c.entries);
  sorted = order_insert-Sorted (c.next_stamp + 1) id c.order v.sorted;
  stamped =
      order_insert-AllUpTo c.next_stamp (c.next_stamp + 1) (c.next_stamp + 1) id c.order
        (omega arith) (omega arith) v.stamped;
  linked = link c.entries c.order c.next_stamp id b e v.stamped v.linked;
}

-- With no stamp left in the order there is no entry left in the map.
pub no_entries : (m : Table (Bytes × ℕ)) → IsLinked m [] → bytes_of m ≡ 0
unfolding total lookup order_lookup
no_entries [] l = refl
no_entries ((k, (b, s)) ∷ m) l = absurd (cc (l.listed k b s (rw (eq_list_refl k))))

pub evict_one-IsValid :
    (s : ℕ) (id : Text) (o : Order) (c : ContentCache)
    → IsValid (record c { order = (s, id) ∷ o })
    → IsValid (record (evict_one c id) { order = o })
unfolding evict_one
evict_one-IsValid s id o c v =
    let (gone, here) = order_remove_head s id o v.sorted.0 in
    let (b, e) = v.linked.stored s id here in
    rw (e, evict_one)
      (record {
        unique = remove-Unique id c.entries v.unique;
        counted = ground (arith, v.counted, total-remove (λ w. length w.0) id c.entries v.unique);
        sorted = v.sorted.1;
        stamped = v.stamped.1;
        linked =
            subst (IsLinked (remove id c.entries)) gone
              (unlink c.entries ((s, id) ∷ o) id b s e v.linked);
      })

-- The eviction loop ends within the budget and keeps the invariant.
evict-IsValid :
    (o : Order) (c : ContentCache)
    → IsValid (record c { order = o })
    → IsValid (evict o c) × ((evict o c).total_bytes ≤ max_bytes)
unfolding evict
evict-IsValid [] c v = (v, omega (arith, v.counted, no_entries c.entries v.linked))
evict-IsValid ((s, id) ∷ o) c v = elim (Bool-cases (ltb max_bytes c.total_bytes)) [
  | inl over ↦ rw over (evict-IsValid o (evict_one c id) (evict_one-IsValid s id o c v))
  | inr within ↦ rw within (v, ground arith)
]

-- After an insertion the invariant holds and the bytes are within the budget, as they were before.
pub put-IsValid :
    (c : ContentCache) (id : Text) (b : Bytes)
    → IsValid c
    → c.total_bytes ≤ max_bytes
    → IsValid (put c id b) × ((put c id b).total_bytes ≤ max_bytes)
unfolding put
put-IsValid c id b v h = elim (Bool-cases (ltb max_entry_bytes (length b))) [
  | inl large ↦ rw large (v, h)
  | inr fits ↦
      let (v', absent) = forget-IsValid c id v in
      let stored = store (forget c id) id b in
      rw fits (evict-IsValid stored.order stored (store-IsValid (forget c id) id b v' absent))
]

-- A lookup keeps the invariant and the count of bytes.
get-IsValid :
    (c : ContentCache) (id : Text)
    → IsValid c
    → IsValid (get c id).0 × ((get c id).0.total_bytes ≡ c.total_bytes)
unfolding get
get-IsValid c id v = by_entry (lookup id c.entries) refl
  where
    by_entry :
        (r : Option (Bytes × ℕ))
        → lookup id c.entries ≡ r
        → IsValid (get c id).0 × ((get c id).0.total_bytes ≡ c.total_bytes)
    by_entry none e = rw (e, get) (v, refl)
    by_entry (some (b, s)) e =
        let listed : order_lookup s c.order ≡ some id = v.linked.listed id b s e in
        rw (e, get, listed)
          (
            record {
              unique = insert-Unique id (b, c.next_stamp + 1) c.entries v.unique;
              counted = ground (
                arith,
                v.counted,
                total-insert (λ w. length w.0) id (b, c.next_stamp + 1) c.entries,
              );
              sorted =
                  order_insert-Sorted (c.next_stamp + 1) id (order_remove s c.order)
                    (order_remove-Sorted s c.order v.sorted);
              stamped =
                  order_insert-AllUpTo c.next_stamp (c.next_stamp + 1) (c.next_stamp + 1) id
                    (order_remove s c.order) (omega arith) (omega arith)
                    (order_remove-AllUpTo c.next_stamp s c.order v.stamped);
              linked =
                  relink (insert id (b, c.next_stamp + 1) (remove id c.entries))
                    (insert id (b, c.next_stamp + 1) c.entries)
                    (order_insert (c.next_stamp + 1) id (order_remove s c.order))
                    (λ j. ground (
                      arith,
                      lookup-insert id j (b, c.next_stamp + 1) (remove id c.entries),
                      lookup-insert id j (b, c.next_stamp + 1) c.entries,
                      lookup-remove id j c.entries,
                    ))
                    (link (remove id c.entries) (order_remove s c.order) c.next_stamp id b
                      (ground (arith, lookup-remove id id c.entries, eq_list_refl id))
                      (order_remove-AllUpTo c.next_stamp s c.order v.stamped)
                      (unlink c.entries c.order id b s e v.linked));
            },
            refl,
          )

-- Renaming an entry keeps the invariant if the new id is not cached under another entry: the code
-- overwrites such an entry without giving its bytes and its stamp back.
pub rekey-IsValid :
    (c : ContentCache) (old_id new_id : Text)
    → IsValid c
    → lookup new_id (remove old_id c.entries) ≡ none
    → IsValid (rekey c old_id new_id) × ((rekey c old_id new_id).total_bytes ≡ c.total_bytes)
unfolding rekey
rekey-IsValid c old_id new_id v fresh = by_entry (lookup old_id c.entries) refl
  where
    by_entry :
        (r : Option (Bytes × ℕ))
        → lookup old_id c.entries ≡ r
        → IsValid (rekey c old_id new_id) × ((rekey c old_id new_id).total_bytes ≡ c.total_bytes)
    by_entry none e = rw (e, rekey) (v, refl)
    by_entry (some (b, s)) e =
        rw (e, rekey)
          (
            record {
              unique =
                  insert-Unique new_id (b, c.next_stamp + 1) (remove old_id c.entries)
                    (remove-Unique old_id c.entries v.unique);
              counted = ground (
                arith,
                v.counted,
                total-remove (λ w. length w.0) old_id c.entries v.unique,
                total-insert (λ w. length w.0) new_id (b, c.next_stamp + 1)
                    (remove old_id c.entries),
              );
              sorted =
                  order_insert-Sorted (c.next_stamp + 1) new_id (order_remove s c.order)
                    (order_remove-Sorted s c.order v.sorted);
              stamped =
                  order_insert-AllUpTo c.next_stamp (c.next_stamp + 1) (c.next_stamp + 1) new_id
                    (order_remove s c.order) (omega arith) (omega arith)
                    (order_remove-AllUpTo c.next_stamp s c.order v.stamped);
              linked =
                  link (remove old_id c.entries) (order_remove s c.order) c.next_stamp new_id b
                    fresh (order_remove-AllUpTo c.next_stamp s c.order v.stamped)
                    (unlink c.entries c.order old_id b s e v.linked);
            },
            refl,
          )
