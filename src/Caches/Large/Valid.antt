-- ===== src/Caches/Large/Valid.antt =====
-- What an insertion leaves in the cache of large files (`LargeCache::insert` of
-- `lethean_fuse/src/vault.rs`).
use lethean.Prelude.{
  ℕ, ◌+◌, ◌≤◌, ◌≡◌, refl, sym, ap, ◌∙◌, ◌≢◌, ◌⊎◌, inl, inr, Bool, true, false, ◌||◌, Option, none,
  some, List, [], ◌∷◌, ◌++◌, arith, ltb, if◌then◌else◌, Bool-cases, Text, eq_list, eq_list_iff,
  eq_list_refl,
}
use lethean.Prelude.Table.{
  lookup, insert, remove, total, size_at, Unique, lookup-insert, lookup-remove, remove-Unique,
  insert-Unique, total-remove,
}
use lethean.Caches.Large.{member, retain, LargeCache, take_out, enforce_from, enforce, forget, put}

abbrev has : {V : Type 0} → Option V → Bool
has none = false
has (some v) = true

-- No id twice.
abbrev pub Distinct : List Text → Type 0
Distinct [] = Unit
Distinct (k ∷ o) = (member k o ≡ false) × Distinct o

member-append :
    (j id : Text) (o : List Text) → member j (o ++ (id ∷ [])) ≡ (member j o || eq_list id j)
unfolding member
member-append j id [] = ground arith
member-append j id (k ∷ o) = ground (arith, member-append j id o)

append-Distinct :
    (id : Text) (o : List Text) → member id o ≡ false → Distinct o → Distinct (o ++ (id ∷ []))
unfolding member
append-Distinct id [] h d = (refl, tt)
append-Distinct id (k ∷ o) h d = (
  ground (arith, member-append k id o, eq_list_iff k id, eq_list_iff id k),
  append-Distinct id o (ground arith) d.1,
)

member-retain :
    (id j : Text) (o : List Text)
    → member j (retain id o) ≡ (if eq_list id j then false else member j o)
unfolding member retain
member-retain id j [] = ground arith
member-retain id j (k ∷ o) =
    ground (arith, member-retain id j o, eq_list_iff k id, eq_list_iff id j, eq_list_iff k j)

retain-Distinct : (id : Text) (o : List Text) → Distinct o → Distinct (retain id o)
unfolding member retain
retain-Distinct id [] d = tt
retain-Distinct id (k ∷ o) d = ground (arith, retain-Distinct id o d.1, member-retain id k o)

module _ (LargeFile : Type 0) (resident_bytes : LargeFile → ℕ) where
  abbrev pub Cache : Type 0
  Cache = LargeCache LargeFile resident_bytes

  -- The order lists the ids of the map, each once, and no file is in the map twice.
  pub record IsKeyed (c : Cache) : Type 0 where
    pub listed : (k : Text) → member k c.order ≡ has (lookup k c.map)
    pub distinct : Distinct c.order
    pub unique : Unique c.map

  -- The count of bytes is that of the files in the map.
  abbrev pub IsCounted : Cache → Type 0
  IsCounted c = c.total_bytes ≡ total resident_bytes c.map

  -- Within the budget, or no file is cached but this one.
  abbrev pub Fits : Text → Cache → Type 0
  Fits id c = (c.total_bytes ≤ c.max_bytes) ⊎ ((k : Text) → k ≢ id → lookup k c.map ≡ none)

  -- What taking one file out of the map leaves.
  take_out_lem :
      (c : Cache) (old : Text)
      → Unique c.map
      → ((k : Text)
          → lookup k (take_out LargeFile resident_bytes c old).map
            ≡ (if eq_list old k then none else lookup k c.map))
        × Unique (take_out LargeFile resident_bytes c old).map
        × (IsCounted c → IsCounted (take_out LargeFile resident_bytes c old))
  unfolding take_out
  take_out_lem c old unique = by_entry (lookup old c.map) refl
    where
      by_entry :
          (r : Option LargeFile)
          → lookup old c.map ≡ r
          → ((k : Text)
              → lookup k (take_out LargeFile resident_bytes c old).map
                ≡ (if eq_list old k then none else lookup k c.map))
            × Unique (take_out LargeFile resident_bytes c old).map
            × (IsCounted c → IsCounted (take_out LargeFile resident_bytes c old))
      by_entry none e =
          rw (e, take_out) (λ k. absent k (Bool-cases (eq_list old k)), unique, λ counted. counted)
        where
          absent :
              (k : Text)
              → (eq_list old k ≡ true) ⊎ (eq_list old k ≡ false)
              → lookup k c.map ≡ (if eq_list old k then none else lookup k c.map)
          absent k (inl same) =
              rw same (ap (λ j. lookup j c.map) (sym ((eq_list_iff old k).0 same)) ∙ e)
          absent k (inr other) = rw other refl
      by_entry (some f) e =
          let out : total resident_bytes (remove old c.map) + size_at resident_bytes (some f)
              ≡ total resident_bytes c.map =
            ap (λ r. total resident_bytes (remove old c.map) + size_at resident_bytes r) (sym e)
            ∙ total-remove resident_bytes old c.map unique in
          rw (e, take_out)
            (λ k. lookup-remove old k c.map, remove-Unique old c.map unique, λ counted. omega arith)

  -- One round of the eviction: the id at the front leaves the order and the map.
  pop-IsKeyed :
      (c : Cache) (old : Text) (o : List Text)
      → IsKeyed (record c { order = old ∷ o })
      → IsCounted c
      → IsKeyed (record (take_out LargeFile resident_bytes c old) { order = o })
        × IsCounted (take_out LargeFile resident_bytes c old)
  unfolding member
  pop-IsKeyed c old o h counted =
      let (left, unique, still) = take_out_lem c old h.unique in
      (
        record {
          listed = λ k. ground (arith, left k, h.listed k, h.distinct.0, eq_list_iff old k);
          distinct = h.distinct.1;
          unique = unique;
        },
        still counted,
      )

  abbrev Settled : Text → Cache → Cache → Type 0
  Settled id c r = IsKeyed r × IsCounted r × Fits id r × (lookup id r.map ≡ lookup id c.map)

  after_pop :
      (c : Cache) (old id : Text) (o : List Text) (r : Cache)
      → IsKeyed (record c { order = old ∷ (o ++ (id ∷ [])) })
      → IsCounted c
      → Settled id (take_out LargeFile resident_bytes c old) r
      → Settled id c r
  unfolding member
  after_pop c old id o r h counted (keyed, still, fits, kept) =
      let apart : eq_list old id ≡ false =
        ground
          (arith, h.distinct.0, member-append old id o, eq_list_iff old id, eq_list_iff id old) in
      let left = (take_out_lem c old h.unique).0 id in
      (keyed, still, fits, kept ∙ left ∙ rw apart refl)

  -- The eviction ends within the budget or at the last id of the order, which it never takes out.
  enforce_from_lem :
      (o : List Text) (id : Text) (c : Cache)
      → IsKeyed (record c { order = o ++ (id ∷ []) })
      → IsCounted c
      → Settled id c (enforce_from LargeFile resident_bytes (o ++ (id ∷ [])) c)
  unfolding enforce_from member
  enforce_from_lem [] id c h counted =
      (h, counted, inr (λ k other. only k other (h.listed k)), refl)
    where
      only :
          (k : Text)
          → k ≢ id
          → (eq_list id k || false) ≡ has (lookup k c.map)
          → lookup k c.map ≡ none
      only k other e = ground (arith, e, other, eq_list_iff id k)
  enforce_from_lem (old ∷ []) id c h counted =
      let (h', counted') = pop-IsKeyed c old (id ∷ []) h counted in
      elim (Bool-cases (ltb c.max_bytes c.total_bytes)) [
        | inl over ↦ rw over (
            after_pop c old id [] _ h counted
              (enforce_from_lem [] id (take_out LargeFile resident_bytes c old) h' counted'))
        | inr fits ↦ rw fits (h, counted, inl (ground arith), refl)
      ]
  enforce_from_lem (old ∷ k ∷ o) id c h counted =
      let (h', counted') = pop-IsKeyed c old ((k ∷ o) ++ (id ∷ [])) h counted in
      elim (Bool-cases (ltb c.max_bytes c.total_bytes)) [
        | inl over ↦ rw over (
            after_pop c old id (k ∷ o) _ h counted
              (enforce_from_lem (k ∷ o) id (take_out LargeFile resident_bytes c old) h' counted'))
        | inr fits ↦ rw fits (h, counted, inl (ground arith), refl)
      ]

  forget_lem :
      (c : Cache) (id : Text)
      → IsKeyed c
      → IsKeyed (forget LargeFile resident_bytes c id)
        × (member id (forget LargeFile resident_bytes c id).order ≡ false)
  unfolding forget
  forget_lem c id h = by_entry (lookup id c.map) refl
    where
      by_entry :
          (r : Option LargeFile)
          → lookup id c.map ≡ r
          → IsKeyed (forget LargeFile resident_bytes c id)
            × (member id (forget LargeFile resident_bytes c id).order ≡ false)
      by_entry none e = rw (e, forget) (h, h.listed id ∙ ap has e)
      by_entry (some f) e =
          let (left, unique, _) = take_out_lem c id h.unique in
          let gone = member-retain id id c.order ∙ rw (eq_list_refl id) refl in
          rw (e, forget)
            (
              record {
                listed = λ k. ground (arith, left k, h.listed k, member-retain id k c.order);
                distinct = retain-Distinct id c.order h.distinct;
                unique = unique;
              },
              gone,
            )

  -- After a large file is inserted into a cache whose order lists its files, each once, the order still
  -- does so; the new file is cached, whatever was evicted for it; the count of bytes is that of the
  -- cached files; and it is within the budget, unless no other file is left in the cache.
  pub put_lem :
      (c : Cache) (id : Text) (file : LargeFile)
      → IsKeyed c
      → IsKeyed (put LargeFile resident_bytes c id file)
        × (lookup id (put LargeFile resident_bytes c id file).map ≡ some file)
        × IsCounted (put LargeFile resident_bytes c id file)
        × Fits id (put LargeFile resident_bytes c id file)
  unfolding put enforce
  put_lem c id file h =
      let c' = forget LargeFile resident_bytes c id in
      let held = insert id file c'.map in
      let (h', absent) = forget_lem c id h in
      let order = c'.order ++ (id ∷ []) in
      let start : Cache = record c' {
        map = held;
        order = order;
        total_bytes = total resident_bytes held;
      } in
      let keyed : IsKeyed start = record {
        listed = λ k.
            ground
              (arith, h'.listed k, member-append k id c'.order, lookup-insert id k file c'.map);
        distinct = append-Distinct id c'.order absent h'.distinct;
        unique = insert-Unique id file c'.map h'.unique;
      } in
      let (still, counted, fits, kept) = enforce_from_lem c'.order id start keyed refl in
      (still, kept ∙ lookup-insert id id file c'.map ∙ rw (eq_list_refl id) refl, counted, fits)
