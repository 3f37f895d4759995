-- ===== src/Caches/Content.antt =====
-- `ContentCache` of `lethean_fuse/src/vault.rs`: decrypted small files, evicted least recently used
-- first once their bytes pass a budget. `entries` is its hash map; `order` is its `BTreeMap` from
-- stamps to ids, smallest stamp first.
pub mod Order
pub mod Valid
pub mod Recent
use lethean.Prelude.{
  ℕ, zero, suc, ◌+◌, ◌-◌, ◌*◌, ◌/◌, ◌%◌, ◌^◌, ◌≤◌, ◌<◌, min, max, ◌≡◌, refl, sym, ap, ◌∙◌, ◌≢◌, ◌↔◌,
  ◌⊎◌, inl, inr, Bool, true, false, ◌&&◌, ◌||◌, not, Option, none, some, List, [], ◌∷◌, ◌++◌, map,
  append_assoc, append-nil, arith, ltb, leb, ◌==◌, if◌then◌else◌, ltb→lt, lt→ltb, leb→le, ==_iff,
  Bool-cases, Option-cases, length, get_elem?, get_or, set, take, drop, replicate, length-append,
  length-set, get_elem?-set_self, get_elem?-set_ne, take-append-drop, length-take, length-drop,
  length-replicate, take_of_le, take-append, drop-append, take-append_le, drop-append_le,
  take-append_ge, drop-append_ge, drop-drop, drop-nil, Bytes, Text, codes, eq_list, eq_list_iff,
  eq_list_refl, all_zero, zeros, length-zeros, all_zero-zeros, all_zero_eq, all_zero-append,
  utf8_len, utf16_width, utf16_len, is_empty, Error, Result, ok, err, ◌>>=◌, ◌>>◌, guard, ok_or,
  >>=-eq-ok,
}
use lethean.Prelude.Table.{Table, lookup, insert, remove}

abbrev pub max_bytes : ℕ
max_bytes = 64 * 1024 * 1024

abbrev pub max_entry_bytes : ℕ
max_entry_bytes = 16 * 1024 * 1024

pub record ContentCache : Type 0 where
  pub entries : Table (Bytes × ℕ)
  pub order : List (ℕ × Text)
  pub next_stamp : ℕ
  pub total_bytes : ℕ

abbrev pub new : ContentCache
new = record { entries = []; order = []; next_stamp = 0; total_bytes = 0 }

-- `BTreeMap::insert`: in the order of the keys.
unfoldable pub order_insert : ℕ → Text → List (ℕ × Text) → List (ℕ × Text)
order_insert s id [] = (s, id) ∷ []
order_insert s id ((t, j) ∷ o) =
    let later = order_insert s id o in
    if ltb s t then (s, id) ∷ (t, j) ∷ o else if s == t then (s, id) ∷ o else (t, j) ∷ later

unfoldable pub order_lookup : ℕ → List (ℕ × Text) → Option Text
order_lookup s [] = none
order_lookup s ((t, j) ∷ o) = if s == t then some j else order_lookup s o

unfoldable pub order_remove : ℕ → List (ℕ × Text) → List (ℕ × Text)
order_remove s [] = []
order_remove s ((t, j) ∷ o) = let rest = order_remove s o in if s == t then rest else (t, j) ∷ rest

-- `get`: a hit takes the newest stamp.
unfoldable pub get : ContentCache → Text → ContentCache × Option Bytes
get c id = elim (lookup id c.entries) [
  | none ↦ (c, none)
  | some (bytes, old) ↦ (
    record c {
      entries = insert id (bytes, c.next_stamp + 1) c.entries;
      order = elim (order_lookup old c.order) [
        | none ↦ c.order
        | some key ↦ order_insert (c.next_stamp + 1) key (order_remove old c.order)
      ];
      next_stamp = c.next_stamp + 1;
    },
    some bytes,
  )
]

-- `remove`
unfoldable pub forget : ContentCache → Text → ContentCache
forget c id = elim (lookup id c.entries) [
  | none ↦ c
  | some (bytes, stamp) ↦ record c {
    entries = remove id c.entries;
    order = order_remove stamp c.order;
    total_bytes = c.total_bytes - length bytes;
  }
]

-- The body of the eviction loop, on the entry that `pop_first` gives.
unfoldable pub evict_one : ContentCache → Text → ContentCache
evict_one c oldest = elim (lookup oldest c.entries) [
  | none ↦ c
  | some (evicted, _) ↦ record c {
    entries = remove oldest c.entries;
    total_bytes = c.total_bytes - length evicted;
  }
]

-- `while self.total_bytes > CONTENT_CACHE_MAX_BYTES`; every round takes the first of the order.
unfoldable pub evict : List (ℕ × Text) → ContentCache → ContentCache
evict [] c = record c { order = [] }
evict ((s, oldest) ∷ o) c =
    let rest = evict o (evict_one c oldest) in
    if ltb max_bytes c.total_bytes then rest else record c { order = (s, oldest) ∷ o }

-- `insert`, up to the eviction.
unfoldable pub store : ContentCache → Text → Bytes → ContentCache
store c id bytes = record c {
  entries = insert id (bytes, c.next_stamp + 1) c.entries;
  order = order_insert (c.next_stamp + 1) id c.order;
  next_stamp = c.next_stamp + 1;
  total_bytes = c.total_bytes + length bytes;
}

unfoldable pub put : ContentCache → Text → Bytes → ContentCache
put c id bytes =
    let stored = store (forget c id) id bytes in
    if ltb max_entry_bytes (length bytes) then c else evict stored.order stored

unfoldable pub rekey : ContentCache → Text → Text → ContentCache
rekey c old_id new_id = elim (lookup old_id c.entries) [
  | none ↦ c
  | some (bytes, stamp) ↦ record c {
    entries = insert new_id (bytes, c.next_stamp + 1) (remove old_id c.entries);
    order = order_insert (c.next_stamp + 1) new_id (order_remove stamp c.order);
    next_stamp = c.next_stamp + 1;
  }
]

-- `wipe`
abbrev pub wipe : ContentCache → ContentCache
wipe c = record c { entries = []; order = []; total_bytes = 0 }
