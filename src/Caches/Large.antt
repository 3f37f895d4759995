-- ===== src/Caches/Large.antt =====
-- The cache of large files, `LargeCache` of `lethean_fuse/src/vault.rs`. `LargeFile` and its
-- `resident_bytes`, which grow while chunks arrive, are arguments.
pub mod Valid
use lethean.Prelude.{
  ℕ, zero, suc, ◌+◌, ◌-◌, ◌*◌, ◌/◌, ◌%◌, ◌^◌, ◌≤◌, ◌<◌, min, max, ◌≡◌, refl, sym, ap, ◌∙◌, ◌≢◌, ◌↔◌,
  ◌⊎◌, inl, inr, Bool, true, false, ◌&&◌, ◌||◌, not, Option, none, some, List, [], ◌∷◌, ◌++◌, map,
  append_assoc, append-nil, arith, ltb, leb, ◌==◌, if◌then◌else◌, ltb→lt, lt→ltb, leb→le, ==_iff,
  Bool-cases, Option-cases, length, get_elem?, get_or, set, take, drop, replicate, length-append,
  length-set, get_elem?-set_self, get_elem?-set_ne, take-append-drop, length-take, length-drop,
  length-replicate, take_of_le, take-append, drop-append, take-append_le, drop-append_le,
  take-append_ge, drop-append_ge, drop-drop, drop-nil, Bytes, Text, codes, eq_list, eq_list_iff,
  eq_list_refl, all_zero, zeros, length-zeros, all_zero-zeros, all_zero_eq, all_zero-append,
  utf8_width, utf8_len, utf16_width, utf16_len, is_empty, Error, Result, ok, err, ◌>>=◌, ◌>>◌,
  guard, ok_or, >>=-eq-ok,
}
use lethean.Prelude.Table.{Table, lookup, insert, remove, total}

-- `order.iter().position(..)`, as a test, and `retain(|k| k != id)`.
unfoldable pub member : Text → List Text → Bool
member id [] = false
member id (k ∷ ks) = eq_list k id || member id ks

unfoldable pub retain : Text → List Text → List Text
retain id [] = []
retain id (k ∷ ks) = let rest = retain id ks in if eq_list k id then rest else k ∷ rest

-- `order.remove(pos)` at the first place of `id`.
unfoldable pub remove_first : Text → List Text → List Text
remove_first id [] = []
remove_first id (k ∷ ks) = if eq_list k id then ks else k ∷ remove_first id ks

unfoldable pub back_is : Text → List Text → Bool
back_is id [] = false
back_is id (k ∷ []) = eq_list k id
back_is id (k ∷ l ∷ ks) = back_is id (l ∷ ks)

module _ (LargeFile : Type 0) (resident_bytes : LargeFile → ℕ) where
  pub record LargeCache : Type 0 where
    pub map : Table LargeFile
    pub order : List Text
    pub total_bytes : ℕ
    pub max_bytes : ℕ

  unfoldable pub new : ℕ → LargeCache
  new max_bytes = record { map = []; order = []; total_bytes = 0; max_bytes = max_bytes }

  unfoldable pub touch : LargeCache → Text → LargeCache
  touch c id =
      if back_is id c.order
      then c
      else if member id c.order
      then record c { order = remove_first id c.order ++ (id ∷ []) }
      else c

  unfoldable pub get : LargeCache → Text → LargeCache × Option LargeFile
  get c id = elim (lookup id c.map) [ none ↦ (c, none) | some f ↦ (touch c id, some f) ]

  -- `f.resident_bytes().min(self.total_bytes)` is what the subtraction takes away.
  unfoldable pub take_out : LargeCache → Text → LargeCache
  take_out c id = elim (lookup id c.map) [
    | none ↦ c
    | some f ↦ record c {
      map = remove id c.map;
      total_bytes = c.total_bytes - min (resident_bytes f) c.total_bytes;
    }
  ]

  -- The loop of `enforce`, which pops the front of the order.
  unfoldable pub enforce_from : List Text → LargeCache → LargeCache
  enforce_from [] c = record c { order = [] }
  enforce_from (old ∷ []) c = record c { order = old ∷ [] }
  enforce_from (old ∷ k ∷ o) c =
      let rest = enforce_from (k ∷ o) (take_out c old) in
      if ltb c.max_bytes c.total_bytes then rest else record c { order = old ∷ k ∷ o }

  unfoldable pub enforce : LargeCache → LargeCache
  enforce c = enforce_from c.order (record c { total_bytes = total resident_bytes c.map })

  unfoldable pub forget : LargeCache → Text → LargeCache
  forget c id = elim (lookup id c.map) [
    | none ↦ c
    | some f ↦ record (take_out c id) { order = retain id c.order }
  ]

  unfoldable pub put : LargeCache → Text → LargeFile → LargeCache
  put c id file =
      let c' = forget c id in
      enforce (record c' { map = insert id file c'.map; order = c'.order ++ (id ∷ []) })

  unfoldable pub renamed : Text → Text → List Text → List Text
  renamed old_id new_id [] = []
  renamed old_id new_id (k ∷ ks) =
      (if eq_list k old_id then new_id else k) ∷ renamed old_id new_id ks

  unfoldable pub rekey : LargeCache → Text → Text → LargeCache
  rekey c old_id new_id = elim (lookup old_id c.map) [
    | none ↦ c
    | some f ↦ record c {
      map = insert new_id f (remove old_id c.map);
      order = renamed old_id new_id c.order;
    }
  ]

  unfoldable pub wipe : LargeCache → LargeCache
  wipe c = record c { map = []; order = []; total_bytes = 0 }
