-- ===== src/Tests/Caches.antt =====
-- The content cache at concrete inputs.
use lethean.Prelude.{◌≤◌, ◌≡◌, refl, some, [], ◌∷◌, arith, codes, eq_list}
use lethean.Prelude.Table.{lookup, insert, remove}
use lethean.Caches.Content.{
  ContentCache, max_bytes, new, get, put, forget, store, evict, rekey, order_insert, order_lookup,
  order_remove,
}
use lethean.Caches.Content.Valid.{IsValid, new-IsValid, put-IsValid, rekey-IsValid}
use lethean.Caches.Content.Recent.{get-put}

abbrev one : ContentCache
one = put new (codes "a") (1 ∷ 2 ∷ [])

-- A hit moves the entry to the newest stamp.
hit_moves_to_newest :
    (get (put one (codes "b") (3 ∷ [])) (codes "a")).0.order ≡ (2, codes "b") ∷ (3, codes "a") ∷ []
unfolding get put forget store evict order_insert order_lookup order_remove lookup insert remove
    eq_list
hit_moves_to_newest = refl

put-IsValid_example : IsValid one × (one.total_bytes ≤ max_bytes)
put-IsValid_example = put-IsValid new (codes "a") (1 ∷ 2 ∷ []) new-IsValid (omega arith)

one-IsValid : IsValid one
one-IsValid = (put-IsValid new (codes "a") (1 ∷ 2 ∷ []) new-IsValid (omega arith)).0

rekey-IsValid_example :
    IsValid (rekey one (codes "a") (codes "b"))
    × ((rekey one (codes "a") (codes "b")).total_bytes ≡ one.total_bytes)
unfolding put forget store evict order_insert lookup insert remove eq_list
rekey-IsValid_example = rekey-IsValid one (codes "a") (codes "b") one-IsValid refl

get-put_example : (get (put one (codes "b") (3 ∷ [])) (codes "b")).1 ≡ some (3 ∷ [])
get-put_example = get-put one (codes "b") (3 ∷ []) one-IsValid (omega arith)
