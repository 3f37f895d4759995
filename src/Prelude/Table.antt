-- ===== src/Prelude/Table.antt =====
-- Hash maps keyed by texts, as association lists, and the sum of a measure over their values.
use Prim.Native.Nat.{ℕ, ◌+◌}
use mathlib.Core.Path.{◌≡◌, refl}
use mathlib.Core.Option.{Option, none, some}
use mathlib.Core.List.{List, [], ◌∷◌}
use native.Mathlib.Omega.{arith}
use lethean.Prelude.Tests.{if◌then◌else◌}
use lethean.Prelude.Strings.{Text, eq_list, eq_list_iff}

abbrev pub Table : Type 0 → Type 0
Table V = List (Text × V)

module _ {V : Type 0} where
  -- `HashMap::get`
  unfoldable pub lookup : Text → Table V → Option V
  lookup k [] = none
  lookup k ((j, v) ∷ m) = if eq_list j k then some v else lookup k m

  -- `HashMap::insert`
  unfoldable pub insert : Text → V → Table V → Table V
  insert k v [] = (k, v) ∷ []
  insert k v ((j, w) ∷ m) = if eq_list j k then (k, v) ∷ m else (j, w) ∷ insert k v m

  -- `HashMap::remove`
  unfoldable pub remove : Text → Table V → Table V
  remove k [] = []
  remove k ((j, v) ∷ m) = let rest = remove k m in if eq_list j k then rest else (j, v) ∷ rest

  pub lookup-insert :
      (k j : Text) (v : V) (m : Table V)
      → lookup j (insert k v m) ≡ (if eq_list k j then some v else lookup j m)
  unfolding lookup insert
  lookup-insert k j v [] = refl
  lookup-insert k j v ((i, w) ∷ m) =
      ground (arith, eq_list_iff k j, eq_list_iff i k, eq_list_iff i j, lookup-insert k j v m)

  pub lookup-remove :
      (k j : Text) (m : Table V)
      → lookup j (remove k m) ≡ (if eq_list k j then none else lookup j m)
  unfolding lookup remove
  lookup-remove k j [] = ground arith
  lookup-remove k j ((i, w) ∷ m) =
      ground (arith, eq_list_iff k j, eq_list_iff i k, eq_list_iff i j, lookup-remove k j m)

  -- No key twice.
  abbrev pub Unique : Table V → Type 0
  Unique [] = Unit
  Unique ((k, v) ∷ m) = (lookup k m ≡ none) × Unique m

  pub insert-Unique : (k : Text) (v : V) (m : Table V) → Unique m → Unique (insert k v m)
  unfolding insert
  insert-Unique k v [] h = (unfold lookup in refl, tt)
  insert-Unique k v ((j, w) ∷ m) h =
      ground (arith, lookup-insert k j v m, insert-Unique k v m, eq_list_iff j k, eq_list_iff k j)

  pub remove-Unique : (k : Text) (m : Table V) → Unique m → Unique (remove k m)
  unfolding remove
  remove-Unique k [] h = tt
  remove-Unique k ((j, w) ∷ m) h = ground (arith, lookup-remove k j m, remove-Unique k m)

  module _ (size : V → ℕ) where
    unfoldable pub total : Table V → ℕ
    total [] = 0
    total ((k, v) ∷ m) = size v + total m

    abbrev pub size_at : Option V → ℕ
    size_at none = 0
    size_at (some v) = size v

    pub total-remove :
        (k : Text) (m : Table V) → Unique m → total (remove k m) + size_at (lookup k m) ≡ total m
    unfolding total remove lookup
    total-remove k [] h = omega arith
    total-remove k ((j, v) ∷ m) h = ground (arith, total-remove k m h.1, eq_list_iff j k)

    pub total-insert :
        (k : Text) (v : V) (m : Table V)
        → total (insert k v m) + size_at (lookup k m) ≡ total m + size v
    unfolding total insert lookup
    total-insert k v [] = omega arith
    total-insert k v ((j, w) ∷ m) = ground (arith, total-insert k v m)
