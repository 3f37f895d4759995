-- ===== src/Journal.antt =====
-- The journal of local changes, `Journal` of `lethean_fuse/src/vault.rs`: which ids this client
-- touched, and when, so that a listing that is older than the change does not undo it.
use lethean.Prelude.{
  ℕ, ◌+◌, ◌%◌, ◌^◌, ◌≤◌, ◌<◌, ◌≡◌, refl, ap, ◌∙◌, Bool, true, false, ◌||◌, Option, none, some, List,
  [], ◌∷◌, arith, ltb, if◌then◌else◌, lt→ltb, Text, eq_list, eq_list_iff, eq_list_refl,
}
use lethean.Prelude.Table.{Table, lookup, insert, Unique, lookup-insert}

pub record Journal : Type 0 where
  pub seq : ℕ
  pub touched : Table ℕ
  pub hidden : List Text

unfoldable pub now : Journal → ℕ
now j = j.seq

-- `fetch_add` wraps around.
unfoldable pub touch : Journal → Text → Journal
touch j id = let s = (j.seq + 1) % 2 ^ 64 in record j { seq = s; touched = insert id s j.touched }

unfoldable pub touched_after : Journal → Text → ℕ → Bool
touched_after j id seq0 = elim (lookup id j.touched) [ none ↦ false | some s ↦ ltb seq0 s ]

unfoldable pub retain_after : ℕ → Table ℕ → Table ℕ
retain_after seq0 [] = []
retain_after seq0 ((k, s) ∷ m) =
    let rest = retain_after seq0 m in if ltb seq0 s then (k, s) ∷ rest else rest

unfoldable pub prune : Journal → ℕ → Journal
prune j seq0 = record j { touched = retain_after seq0 j.touched }

unfoldable pub is_hidden : Journal → Text → Bool
is_hidden j id = contains j.hidden
  where
    contains : List Text → Bool
    contains [] = false
    contains (k ∷ ks) = eq_list k id || contains ks

abbrev later_than : ℕ → Option ℕ → Bool
later_than n o = elim o [ none ↦ false | some s ↦ ltb n s ]

retain_none :
    (seq0 : ℕ) (k : Text) (m : Table ℕ) → lookup k m ≡ none → lookup k (retain_after seq0 m) ≡ none
unfolding retain_after lookup
retain_none seq0 k [] h = refl
retain_none seq0 k ((j, s) ∷ m) h = ground (arith, retain_none seq0 k m)

retain_later :
    (seq0 n : ℕ) (k : Text) (m : Table ℕ)
    → Unique m
    → seq0 ≤ n
    → later_than n (lookup k (retain_after seq0 m)) ≡ later_than n (lookup k m)
unfolding retain_after lookup
retain_later seq0 n k [] u h = refl
retain_later seq0 n k ((j, s) ∷ m) u h =
    ground (arith, retain_later seq0 n k m u.1 h, retain_none seq0 k m, eq_list_iff j k, u.0)

-- A touched id counts as touched after every moment up to its touch, no other id is affected, and
-- pruning up to a moment changes no answer about that moment or a later one.
pub journal_lem :
    (j : Journal) (id : Text)
    → j.seq + 1 < 2 ^ 64
    → Unique j.touched
    → ((n : ℕ) → n ≤ now j → touched_after (touch j id) id n ≡ true)
      × ((k : Text) (n : ℕ)
          → eq_list id k ≡ false
          → touched_after (touch j id) k n ≡ touched_after j k n)
      × ((seq0 n : ℕ) (k : Text)
          → seq0 ≤ n
          → touched_after (prune j seq0) k n ≡ touched_after j k n)
unfolding now touch touched_after prune
journal_lem j id fits u =
    let s = (j.seq + 1) % 2 ^ 64 in
    (
      λ n h.
          ap (later_than n) (lookup-insert id id s j.touched)
          ∙ rw (eq_list_refl id) (lt→ltb n s (omega arith)),
      λ k n ne. ap (later_than n) (lookup-insert id k s j.touched) ∙ rw ne refl,
      λ seq0 n k h. retain_later seq0 n k j.touched u h,
    )
