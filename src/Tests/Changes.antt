-- ===== src/Tests/Changes.antt =====
-- The journal at a concrete input.
use lethean.Prelude.{ℕ, ◌≤◌, ◌≡◌, refl, true, false, [], ◌∷◌, arith, codes, eq_list, Text}
use lethean.Prelude.Table.{lookup}
use lethean.Journal.{Journal, now, touch, touched_after, prune, journal_lem}

abbrev sample : Journal
sample = record { seq = 4; touched = (codes "a", 3) ∷ (codes "b", 4) ∷ []; hidden = [] }

journal_lem_example :
    ((n : ℕ) → n ≤ now sample → touched_after (touch sample (codes "a")) (codes "a") n ≡ true)
    × ((k : Text) (n : ℕ)
        → eq_list (codes "a") k ≡ false
        → touched_after (touch sample (codes "a")) k n ≡ touched_after sample k n)
    × ((seq0 n : ℕ) (k : Text)
        → seq0 ≤ n
        → touched_after (prune sample seq0) k n ≡ touched_after sample k n)
unfolding lookup eq_list
journal_lem_example = journal_lem sample (codes "a") (omega arith) (refl, (refl, tt))
