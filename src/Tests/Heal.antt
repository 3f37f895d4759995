-- ===== src/Tests/Heal.antt =====
-- The self-healing plan on the inputs of the tests in `lethean_fuse/src/heal.rs`.
use lethean.Prelude.{
  ◌≡◌, refl, sym, ap, ◌∙◌, ◌≢◌, inl, inr, true, false, Option, none, some, List, [], ◌∷◌, map,
  arith, drop, Text, codes, eq_list, eq_list_iff,
}
use lethean.Prelude.{In}
use lethean.Prelude.Table.{Table, lookup, insert}
use lethean.Heal.{
  HealItem, HealKind, plan, walk, walk_fuel, hide_replaced, hide_copies, hide_identical, hide_all,
  losers, others, keeper, winner, least_id, text_lt, group_by, push, keep_if, ref_key, with_rev,
  top_rev, successor_of, succeed_all, succeed, offer_all, offer, resolve, settle, contains, acyclic,
}
use lethean.Heal.Losers.{AreDistinct}
use lethean.Heal.Chain.{Found, walk_lem}
use lethean.Heal.Settles.{hop, plan_settles}

abbrev item : Text → Text → Option Text → HealItem
item id node_ref from = record {
  id = id;
  node_ref = some node_ref;
  from = from;
  rev = none;
  is_folder = false;
  folder_movable = false;
  fingerprint = id;
}

-- A file, a copy of its record under another id, and two later versions of it.
abbrev versions : List HealItem
versions =
    item (codes "v1") (codes "r1") none
    ∷ record (item (codes "w1") (codes "r1") none) { fingerprint = codes "v1" }
    ∷ item (codes "v2") (codes "r2") (some (codes "r1"))
    ∷ item (codes "v3") (codes "r3") (some (codes "r2"))
    ∷ []

copies_and_chains :
    (plan versions).hidden
    ≡ (codes "w1", (codes "v1", HealKind.identical))
      ∷ (codes "v1", (codes "v3", HealKind.superseded))
      ∷ (codes "v2", (codes "v3", HealKind.superseded))
      ∷ []
unfolding plan hide_replaced hide_copies hide_identical hide_all losers others keeper winner
    least_id text_lt group_by push keep_if ref_key with_rev top_rev successor_of succeed_all succeed
    offer_all offer resolve settle walk contains acyclic lookup insert eq_list
copies_and_chains = refl

abbrev cyclic_saves : List HealItem
cyclic_saves =
    item (codes "a") (codes "ra") (some (codes "rb"))
    ∷ item (codes "b") (codes "rb") (some (codes "ra"))
    ∷ []

cycles_decide_nothing : (plan cyclic_saves).hidden ≡ []
unfolding plan hide_replaced hide_copies hide_identical hide_all losers others keeper winner
    least_id text_lt group_by push keep_if ref_key with_rev top_rev successor_of succeed_all succeed
    offer_all offer resolve settle walk contains acyclic lookup insert eq_list
cycles_decide_nothing = refl

ids : List HealItem → List Text
ids its = map (λ it. it.id) its

apart :
    (id : Text) (its : List HealItem)
    → contains (ids its) id ≡ false
    → (other : HealItem) → In other its
    → other.id ≢ id
unfolding contains ids
apart id [] h other m same = absurd m
apart id (it ∷ its) h other (inl e) same =
    let there : eq_list it.id id ≡ true =
      (eq_list_iff it.id id).1 (ap (λ x. x.id) (sym e) ∙ same) in
    ground (arith, there, h)
apart id (it ∷ its) h other (inr m) same = apart id its (ground (arith, h)) other m same

versions-AreDistinct : AreDistinct versions
unfolding contains ids eq_list
versions-AreDistinct = (
  apart (codes "v1") (drop 1 versions) refl,
  (
    apart (codes "w1") (drop 2 versions) refl,
    (apart (codes "v2") (drop 3 versions) refl, (apart (codes "v3") (drop 4 versions) refl, tt)),
  ),
)

plan_settles_example :
    (b : HealItem) × In b versions
    × (b.id
        ≡ hop
            (plan versions).hidden
            (hop (plan versions).hidden (hop (plan versions).hidden (codes "w1"))))
    × (lookup b.id (plan versions).hidden ≡ none)
plan_settles_example =
    plan_settles versions versions-AreDistinct
      (record (item (codes "w1") (codes "r1") none) { fingerprint = codes "v1" }) (inr (inl refl))

abbrev saves : Table Text
saves = (codes "v1", codes "v2") ∷ (codes "v2", codes "v3") ∷ []

walk_lem_example :
    Found saves (codes "v2") (walk (walk_fuel saves) saves (codes "v2") (codes "v1" ∷ []))
walk_lem_example = walk_lem saves (codes "v1") (codes "v2") (unfold lookup eq_list in refl)
