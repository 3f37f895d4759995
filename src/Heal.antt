-- ===== src/Heal.antt =====
-- The self-healing plan, `plan` of `lethean_fuse/src/heal.rs`: which records of the vault are hidden
-- because another record stands for the same object. A map is a table, whose order is left open, as
-- that of a hash map is.
pub mod Chain
pub mod Chosen
pub mod Losers
pub mod Stays
pub mod Settles
pub mod Successors
use lethean.Prelude.{
  ℕ, zero, suc, ◌+◌, ◌-◌, ◌*◌, ◌/◌, ◌%◌, ◌^◌, ◌≤◌, ◌<◌, min, max, ◌≡◌, refl, sym, ap, ◌∙◌, ◌≢◌, ◌↔◌,
  ◌⊎◌, inl, inr, Bool, true, false, ◌&&◌, ◌||◌, not, Option, none, some, List, [], ◌∷◌, ◌++◌, map,
  append_assoc, append-nil, arith, ltb, leb, ◌==◌, if◌then◌else◌, ltb→lt, lt→ltb, leb→le, ==_iff,
  Bool-cases, Option-cases, length, get_elem?, get_or, set, take, drop, replicate, length-append,
  length-set, get_elem?-set_self, get_elem?-set_ne, take-append-drop, length-take, length-drop,
  length-replicate, take_of_le, take-append, drop-append, take-append_le, drop-append_le,
  take-append_ge, drop-append_ge, drop-drop, drop-nil, Bytes, Text, codes, eq_list, eq_list_iff,
  eq_list_refl, all_zero, zeros, length-zeros, all_zero-zeros, all_zero_eq, all_zero-append,
  utf8_width, utf8_len, utf16_width, utf16_len, is_empty, Error, Result, ok, err, ◌>>=◌, ◌>>◌,
  guard, ok_or, >>=-eq-ok,
}
use lethean.Prelude.Table.{Table, lookup, insert}

pub record HealItem : Type 0 where
  pub id : Text
  pub node_ref : Option Text
  pub from : Option Text
  pub rev : Option ℕ
  pub is_folder : Bool
  pub folder_movable : Bool
  pub fingerprint : Bytes

pub data HealKind : Type 0 where
  identical superseded : HealKind

pub record HealPlan : Type 0 where
  pub hidden : Table (Text × HealKind)

abbrev pub unwrap_or {ℓ} : {A : Type ℓ} → Option A → A → A
unwrap_or none default = default
unwrap_or (some a) default = a

-- `it.rev.unwrap_or(0)`
abbrev pub rev_of : HealItem → ℕ
rev_of it = unwrap_or it.rev 0

-- `<` on strings.
unfoldable pub text_lt : Text → Text → Bool
text_lt xs [] = false
text_lt [] (y ∷ ys) = true
text_lt (x ∷ xs) (y ∷ ys) = ltb x y || (x == y && text_lt xs ys)

-- `entry(key).or_default().push(it)`, for the items that have a key.
unfoldable pub push : Option Text → HealItem → Table (List HealItem) → Table (List HealItem)
push none it groups = groups
push (some key) it groups = insert key (unwrap_or (lookup key groups) [] ++ (it ∷ [])) groups

unfoldable pub group_by :
    (HealItem → Option Text) → List HealItem → Table (List HealItem) → Table (List HealItem)
group_by key [] groups = groups
group_by key (it ∷ its) groups = group_by key its (push (key it) it groups)

-- `group.iter().map(|i| i.id.as_str()).min()`, for a group of several.
unfoldable pub least_id : Text → List HealItem → Text
least_id id [] = id
least_id id (it ∷ its) = least_id (if text_lt it.id id then it.id else id) its

unfoldable pub keeper : List HealItem → Option Text
keeper (a ∷ b ∷ its) = some (least_id a.id (b ∷ its))
keeper its = none

unfoldable pub top_rev : List HealItem → ℕ
top_rev [] = 0
top_rev (it ∷ its) = max (rev_of it) (top_rev its)

unfoldable pub with_rev : ℕ → List HealItem → List HealItem
with_rev top [] = []
with_rev top (it ∷ its) =
    let rest = with_rev top its in if rev_of it == top then it ∷ rest else rest

abbrev pub only_id : List HealItem → Option Text
only_id (it ∷ []) = some it.id
only_id its = none

-- The one item of the highest revision of a group of several, if it is one.
unfoldable pub winner : List HealItem → Option Text
winner (a ∷ b ∷ its) = only_id (with_rev (top_rev (a ∷ b ∷ its)) (a ∷ b ∷ its))
winner its = none

-- `for it in group { if it.id != chosen { .. } }`
unfoldable pub others : Text → List HealItem → List (Text × Text)
others chosen [] = []
others chosen (it ∷ its) =
    let rest = others chosen its in if eq_list it.id chosen then rest else (it.id, chosen) ∷ rest

unfoldable pub losers : (List HealItem → Option Text) → Table (List HealItem) → List (Text × Text)
losers choose [] = []
losers choose ((key, group) ∷ groups) =
    elim (choose group) [ none ↦ [] | some chosen ↦ others chosen group ] ++ losers choose groups

unfoldable pub hide_all :
    HealKind → List (Text × Text) → Table (Text × HealKind) → Table (Text × HealKind)
hide_all kind [] hidden = hidden
hide_all kind ((id, succ) ∷ pairs) hidden = hide_all kind pairs (insert id (succ, kind) hidden)

abbrev pub is_none {ℓ} : {A : Type ℓ} → Option A → Bool
is_none none = true
is_none (some a) = false

abbrev pub visible : Table (Text × HealKind) → HealItem → Bool
visible hidden it = is_none (lookup it.id hidden)

unfoldable pub keep_if : (HealItem → Bool) → List HealItem → List HealItem
keep_if test [] = []
keep_if test (it ∷ its) = let rest = keep_if test its in if test it then it ∷ rest else rest

-- The key `(r, it.is_folder)` of an item that rule 2 looks at: the reference behind the flag.
unfoldable pub ref_key : HealItem → Option Text
ref_key it =
    if it.is_folder && not it.folder_movable
    then none
    else elim it.node_ref [ none ↦ none | some r ↦ some ((if it.is_folder then 1 else 0) ∷ r) ]

-- `or_insert_with(|| n.id)`, then the smaller of the two.
unfoldable pub offer : Text → Text → Table Text → Table Text
offer old n succ = elim (lookup old succ) [
  | none ↦ insert old n succ
  | some e ↦ if text_lt n e then insert old n succ else succ
]

unfoldable pub offer_all : HealItem → List HealItem → Table Text → Table Text
offer_all n [] succ = succ
offer_all n (old ∷ olds) succ =
    offer_all n olds (if eq_list old.id n.id then succ else offer old.id n.id succ)

abbrev pub same_ref : Option Text → Text → Bool
same_ref none from = false
same_ref (some r) from = eq_list r from

-- One round of the loop that fills `successor_of`.
unfoldable pub succeed : Table (List HealItem) → HealItem → Table Text → Table Text
succeed by_ref n succ = elim n.from [
  | none ↦ succ
  | some from ↦
      if same_ref n.node_ref from
      then succ
      else offer_all n (unwrap_or (lookup from by_ref) []) succ
]

unfoldable pub succeed_all : Table (List HealItem) → List HealItem → Table Text → Table Text
succeed_all by_ref [] succ = succ
succeed_all by_ref (n ∷ ns) succ = succeed_all by_ref ns (succeed by_ref n succ)

unfoldable pub contains : List Text → Text → Bool
contains [] id = false
contains (k ∷ ks) id = eq_list k id || contains ks id

-- How the walk along `successor_of` ends: at an id, with the ids seen, or in a cycle.
pub data Walk : Type 0 where
  reached : Text → List Text → Walk
  cycle out_of_fuel : Walk

-- `while let Some(next) = successor_of.get(&cur) { .. }`
unfoldable pub walk : ℕ → Table Text → Text → List Text → Walk
walk zero succ cur seen = Walk.out_of_fuel
walk (suc fuel) succ cur seen = elim (lookup cur succ) [
  | none ↦ Walk.reached cur seen
  | some next ↦
      let rest = walk fuel succ next (cur ∷ seen) in if contains seen cur then Walk.cycle else rest
]

-- Every round but the last sees an id of the table for the first time.
abbrev pub walk_fuel : Table Text → ℕ
walk_fuel succ = suc (length succ)

-- What the end of the walk from `old` adds to the cyclic ids and to the resolved ones.
unfoldable pub settle :
    Text → Walk → List Text × List (Text × Text) → List Text × List (Text × Text)
settle old (reached cur seen) (cyclic, resolved) =
    if contains seen cur then (old ∷ cyclic, resolved) else (cyclic, (old, cur) ∷ resolved)
settle old cycle (cyclic, resolved) = (old ∷ cyclic, resolved)
settle old out_of_fuel (cyclic, resolved) = (old ∷ cyclic, resolved)

-- The loop over `successor_of`: the cyclic ids, and the ids with the end of their chain.
unfoldable pub resolve : Table Text → Table Text → List Text × List (Text × Text)
resolve succ [] = ([], [])
resolve succ ((old, first) ∷ entries) =
    settle old (walk (walk_fuel succ) succ first (old ∷ [])) (resolve succ entries)

unfoldable pub acyclic : List Text → List (Text × Text) → List (Text × Text)
acyclic cyclic [] = []
acyclic cyclic ((old, succ) ∷ pairs) =
    let rest = acyclic cyclic pairs in
    if not (contains cyclic old) && not (contains cyclic succ) then (old, succ) ∷ rest else rest

-- Rule 1: of the items of one fingerprint the least id stays.
unfoldable pub hide_identical : List HealItem → Table (Text × HealKind)
hide_identical items =
    hide_all HealKind.identical (losers keeper (group_by (λ it. some it.fingerprint) items [])) []

-- Rule 2: of the copies of one object the one of the highest revision stays.
unfoldable pub hide_copies : List HealItem → Table (Text × HealKind) → Table (Text × HealKind)
hide_copies items hidden =
    hide_all HealKind.superseded
      (losers winner (group_by ref_key (keep_if (visible hidden) items) [])) hidden

abbrev pub file_visible : Table (Text × HealKind) → HealItem → Bool
file_visible hidden it = not it.is_folder && visible hidden it

unfoldable pub successor_of : List HealItem → Table (Text × HealKind) → Table Text
successor_of items hidden =
    let files = keep_if (file_visible hidden) items in
    succeed_all (group_by (λ it. it.node_ref) files []) files []

-- Rule 3: a file that was saved from another replaces it, through chains of saves.
unfoldable pub hide_replaced : List HealItem → Table (Text × HealKind) → Table (Text × HealKind)
hide_replaced items hidden =
    let succ = successor_of items hidden in
    let (cyclic, resolved) = resolve succ succ in
    hide_all HealKind.superseded (acyclic cyclic resolved) hidden

unfoldable pub plan : List HealItem → HealPlan
plan items = record { hidden = hide_replaced items (hide_copies items (hide_identical items)) }
