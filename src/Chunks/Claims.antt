-- ===== src/Chunks/Claims.antt =====
-- The threads that load chunks as a system of steps (`ChunkedSource` and `Slots` of
-- `lethean_fuse/src/vault.rs`).
use lethean.Prelude.{
  ℕ, zero, suc, ◌+◌, ◌-◌, ◌≤◌, ◌<◌, ◌≡◌, refl, sym, ap, ◌∙◌, ◌≢◌, inl, inr, Bool, true, false,
  Option, none, some, List, [], ◌∷◌, ◌++◌, arith, ◌==◌, if◌then◌else◌, ==_iff, Bool-cases, length,
  get_elem?, set, replicate, get_elem?-set_self, get_elem?-set_ne,
}
use mathlib.Core.Path.{subst}
use lethean.Chunks.{
  ChunkState, Shared, Ensured, claim_missing, try_claim, ensure, reset, acquire, release,
}

-- The shared state, the chunk that each loading thread has claimed, and how many of them hold a slot.
pub record System : Type 0 where
  pub shared : Shared
  pub loaders : List ℕ
  pub holders : ℕ

abbrev pub start : ℕ → ℕ → System
start count slots = record {
  shared = record {
    states = replicate count ChunkState.missing;
    prefetched = replicate count false;
    free = slots;
  };
  loaders = [];
  holders = 0;
}

pub data Step (s : System) : System → Type 0 where
  -- a reader claims a chunk in `ensure`
  demand :
      (i : ℕ) {sh : Shared}
      → ensure s.shared i ≡ Ensured.claimed sh
      → Step s (record s { shared = sh; loaders = i ∷ s.loaders })
  -- a reader tries to claim a chunk for read-ahead
  ahead :
      (i : ℕ)
      → Step s (record s {
        shared = (try_claim s.shared i).0;
        loaders = if (try_claim s.shared i).1 then i ∷ s.loaders else s.loaders;
      })
  take_slot :
      {sh : Shared}
      → acquire s.shared ≡ some sh
      → Step s (record s { shared = sh; holders = s.holders + 1 })
  give_slot :
      0 < s.holders → Step s (record s { shared = release s.shared; holders = s.holders - 1 })
  -- a loading thread ends, with success or not
  leave :
      (front : List ℕ) (i : ℕ) (rest : List ℕ) (done : Bool)
      → s.loaders ≡ front ++ (i ∷ rest)
      → Step s (record s { shared = reset s.shared i done; loaders = front ++ rest })

pub data Reach (count slots : ℕ) : System → Type 0 where
  initial : Reach count slots (start count slots)
  later : {s t : System} → Reach count slots s → Step s t → Reach count slots t

-- How many threads load a chunk.
unfoldable pub loads : ℕ → List ℕ → ℕ
loads i [] = 0
loads i (j ∷ js) = (if j == i then 1 else 0) + loads i js

abbrev pub in_loading : Option ChunkState → ℕ
in_loading none = 0
in_loading (some ChunkState.missing) = 0
in_loading (some ChunkState.loading) = 1
in_loading (some ChunkState.ready) = 0

abbrev Claimed : List ChunkState → List ℕ → Type 0
Claimed states ls = (i : ℕ) → loads i ls ≡ in_loading (get_elem? states i)

lt_of_some :
    (xs : List ChunkState) (i : ℕ) {a : ChunkState} → get_elem? xs i ≡ some a → i < length xs
lt_of_some [] i h = cc
lt_of_some (x ∷ xs) zero h = omega arith
lt_of_some (x ∷ xs) (suc i) h = omega (arith, lt_of_some xs i h)

claim-Claimed :
    (states : List ChunkState) (ls : List ℕ) (i : ℕ)
    → get_elem? states i ≡ some ChunkState.missing
    → Claimed states ls
    → Claimed (set states i ChunkState.loading) (i ∷ ls)
unfolding loads
claim-Claimed states ls i e h j = elim (Bool-cases (i == j)) [
  | inl same ↦
      let eq : i ≡ j = (==_iff i j).0 same in
      let before : loads j ls ≡ 0 =
        h j ∙ ap (λ k. in_loading (get_elem? states k)) (sym eq) ∙ ap in_loading e in
      let after : get_elem? (set states i ChunkState.loading) j ≡ some ChunkState.loading =
        ap (get_elem? (set states i ChunkState.loading)) (sym eq)
        ∙ get_elem?-set_self states i ChunkState.loading (lt_of_some states i e) in
      rw (same, before, after) refl
  | inr other ↦
      let ne : i ≢ j = ground (arith, ==_iff i j) in
      rw (other, get_elem?-set_ne states i j ChunkState.loading ne) (omega (arith, h j))
]

loads-append : (i : ℕ) (xs ys : List ℕ) → loads i (xs ++ ys) ≡ loads i xs + loads i ys
unfolding loads
loads-append i [] ys = omega arith
loads-append i (x ∷ xs) ys = omega (arith, loads-append i xs ys)

-- A chunk that is loading is in the list.
lt_of_loading : (xs : List ChunkState) (i : ℕ) → 0 < in_loading (get_elem? xs i) → i < length xs
lt_of_loading [] i h = absurd (omega arith)
lt_of_loading (x ∷ xs) zero h = omega arith
lt_of_loading (x ∷ xs) (suc i) h = omega (arith, lt_of_loading xs i h)

at_most_one : (o : Option ChunkState) → in_loading o ≤ 1
at_most_one none = omega arith
at_most_one (some ChunkState.missing) = omega arith
at_most_one (some ChunkState.loading) = omega arith
at_most_one (some ChunkState.ready) = omega arith

abbrev ended : Bool → ChunkState
ended done = if done then ChunkState.ready else ChunkState.missing

not_loading : (done : Bool) → in_loading (some (ended done)) ≡ 0
not_loading true = refl
not_loading false = refl

leave-Claimed :
    (states : List ChunkState) (front rest : List ℕ) (i : ℕ) (done : Bool)
    → Claimed states (front ++ (i ∷ rest))
    → Claimed (set states i (ended done)) (front ++ rest)
unfolding loads
leave-Claimed states front rest i done h j =
    let split : loads j (front ++ rest) ≡ loads j front + loads j rest =
      loads-append j front rest in
    let whole : loads j front + ((if i == j then 1 else 0) + loads j rest)
        ≡ in_loading (get_elem? states j) =
      sym (loads-append j front (i ∷ rest)) ∙ h j in
    elim (Bool-cases (i == j)) [
      | inl same ↦
          let eq : i ≡ j = (==_iff i j).0 same in
          let one : loads j front + (1 + loads j rest) ≡ in_loading (get_elem? states j) =
            ap (λ b. loads j front + ((if b then 1 else 0) + loads j rest)) (sym same) ∙ whole in
          let none_left : loads j (front ++ rest) ≡ 0 =
            omega (arith, split, one, at_most_one (get_elem? states j)) in
          let inside : i < length states = rw eq (lt_of_loading states j (omega arith)) in
          let after : get_elem? (set states i (ended done)) j ≡ some (ended done) =
            ap (get_elem? (set states i (ended done))) (sym eq)
            ∙ get_elem?-set_self states i (ended done) inside in
          none_left ∙ sym (ap in_loading after ∙ not_loading done)
      | inr other ↦
          let ne : i ≢ j = ground (arith, ==_iff i j) in
          let kept : loads j front + (0 + loads j rest) ≡ in_loading (get_elem? states j) =
            ap (λ b. loads j front + ((if b then 1 else 0) + loads j rest)) (sym other) ∙ whole in
          rw (get_elem?-set_ne states i j (ended done) ne) (omega (arith, split, kept))
    ]

try_claim_lem :
    (s : Shared) (i : ℕ)
    → ((try_claim s i).0.free ≡ s.free)
      × ((try_claim s i).1 ≡ true
          → (get_elem? s.states i ≡ some ChunkState.missing)
            × ((try_claim s i).0.states ≡ set s.states i ChunkState.loading))
      × ((try_claim s i).1 ≡ false → (try_claim s i).0.states ≡ s.states)
unfolding try_claim claim_missing
try_claim_lem s i = ground arith

ensure_lem :
    (s : Shared) (i : ℕ) {sh : Shared}
    → ensure s i ≡ Ensured.claimed sh
    → (get_elem? s.states i ≡ some ChunkState.missing)
      × (sh.states ≡ set s.states i ChunkState.loading)
      × (sh.free ≡ s.free)
unfolding ensure
ensure_lem s i {sh} h = ground arith

acquire_lem :
    (s : Shared) {sh : Shared}
    → acquire s ≡ some sh
    → (sh.states ≡ s.states) × (sh.free + 1 ≡ s.free)
unfolding acquire
acquire_lem s {sh} h = ground arith

-- The claims are those of the loading threads, and every slot is free or held.
Fine : ℕ → System → Type 0
Fine slots s = Claimed s.shared.states s.loaders × (s.shared.free + s.holders ≡ slots)

replicate_missing : (n i : ℕ) → in_loading (get_elem? (replicate n ChunkState.missing) i) ≡ 0
replicate_missing zero i = refl
replicate_missing (suc n) zero = refl
replicate_missing (suc n) (suc i) = replicate_missing n i

ahead-Claimed :
    (sh : Shared) (ls : List ℕ) (i : ℕ)
    → Claimed sh.states ls
    → Claimed (try_claim sh i).0.states (if (try_claim sh i).1 then i ∷ ls else ls)
ahead-Claimed sh ls i h =
    let facts = try_claim_lem sh i in
    elim (Bool-cases (try_claim sh i).1) [
      | inl won ↦ let (was, now) = facts.1 won in rw (won, now) (claim-Claimed sh.states ls i was h)
      | inr lost ↦ rw (lost, facts.2 lost) h
    ]

Step-Fine : (slots : ℕ) {s t : System} → Fine slots s → Step s t → Fine slots t
unfolding Fine
Step-Fine slots {s} h (demand i e) =
    let (was, now, same) = ensure_lem s.shared i e in
    (rw now (claim-Claimed s.shared.states s.loaders i was h.0), rw same h.1)
Step-Fine slots {s} h (ahead i) =
    (ahead-Claimed s.shared s.loaders i h.0, rw (try_claim_lem s.shared i).0 h.1)
Step-Fine slots {s} h (take_slot e) =
    let (same, fewer) = acquire_lem s.shared e in (rw same h.0, omega (arith, fewer, h.1))
Step-Fine slots {s} h (give_slot e) = (unfold release in h.0, unfold release in omega (arith, h.1))
Step-Fine slots {s} h (leave front i rest done e) = (
  unfold reset in
      leave-Claimed s.shared.states front rest i done (subst (Claimed s.shared.states) e h.0),
  unfold reset in h.1,
)

Reach-Fine : (count slots : ℕ) {s : System} → Reach count slots s → Fine slots s
unfolding Fine loads
Reach-Fine count slots initial = (λ i. sym (replicate_missing count i), omega arith)
Reach-Fine count slots (later r st) = Step-Fine slots (Reach-Fine count slots r) st

-- However the reading, reading-ahead and loading threads interleave, a chunk is in the state
-- `loading` exactly when a thread is loading it, so no claim is lost; no chunk is loaded by two
-- threads at once; and the slots that are free and those that are held are all the slots.
pub claims_lem :
    (count slots : ℕ) {s : System}
    → Reach count slots s
    → ((i : ℕ)
        → (loads i s.loaders ≡ in_loading (get_elem? s.shared.states i)) × (loads i s.loaders ≤ 1))
      × (s.shared.free + s.holders ≡ slots)
unfolding Fine
claims_lem count slots {s} r =
    let h = Reach-Fine count slots r in
    (λ i. (h.0 i, omega (arith, h.0 i, at_most_one (get_elem? s.shared.states i))), h.1)
