-- ===== src/Tests/Loads.antt =====
-- Chunk claims in a concrete run.
use lethean.Prelude.{ℕ, ◌+◌, ◌≤◌, ◌≡◌, refl, false, [], ◌∷◌, get_elem?}
use lethean.Chunks.{ChunkState, ensure, acquire, try_claim, claim_missing}
use lethean.Chunks.Claims.{System, Reach, Step, loads, in_loading, claims_lem}

-- Three chunks and two slots: the middle chunk is claimed and its thread holds a slot.
abbrev loading_one : System
loading_one = record {
  shared = record {
    states = ChunkState.missing ∷ ChunkState.loading ∷ ChunkState.missing ∷ [];
    prefetched = false ∷ false ∷ false ∷ [];
    free = 1;
  };
  loaders = 1 ∷ [];
  holders = 1;
}

abbrev run : Reach 3 2 loading_one
unfolding ensure acquire
run = Reach.later (Reach.later Reach.initial (Step.demand 1 refl)) (Step.take_slot refl)

second_claim_waits : (try_claim loading_one.shared 1).1 ≡ false
unfolding try_claim claim_missing
second_claim_waits = refl

claims_lem_example :
    ((i : ℕ)
      → (loads i loading_one.loaders ≡ in_loading (get_elem? loading_one.shared.states i))
        × (loads i loading_one.loaders ≤ 1))
    × (loading_one.shared.free + loading_one.holders ≡ 2)
claims_lem_example = claims_lem 3 2 run
