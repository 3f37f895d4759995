-- ===== src/Chunks.antt =====
-- Which thread loads which chunk of a large file, `lethean_fuse/src/vault.rs`: the states of
-- `ChunkedSource` (`state`, `try_claim`, the claim of `ensure`, `LoadingReset`) and `Slots`.
pub mod Claims
use lethean.Prelude.{
  ℕ, zero, suc, ◌+◌, ◌-◌, ◌*◌, ◌/◌, ◌%◌, ◌^◌, ◌≤◌, ◌<◌, min, max, ◌≡◌, refl, sym, ap, ◌∙◌, ◌≢◌, ◌↔◌,
  ◌⊎◌, inl, inr, Bool, true, false, ◌&&◌, ◌||◌, not, Option, none, some, List, [], ◌∷◌, ◌++◌, map,
  append_assoc, append-nil, arith, ltb, leb, ◌==◌, if◌then◌else◌, ltb→lt, lt→ltb, leb→le, ==_iff,
  Bool-cases, Option-cases, length, get_elem?, get_or, set, take, drop, replicate, length-append,
  length-set, get_elem?-set_self, get_elem?-set_ne, take-append-drop, length-take, length-drop,
  length-replicate, take_of_le, take-append, drop-append, take-append_le, drop-append_le,
  take-append_ge, drop-append_ge, drop-drop, drop-nil, Bytes, Text, codes, eq_list, eq_list_iff,
  eq_list_refl, all_zero, zeros, length-zeros, all_zero-zeros, all_zero_eq, all_zero-append,
  utf8_width, utf8_len, utf16_width, utf16_len, is_empty, Error, Result, ok, err, ◌>>=◌, ◌>>◌,
  guard, ok_or, >>=-eq-ok,
}

-- `CHUNK_MISSING`, `CHUNK_LOADING`, `CHUNK_READY`
pub data ChunkState : Type 0 where
  missing loading ready : ChunkState

-- What the threads share: the states and the read-ahead marks of the chunks, and the free slots.
pub record Shared : Type 0 where
  pub states : List ChunkState
  pub prefetched : List Bool
  pub free : ℕ

-- `state`: past the end, nothing is to load.
unfoldable pub state_of : Shared → ℕ → ChunkState
state_of s i = elim (get_elem? s.states i) [ none ↦ ChunkState.ready | some st ↦ st ]

-- The second half of `try_claim`.
unfoldable pub claim_missing : Shared → ℕ → Shared × Bool
claim_missing s i = elim (get_elem? s.states i) [
  | none ↦ (s, false)
  | some ChunkState.missing ↦ (record s { states = set s.states i ChunkState.loading }, true)
  | some ChunkState.loading ↦ (s, false)
  | some ChunkState.ready ↦ (s, false)
]

unfoldable pub try_claim : Shared → ℕ → Shared × Bool
try_claim s i = elim (get_elem? s.prefetched i) [
  | none ↦ (s, false)
  | some true ↦ (s, false)
  | some false ↦ claim_missing (record s { prefetched = set s.prefetched i true }) i
]

-- One round of the loop of `ensure`: the chunk is there, another thread loads it and this one waits,
-- or it is this thread's to load.
pub data Ensured : Type 0 where
  resident wait : Ensured
  claimed : Shared → Ensured

unfoldable pub ensure : Shared → ℕ → Ensured
ensure s i = elim (get_elem? s.states i) [
  | none ↦ Ensured.resident
  | some ChunkState.ready ↦ Ensured.resident
  | some ChunkState.loading ↦ Ensured.wait
  | some ChunkState.missing ↦
      Ensured.claimed (record s { states = set s.states i ChunkState.loading })
]

-- `LoadingReset::drop`, also `release_claim`.
unfoldable pub reset : Shared → ℕ → Bool → Shared
reset s i done = record s {
  states = set s.states i (if done then ChunkState.ready else ChunkState.missing);
}

-- `Slots::acquire`, which waits at no free slot, and `SlotGuard::drop`.
unfoldable pub acquire : Shared → Option Shared
acquire s = if s.free == 0 then none else some (record s { free = s.free - 1 })

unfoldable pub release : Shared → Shared
release s = record s { free = s.free + 1 }
