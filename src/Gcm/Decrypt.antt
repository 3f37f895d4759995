-- ===== src/Gcm/Decrypt.antt =====
-- `GcmDecryptReader` of `lethean_fuse/src/crypto/gcm_stream.rs`: a reader that decrypts its source and
-- holds the last sixteen bytes back, which are the tag. `DECRYPT_BATCH` and `IO_BUF` are arguments.
use lethean.Prelude.{
  ℕ, zero, suc, ◌+◌, ◌-◌, min, Bool, true, false, ◌&&◌, ◌||◌, not, Option, none, some, List, [],
  ◌∷◌, ◌++◌, ltb, leb, ◌==◌, if◌then◌else◌, length, take, drop, Bytes, Error, Result, ok, err,
  ◌>>=◌,
}
use lethean.Source.{Event, Ending, fill}
use lethean.Gcm.{Primitives, GcmState, new_with_aad, absorb, finish}

-- The comparison of `verify`, on the pairs of `zip`: is some byte different?
unfoldable pub differs : Bytes → Bytes → Bool
differs [] ys = false
differs (x ∷ xs) [] = false
differs (x ∷ xs) (y ∷ ys) = not (x == y) || differs xs ys

module _ (p : Primitives) where
  open p use {keystream, advance}

  pub record DecryptReader : Type 0 where
    pub source : List Event
    pub state : Option (GcmState p)
    pub held : Bytes
    pub ready : Bytes
    pub ready_pos : ℕ
    pub eof : Bool
    pub done : Bool
    pub failed : Bool

  unfoldable pub open_with_aad : List Event → Bytes → Bytes → Bytes → Result DecryptReader
  open_with_aad source key iv aad = do
    st ← new_with_aad p key iv aad
    ok (record {
      source = source;
      state = some st;
      held = [];
      ready = [];
      ready_pos = 0;
      eof = false;
      done = false;
      failed = false;
    })

  -- The loop over `chunks_mut(IO_BUF)`; a part has at least a byte, so the length is fuel enough.
  unfoldable pub decrypt_parts : ℕ → ℕ → GcmState p → Bytes → GcmState p × Bytes
  decrypt_parts io_buf zero st bytes = (st, [])
  decrypt_parts io_buf (suc fuel) st [] = (st, [])
  decrypt_parts io_buf (suc fuel) st (b ∷ bs) =
      let part = take io_buf (b ∷ bs) in
      let seen = absorb p st part in
      let (st', plain) =
        decrypt_parts io_buf fuel (record seen { ctr = advance seen.ctr (length part) })
          (drop io_buf (b ∷ bs)) in
      (st', keystream seen.ctr part ++ plain)

  unfoldable pub verify : DecryptReader → DecryptReader × Result (Unit {0})
  verify s =
      if not (length s.held == 16)
      then (record s { failed = true }, err Error.no_tag)
      else elim s.state [
        | none ↦ (s, err Error.panicked)
        | some st ↦
            let s' = record s { state = none; done = true } in
            if differs (finish p st) s.held
            then (record s' { failed = true }, err Error.auth_failed)
            else (s', ok tt)
      ]

  -- The second half of `fill`, once the batch is read.
  unfoldable pub release_held : ℕ → DecryptReader → DecryptReader × Result (Unit {0})
  release_held io_buf s =
      let n = length s.held - 16 in
      if ltb 16 (length s.held)
      then elim s.state [
        | none ↦ (s, err Error.panicked)
        | some st ↦
            let (st', plain) = decrypt_parts io_buf n st (take n s.held) in
            (
              record s { state = some st'; held = drop n s.held; ready = plain; ready_pos = 0 },
              ok tt,
            )
      ]
      else if s.eof
      then verify (record s { ready = []; ready_pos = 0 })
      else (s, ok tt)

  unfoldable pub fill_ready : ℕ → ℕ → DecryptReader → DecryptReader × Result (Unit {0})
  fill_ready batch io_buf s =
      let f = fill s.source batch in
      let s' = record s { source = f.rest; held = s.held ++ f.got } in
      if s.eof then release_held io_buf s else elim f.ending [
        | Ending.failed e ↦ (s', err e)
        | Ending.ended ↦ release_held io_buf (record s' { eof = true })
        | Ending.full ↦ release_held io_buf s'
      ]

  unfoldable pub give_ready : DecryptReader → ℕ → DecryptReader × Result Bytes
  give_ready s n =
      let k = min (length s.ready - s.ready_pos) n in
      (record s { ready_pos = s.ready_pos + k }, ok (take k (drop s.ready_pos s.ready)))

  -- The loop of `read`, on fuel; running out of fuel is told apart from every answer of the code.
  unfoldable pub deliver : ℕ → ℕ → ℕ → DecryptReader → ℕ → DecryptReader × Result Bytes
  deliver batch io_buf zero s n = (s, err Error.out_of_fuel)
  deliver batch io_buf (suc fuel) s n =
      let (s', r) = fill_ready batch io_buf s in
      let again = deliver batch io_buf fuel s' n in
      if ltb s.ready_pos (length s.ready)
      then give_ready s n
      else if s.failed
      then (s, err Error.auth_failed)
      else if s.done
      then (s, ok [])
      else elim r [
        | err e ↦ (s', err e)
        | ok _ ↦ if s'.done && leb (length s'.ready) s'.ready_pos then (s', ok []) else again
      ]

  -- A batch is longer than a tag, so two rounds are enough.
  unfoldable pub read : ℕ → ℕ → DecryptReader → ℕ → DecryptReader × Result Bytes
  read batch io_buf s n = if n == 0 then (s, ok []) else deliver batch io_buf 2 s n
