-- ===== src/Chunked/Fetch.antt =====
-- `decrypt_chunked` of `lethean_fuse/src/crypto/chunked.rs`: the chunks of a source, each through a
-- `GcmDecryptReader`. `MIN_CHUNK`, `MAX_CHUNK` and the size of the buffer are arguments; so is the
-- writer, as what it holds after it is given more.
use lethean.Prelude.{
  ℕ, zero, suc, ◌+◌, ◌-◌, min, ◌&&◌, List, [], ◌∷◌, ◌++◌, ltb, leb, ◌==◌, if◌then◌else◌, length,
  take, drop, Bytes, is_empty, Error, Result, ok, err, ◌>>=◌, ◌>>◌, guard,
}
use lethean.Source.{Event, full, ended, failed, ready, interrupted, failing, Ending, fill}
use lethean.Keys.{FileFormat}
use lethean.Gcm.{Primitives}
use lethean.Gcm.Decrypt.{DecryptReader, open_with_aad, read}
use lethean.Chunked.{chunk_count, tag_len, nonce_for, aad_for, check_filler}

-- `(&mut source).take(limit)`: the answers within the limit, and those that are left. After an error
-- or an early end nothing more is asked for.
unfoldable pub limit : ℕ → List Event → List Event × List Event
limit zero src = ([], src)
limit (suc n) [] = ([], [])
limit (suc n) (interrupted ∷ src) = let (l, r) = limit (suc n) src in (Event.interrupted ∷ l, r)
limit (suc n) (failing e ∷ src) = (Event.failing e ∷ [], src)
limit (suc n) (ready b ∷ src) =
    let (l, r) = limit (suc n - length b) src in
    if is_empty b
    then (Event.ready b ∷ [], src)
    else if ltb (suc n) (length b)
    then (Event.ready (take (suc n) b) ∷ [], Event.ready (drop (suc n) b) ∷ src)
    else (Event.ready b ∷ l, r)

-- The loop over `probe`: nothing may follow the last chunk.
unfoldable pub after_probe : Ending → Result (Unit {0})
after_probe full = err Error.auth_failed
after_probe ended = ok tt
after_probe (failed e) = err e

unfoldable pub probe_end : List Event → Result (Unit {0})
probe_end src = after_probe (fill src 1).ending

module _ (write : Bytes → Bytes → Result Bytes) (format : FileFormat) where
  -- What one round of the loop does with the bytes read: the first `keep` go to the writer.
  unfoldable pub put_piece : (want got : ℕ) → Bytes → Bytes → Result Bytes
  put_piece want got out piece = do
    let keep = min (want - got) (length piece)
    out' ← if ltb 0 keep then write out (take keep piece) else ok out
    check_filler format (drop keep piece)
    ok out'

  -- The end of a chunk, or a round and the rounds after it.
  unfoldable pub after_piece :
      (Bytes → Bytes → Result (ℕ × Bytes))
      → (want got : ℕ) → Bytes
      → Result Bytes
      → Result (ℕ × Bytes)
  after_piece more want got out (err e) = err e
  after_piece more want got out (ok []) = ok (got, out)
  after_piece more want got out (ok (b ∷ bs)) =
      put_piece want got out (b ∷ bs) >>= λ out'. more (b ∷ bs) out'

module _ (p : Primitives) (batch io_buf : ℕ) where
  -- The match on a read: an error, the end, or bytes and what is read after them.
  unfoldable pub after_read :
      (Bytes → DecryptReader p × Result Bytes)
      → DecryptReader p
      → Result Bytes
      → DecryptReader p × Result Bytes
  after_read more s (err e) = (s, err e)
  after_read more s (ok []) = (s, ok [])
  after_read more s (ok (b ∷ bs)) =
      let (s', r) = more (b ∷ bs) in (s', r >>= λ rest. ok ((b ∷ bs) ++ rest))

  -- `read_full` on a decrypting reader. A read that returns anything returns a byte, so the size asked
  -- for is fuel enough.
  unfoldable pub read_full : ℕ → DecryptReader p → ℕ → DecryptReader p × Result Bytes
  read_full fuel s zero = (s, ok [])
  read_full zero s (suc n) = (s, err Error.out_of_fuel)
  read_full (suc fuel) s (suc n) =
      let (s', r) = read p batch io_buf s (suc n) in
      after_read (λ piece. read_full fuel s' (suc n - length piece)) s' r

  module _ (write : Bytes → Bytes → Result Bytes) (format : FileFormat) where
    -- The loop over one chunk; a round that is not the last reads a byte.
    unfoldable pub drain : ℕ → ℕ → DecryptReader p → (want got : ℕ) → Bytes → Result (ℕ × Bytes)
    drain zero buf s want got out = err Error.out_of_fuel
    drain (suc fuel) buf s want got out =
        let (s', r) = read_full buf s buf in
        after_piece write format (λ piece out'. drain fuel buf s' want (got + length piece) out')
          want got out r

    -- The loop over the chunks, `left` of them from `index` on.
    unfoldable pub fetch_chunks :
        (buf : ℕ) (key pre : Bytes) (chunk_size true_size count left index : ℕ)
        → List Event
        → (written : ℕ) → Bytes
        → Result (List Event × ℕ × Bytes)
    fetch_chunks buf key pre chunk_size true_size count zero index src written out =
        ok (src, written, out)
    fetch_chunks buf key pre chunk_size true_size count (suc left) index src written out = do
      nonce ← nonce_for pre index
      let (part, rest) = limit (chunk_size + tag_len) src
      let want = min (true_size - written) chunk_size
      dec ← open_with_aad p part key nonce (aad_for format index (index == count - 1))
      (got, out') ← drain (chunk_size + 2) buf dec want 0 out
      guard (got == chunk_size) Error.unexpected_eof
      fetch_chunks buf key pre chunk_size true_size count left (index + 1) rest (written + want)
          out'

    unfoldable pub decrypt_chunked :
        (min_chunk max_chunk buf : ℕ) (key pre : Bytes) (chunk_size true_size : ℕ)
        → List Event
        → Bytes
        → Result (ℕ × Bytes)
    decrypt_chunked min_chunk max_chunk buf key pre chunk_size true_size src out = do
      guard (leb min_chunk chunk_size && leb chunk_size max_chunk) Error.bad_chunk_size
      let count = chunk_count true_size chunk_size
      (rest, written, out') ← fetch_chunks buf key pre chunk_size true_size count count 0 src 0 out
      probe_end rest
      ok (written, out')
