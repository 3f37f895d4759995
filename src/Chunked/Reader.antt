-- ===== src/Chunked/Reader.antt =====
-- `ChunkedEncryptReader` of `lethean_fuse/src/crypto/chunked.rs`: a reader that seals its source
-- chunk by chunk. A failing call keeps the state it leaves behind.
use lethean.Prelude.{
  ℕ, ◌+◌, ◌-◌, ◌*◌, min, List, [], ◌++◌, ltb, leb, ◌==◌, if◌then◌else◌, length, take, drop, Bytes,
  zeros, Error, Result, ok, err,
}
use lethean.Source.{Event, Ending, Filled, fill}
use lethean.Crypto.{Aead}
use lethean.Keys.{FileFormat, ContentKey}
use lethean.Chunked.{chunk_count, seal_chunk}

pub record EncryptReader : Type 0 where
  pub source : List Event
  pub key : Bytes
  pub format : FileFormat
  pub pre : Bytes
  pub plain_len : ℕ
  pub count : ℕ
  pub index : ℕ
  pub buf : Bytes
  pub pos : ℕ

module _ (aead : Aead) (chunk : ℕ) where
  unfoldable pub new : List Event → ContentKey → Bytes → ℕ → EncryptReader
  new source ck pre plain_len = record {
    source = source;
    key = ck.key;
    format = ck.format;
    pre = pre;
    plain_len = plain_len;
    count = chunk_count plain_len chunk;
    index = 0;
    buf = [];
    pos = 0;
  }

  -- `next_chunk` on what the read loop filled; the buffer was zeroed before.
  unfoldable pub seal_next : EncryptReader → Filled → EncryptReader × Result (Unit {0})
  seal_next s f =
      let plain = f.got ++ zeros (chunk - length f.got) in
      let s' = record s { source = f.rest; buf = plain } in
      elim f.ending [
        | Ending.failed e ↦ (s', err e)
        | Ending.ended ↦ (s', err Error.unexpected_eof)
        | Ending.full ↦
            elim (seal_chunk aead s.key s.format s.pre s.index (s.index == s.count - 1) plain) [
              | err e ↦ (s', err e)
              | ok c ↦ (record s' { buf = c; index = s.index + 1; pos = 0 }, ok tt)
            ]
      ]

  unfoldable pub next_chunk : EncryptReader → EncryptReader × Result (Unit {0})
  next_chunk s = seal_next s (fill s.source (min (s.plain_len - s.index * chunk) chunk))

  -- The end of `read`: a part of the buffer.
  unfoldable pub deliver : EncryptReader → ℕ → EncryptReader × Result Bytes
  deliver s n =
      let k = min (length s.buf - s.pos) n in
      (record s { pos = s.pos + k }, ok (take k (drop s.pos s.buf)))

  -- `read` into a buffer of `n` bytes.
  unfoldable pub read : EncryptReader → ℕ → EncryptReader × Result Bytes
  read s n =
      if n == 0
      then (s, ok [])
      else if ltb s.pos (length s.buf)
      then deliver s n
      else if leb s.count s.index
      then (s, ok [])
      else let (s', r) = next_chunk s in elim r [ err e ↦ (s', err e) | ok _ ↦ deliver s' n ]
