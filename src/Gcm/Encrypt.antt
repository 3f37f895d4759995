-- ===== src/Gcm/Encrypt.antt =====
-- `GcmEncryptReader` of `lethean_fuse/src/crypto/gcm_stream.rs`: a reader that encrypts its source,
-- fills it up with zeros and ends with the tag. `IO_BUF` is an argument.
use lethean.Prelude.{
  ℕ, zero, suc, ◌+◌, ◌-◌, min, Option, none, some, List, [], ◌++◌, ltb, leb, ◌==◌, if◌then◌else◌,
  length, take, drop, Bytes, zeros, Error, Result, ok, err, ◌>>=◌, ◌>>◌, guard,
}
use lethean.Source.{Event, Ending, Filled, fill}
use lethean.Gcm.{Primitives, GcmState, new_with_aad, absorb, finish}

module _ (p : Primitives) where
  open p use {keystream, advance}

  pub record StreamReader : Type 0 where
    pub source : List Event
    pub state : Option (GcmState p)
    pub plain_len : ℕ
    pub padded_len : ℕ
    pub consumed : ℕ
    pub out : Bytes
    pub out_pos : ℕ
    pub tag : Option Bytes
    pub tag_pos : ℕ

  unfoldable pub with_aad : List Event → Bytes → Bytes → Bytes → ℕ → ℕ → Result StreamReader
  with_aad source key iv aad plain_len padded_len = do
    guard (leb plain_len padded_len) Error.corrupt_size
    st ← new_with_aad p key iv aad
    ok (record {
      source = source;
      state = some st;
      plain_len = plain_len;
      padded_len = padded_len;
      consumed = 0;
      out = [];
      out_pos = 0;
      tag = none;
      tag_pos = 0;
    })

  -- The end of `refill`, on what the read loop filled of a buffer of `want` zeros.
  unfoldable pub encrypt_filled :
      StreamReader → GcmState p → ℕ → Filled → StreamReader × Result (Unit {0})
  encrypt_filled s st want f =
      let plain = f.got ++ zeros (want - length f.got) in
      let s' = record s { source = f.rest; out = plain; out_pos = 0 } in
      let c = keystream st.ctr plain in
      elim f.ending [
        | Ending.failed e ↦ (s', err e)
        | Ending.ended ↦ (s', err Error.unexpected_eof)
        | Ending.full ↦ (
          record s' {
            state = some (absorb p (record st { ctr = advance st.ctr (length plain) }) c);
            out = c;
            consumed = s.consumed + want;
          },
          ok tt,
        )
      ]

  unfoldable pub refill : ℕ → StreamReader → StreamReader × Result (Unit {0})
  refill io_buf s =
      let want = min (s.padded_len - s.consumed) io_buf in
      elim s.state [
        | none ↦ (s, err Error.panicked)
        | some st ↦ encrypt_filled s st want (fill s.source (min (s.plain_len - s.consumed) want))
      ]

  unfoldable pub give_out : StreamReader → ℕ → StreamReader × Result Bytes
  give_out s n =
      let k = min (length s.out - s.out_pos) n in
      (record s { out_pos = s.out_pos + k }, ok (take k (drop s.out_pos s.out)))

  unfoldable pub give_tag : StreamReader → Bytes → ℕ → StreamReader × Result Bytes
  give_tag s t n =
      let k = min (16 - s.tag_pos) n in
      if leb 16 s.tag_pos
      then (s, ok [])
      else (record s { tag_pos = s.tag_pos + k }, ok (take k (drop s.tag_pos t)))

  -- The tag is computed once, and takes the state away.
  unfoldable pub read_tag : StreamReader → ℕ → StreamReader × Result Bytes
  read_tag s n = elim s.tag [
    | some t ↦ give_tag s t n
    | none ↦ elim s.state [
      | none ↦ (s, err Error.panicked)
      | some st ↦ give_tag (record s { tag = some (finish p st); state = none }) (finish p st) n
    ]
  ]

  -- The loop of `read`, on fuel; running out of fuel is told apart from every answer of the code.
  unfoldable pub serve : ℕ → ℕ → StreamReader → ℕ → StreamReader × Result Bytes
  serve io_buf zero s n = (s, err Error.out_of_fuel)
  serve io_buf (suc fuel) s n =
      let (s', r) = refill io_buf s in
      let again = serve io_buf fuel s' n in
      if ltb s.out_pos (length s.out)
      then give_out s n
      else if ltb s.consumed s.padded_len
      then elim r [ err e ↦ (s', err e) | ok _ ↦ again ]
      else read_tag s n

  -- A refill leaves bytes to give, so two rounds are enough.
  unfoldable pub read : ℕ → StreamReader → ℕ → StreamReader × Result Bytes
  read io_buf s n = if n == 0 then (s, ok []) else serve io_buf 2 s n
