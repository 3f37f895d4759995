-- ===== src/Padding/Metadata.antt =====
-- The padding of metadata: a four-byte length, the bytes, zeros up to the bucket
-- (`pad_metadata_bytes`, `unpad_metadata_bytes`, `unpad_metadata_strict` of
-- `lethean_fuse/src/crypto/aead.rs`).
use lethean.Prelude.{
  ℕ, ◌+◌, ◌-◌, ◌^◌, ◌<◌, ◌≡◌, refl, ap, ◌||◌, not, ◌∷◌, ◌++◌, arith, ltb, ◌==◌, if◌then◌else◌,
  length, take, drop, length-append, take-append-drop, length-take, length-drop, take-append,
  drop-append, Bytes, all_zero, zeros, length-zeros, all_zero-zeros, all_zero_eq, Error, Result, ok,
  err,
}
use lethean.Word.{be32, from_be32, from_be32-be32, be32-from_be32}
use lethean.Padding.{padded_metadata_size}
use lethean.Padding.Bounds.{le-padded_metadata_size}

unfoldable pub pad_metadata_bytes : Bytes → Bytes
pad_metadata_bytes bytes =
    be32 (length bytes)
    ++ (bytes ++ zeros (padded_metadata_size (length bytes + 4) - 4 - length bytes))

-- The lenient reader of legacy files.
unfoldable pub unpad_metadata_bytes : Bytes → Bytes
unpad_metadata_bytes (a ∷ b ∷ c ∷ d ∷ rest) =
    if ltb (length rest) (from_be32 a b c d) then rest else take (from_be32 a b c d) rest
unpad_metadata_bytes bytes = bytes

unfoldable pub unpad_metadata_strict : Bytes → Result Bytes
unpad_metadata_strict (a ∷ b ∷ c ∷ d ∷ rest) =
    let len = from_be32 a b c d in
    if ltb (length rest) len
      || not (length rest + 4 == padded_metadata_size (len + 4))
      || not (all_zero (drop len rest))
    then err Error.corrupt_padding
    else ok (take len rest)
unpad_metadata_strict bytes = err Error.corrupt_padding

-- What stands behind the length field.
abbrev body : Bytes → Bytes
body bytes = bytes ++ zeros (padded_metadata_size (length bytes + 4) - 4 - length bytes)

length-body :
    (bytes : Bytes)
    → length bytes < 2 ^ 32
    → length (body bytes) + 4 ≡ padded_metadata_size (length bytes + 4)
length-body bytes small = omega (
  arith,
  length-append {0} bytes (zeros (padded_metadata_size (length bytes + 4) - 4 - length bytes)),
  length-zeros (padded_metadata_size (length bytes + 4) - 4 - length bytes),
  le-padded_metadata_size (length bytes + 4) (omega arith),
)

pub length-pad_metadata :
    (bytes : Bytes)
    → length bytes < 2 ^ 32
    → length (pad_metadata_bytes bytes) ≡ padded_metadata_size (length bytes + 4)
unfolding pad_metadata_bytes
length-pad_metadata bytes small = omega (arith, length-body bytes small)

-- Reading back what was padded gives the bytes, for the strict and for the lenient reader, if there are
-- less than 2 ^ 32 of them.
pub unpad-pad_metadata :
    (bytes : Bytes)
    → length bytes < 2 ^ 32
    → (unpad_metadata_strict (pad_metadata_bytes bytes) ≡ ok bytes)
      × (unpad_metadata_bytes (pad_metadata_bytes bytes) ≡ bytes)
unfolding unpad_metadata_strict unpad_metadata_bytes pad_metadata_bytes
unpad-pad_metadata bytes small =
    let n = length bytes in
    let filler = zeros (padded_metadata_size (n + 4) - 4 - n) in
    rw (from_be32-be32 n small, take-append n bytes filler refl, drop-append n bytes filler refl)
      (
        ground (
          arith,
          length-body bytes small,
          le-padded_metadata_size (n + 4) (omega arith),
          all_zero-zeros (padded_metadata_size (n + 4) - 4 - n),
        ),
        ground (arith, length-body bytes small, le-padded_metadata_size (n + 4) (omega arith)),
      )

-- The strict reader accepts nothing but what the writer produces: the padding leaves no room for a
-- second encoding of the same metadata.
pub unpad_metadata_strict-canonical :
    (a b c d : ℕ) (rest : Bytes) {out : Bytes}
    → a < 256
    → b < 256
    → c < 256
    → d < 256
    → unpad_metadata_strict (a ∷ b ∷ c ∷ d ∷ rest) ≡ ok out
    → pad_metadata_bytes out ≡ a ∷ b ∷ c ∷ d ∷ rest
unfolding unpad_metadata_strict pad_metadata_bytes
unpad_metadata_strict-canonical a b c d rest {out} ha hb hc hd h =
    let len = from_be32 a b c d in
    let size : length (take len rest) ≡ len = ground (arith, length-take len rest) in
    let tail : drop len rest ≡ zeros (padded_metadata_size (len + 4) - 4 - len) =
      ground (arith, all_zero_eq (drop len rest), length-drop len rest) in
    let e : out ≡ take len rest = ground arith in
    rw (e, size, ← tail, take-append-drop)
      (ap (λ (t : Bytes). t ++ rest) (be32-from_be32 a b c d ha hb hc hd))
