-- ===== src/Padding/Bounds.antt =====
-- What the size buckets and the zero filling promise.
use lethean.Prelude.{
  ℕ, ◌-◌, ◌*◌, ◌^◌, ◌≤◌, ◌<◌, ◌≡◌, refl, sym, ◌⊎◌, inl, inr, true, some, ◌++◌, append-nil, arith,
  ltb, ◌==◌, Bool-cases, length, drop, length-append, take_of_le, take-append, drop-append, Bytes,
  all_zero, zeros, length-zeros, all_zero-zeros,
}
use lethean.Padding.{
  padded_size, padded_metadata_size, pad_to_bucket, pad_owned_for_encryption, strip_padding,
}

-- No slice is longer, and no recorded size that passes the validation.
abbrev pub slice_limit : ℕ
slice_limit = 2 ^ 63

pub le-padded_size : (n : ℕ) → n < slice_limit → n ≤ padded_size n
unfolding padded_size
le-padded_size n h = ground arith

pub le-padded_metadata_size : (n : ℕ) → n < slice_limit → n ≤ padded_metadata_size n
unfolding padded_metadata_size
le-padded_metadata_size n h = ground arith

pub padded_size_mono : (m n : ℕ) → n < slice_limit → m ≤ n → padded_size m ≤ padded_size n
unfolding padded_size
padded_size_mono m n h le = ground arith

-- For two lengths of 64 bits: unless it is one of the last 2 ^ 28 - 1 lengths, where the product wraps
-- around and the padded size is 0, padding a length never shrinks it, never lowers it below a smaller
-- one's, and is stable: what is padded stays, so a length shows only its bucket.
pub padded_size_closure :
    (m n : ℕ)
    → n < 2 ^ 64
    → ((2 ^ 64 - 2 ^ 28 < n) × (padded_size n ≡ 0))
      ⊎ ((n ≤ 2 ^ 64 - 2 ^ 28)
          × (n ≤ padded_size n)
          × (padded_size (padded_size n) ≡ padded_size n)
          × (m ≤ n → padded_size m ≤ padded_size n))
unfolding padded_size
padded_size_closure m n h = elim (Bool-cases (ltb (2 ^ 64 - 2 ^ 28) n)) [
  | inl over ↦ inl (ground arith, ground arith)
  | inr within ↦ inr (ground arith, ground arith, ground arith, λ le. ground arith)
]

-- Both writers append zeros up to the bucket.
pub pad_to_bucket-append :
    (bytes : Bytes)
    → pad_to_bucket bytes ≡ bytes ++ zeros (padded_size (length bytes) - length bytes)
unfolding pad_to_bucket
pad_to_bucket-append bytes = elim (Bool-cases (padded_size (length bytes) == length bytes)) [
  | inl same ↦
      let none_left : padded_size (length bytes) - length bytes ≡ 0 = ground arith in
      rw (same, none_left) (sym (append-nil bytes))
  | inr more ↦ rw more
]

pub pad_owned-append :
    (bytes : Bytes)
    → length bytes < slice_limit
    → pad_owned_for_encryption bytes ≡ bytes ++ zeros (padded_size (length bytes) - length bytes)
unfolding pad_owned_for_encryption
pad_owned-append bytes h =
    rw (take_of_le (padded_size (length bytes)) bytes (le-padded_size (length bytes) h))

-- A padded content, of any length that a slice has, has the size of its bucket, keeps its bytes in front, ends in zeros, and the
-- recorded length gives the bytes back.
pub strip-pad_to_bucket :
    (bytes : Bytes)
    → length bytes < slice_limit
    → (length (pad_to_bucket bytes) ≡ padded_size (length bytes))
      × (all_zero (drop (length bytes) (pad_to_bucket bytes)) ≡ true)
      × (strip_padding (pad_to_bucket bytes) (some (length bytes)) ≡ bytes)
      × (pad_owned_for_encryption bytes ≡ pad_to_bucket bytes)
unfolding strip_padding
strip-pad_to_bucket bytes h =
    let n = length bytes in
    let filler = zeros (padded_size n - n) in
    rw
      (
        pad_to_bucket-append bytes,
        pad_owned-append bytes h,
        drop-append n bytes filler refl,
        take-append n bytes filler refl,
      )
      (
        omega (
          arith,
          length-append {0} bytes filler,
          length-zeros (padded_size n - n),
          le-padded_size n h,
        ),
        all_zero-zeros (padded_size n - n),
        ground (arith, length-append bytes filler),
        refl,
      )

pub length-pad_owned :
    (bytes : Bytes)
    → length bytes < slice_limit
    → length (pad_owned_for_encryption bytes) ≡ padded_size (length bytes)
length-pad_owned bytes h = let (size, _, _, same) = strip-pad_to_bucket bytes h in rw same size

pub padded_size_least : (n : ℕ) → n < slice_limit → 16 * 1024 ≤ padded_size n
unfolding padded_size
padded_size_least n h = ground arith
