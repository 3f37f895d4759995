-- ===== src/Content/Unpad.antt =====
-- The contents come back from their padding and compression, in both formats.
use lethean.Prelude.{
  ℕ, ◌-◌, ◌<◌, ◌≡◌, refl, sym, ◌⊎◌, inl, inr, Bool, true, false, Option, none, some, arith, ltb,
  ltb→lt, Bool-cases, length, take, drop, length-append, take-append-drop, length-take, length-drop,
  take-append, drop-append, Bytes, Text, all_zero, zeros, length-zeros, all_zero-zeros, all_zero_eq,
  ok,
}
use lethean.Padding.{padded_size, pad_owned_for_encryption, pad_to_bucket}
use lethean.Padding.Bounds.{slice_limit, le-padded_size, pad_owned-append, pad_to_bucket-append}
use lethean.Meta.{FileMeta}
use lethean.Crypto.{Gzip}
use lethean.Keys.{FileFormat}
use lethean.Content.{
  is_incompressible_mime, choose_content, decompress_exactly, finish_unpadded, finish_v2,
  finish_single_content,
}

module _ (gzip : Gzip) (mime : Text) (contents : Bytes) where
  -- What the stored bytes are to the contents.
  pub choose_content-cases :
      (choose_content gzip mime contents ≡ (false, contents))
      ⊎ ((c : Bytes) × (gzip.compress contents ≡ some c)
          × (length c < length contents)
          × (choose_content gzip mime contents ≡ (true, c)))
  unfolding choose_content
  choose_content-cases = by_compressor (gzip.compress contents) refl
    where
      by_compressor :
          (r : Option Bytes)
          → gzip.compress contents ≡ r
          → (choose_content gzip mime contents ≡ (false, contents))
            ⊎ ((c : Bytes) × (gzip.compress contents ≡ some c)
                × (length c < length contents)
                × (choose_content gzip mime contents ≡ (true, c)))
      by_compressor none e = inl (ground arith)
      by_compressor (some c) e = elim (Bool-cases (is_incompressible_mime mime)) [
        | inl packed ↦ inl (rw packed)
        | inr plain ↦ elim (Bool-cases (ltb (length c) (length contents))) [
          | inl shorter ↦ inr (c, e, ltb→lt _ _ shorter, ground arith)
          | inr longer ↦ inl (ground arith)
        ]
      ]

finish_v2-pad :
    (gzip : Gzip) (compressed : Bool) (size : Option ℕ) (content : Bytes)
    → length content < slice_limit
    → finish_v2 gzip (some (length content)) compressed size (pad_owned_for_encryption content)
      ≡ finish_unpadded gzip compressed size content
unfolding finish_v2
finish_v2-pad gzip compressed size content h =
    let n = length content in
    let filler = zeros (padded_size n - n) in
    rw
      (
        pad_owned-append content h,
        drop-append n content filler refl,
        take-append n content filler refl,
        all_zero-zeros (padded_size n - n),
      )
      (ground
        (arith, length-append content filler, length-zeros (padded_size n - n), le-padded_size n h))

decompress_exactly_self :
    (gzip : Gzip) (c out : Bytes)
    → gzip.decompress c ≡ (out, some (length c))
    → decompress_exactly gzip c (length out) ≡ ok out
unfolding decompress_exactly
decompress_exactly_self gzip c out e = rw e (ground arith)

module _ (gzip : Gzip) (mime : Text) (contents : Bytes) where
  -- The stored bytes, padded and then unpadded and decompressed as their metadata says, are the contents.
  pub finish-choose_content :
      (m : FileMeta)
      → m.compressed ≡ (choose_content gzip mime contents).0
      → m.unpadded_size ≡ some (length (choose_content gzip mime contents).1)
      → m.size ≡ some (length contents)
      → length (choose_content gzip mime contents).1 < slice_limit
      → finish_single_content gzip FileFormat.v2
          (pad_owned_for_encryption (choose_content gzip mime contents).1)
          m
        ≡ ok contents
  unfolding finish_single_content finish_unpadded
  finish-choose_content m ec eu es h =
      rw
        (
          ec,
          eu,
          es,
          finish_v2-pad gzip (choose_content gzip mime contents).0 (some (length contents))
              (choose_content gzip mime contents).1 h,
        )
        (elim (choose_content-cases gzip mime contents) [
          | inl plain ↦ rw plain
          | inr (c, e, _, packed) ↦
              rw packed
                (decompress_exactly_self gzip c contents (gzip.decompress-compress contents e))
        ])

-- A v2 content whose recorded size is one that a slice can have is accepted only with the padding of
-- this size: the size of the bucket, and zeros behind the content. So no byte of what was sealed goes
-- unread.
pub finish_v2_strict :
    (gzip : Gzip) (unpadded : ℕ) (compressed : Bool) (size : Option ℕ) (padded : Bytes)
    {out : Bytes}
    → unpadded < slice_limit
    → finish_v2 gzip (some unpadded) compressed size padded ≡ ok out
    → (padded ≡ pad_to_bucket (take unpadded padded))
      × (finish_unpadded gzip compressed size (take unpadded padded) ≡ ok out)
unfolding finish_v2
finish_v2_strict gzip unpadded compressed size padded {out} within h =
    let long : length padded ≡ padded_size unpadded = ground arith in
    let clear : all_zero (drop unpadded padded) ≡ true = ground arith in
    let sized : length (take unpadded padded) ≡ unpadded =
      omega (arith, length-take {0} unpadded padded, le-padded_size unpadded within) in
    let rest : zeros (padded_size unpadded - unpadded) ≡ drop unpadded padded =
      ground (arith, all_zero_eq (drop unpadded padded), length-drop unpadded padded) in
    (
      rw (pad_to_bucket-append (take unpadded padded), sized, rest)
          (sym (take-append-drop unpadded padded)),
      ground arith,
    )
