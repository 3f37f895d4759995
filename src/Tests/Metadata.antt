-- ===== src/Tests/Metadata.antt =====
-- Metadata, its padding and its names at concrete inputs.
use lethean.Prelude.{
  ◌≤◌, ◌≡◌, refl, ◌≢◌, ◌↔◌, false, none, some, [], ◌∷◌, arith, Bytes, codes, eq_list, all_zero,
  zeros, utf16_len, Error, ok, err,
}
use lethean.Padding.{padded_metadata_size}
use lethean.Padding.Metadata.{
  pad_metadata_bytes, unpad_metadata_bytes, unpad_metadata_strict, unpad-pad_metadata,
  unpad_metadata_strict-canonical,
}
use lethean.Meta.{
  FileMeta, new_folder, validate_v2_meta, safe_name, check_parent, check_from, check_folder,
}
use lethean.Meta.Valid.{IsWellFormed, validate_iff}
use lethean.Meta.Names.{IsPrefixOf, safe_name_lem}
use lethean.Content.{finish_v2, finish_unpadded}
use lethean.Content.Unpad.{finish_v2_strict}
use lethean.Padding.{padded_size, pad_to_bucket}
use lethean.Tests.Toy.{toy_gzip}

unpad-pad_metadata_example :
    (unpad_metadata_strict (pad_metadata_bytes (codes "{}")) ≡ ok (codes "{}"))
    × (unpad_metadata_bytes (pad_metadata_bytes (codes "{}")) ≡ codes "{}")
unpad-pad_metadata_example = unpad-pad_metadata (codes "{}") (omega arith)

unpad_metadata_strict-canonical_example : pad_metadata_bytes (7 ∷ []) ≡ 0 ∷ 0 ∷ 0 ∷ 1 ∷ 7 ∷ zeros 59
unfolding unpad_metadata_strict padded_metadata_size all_zero
unpad_metadata_strict-canonical_example =
    unpad_metadata_strict-canonical 0 0 0 1 (7 ∷ zeros 59) (omega arith) (omega arith) (omega arith)
      (omega arith) refl

-- A nonzero byte in the filler, or a shorter bucket, is refused.
stray_byte_refused :
    (unpad_metadata_strict (0 ∷ 0 ∷ 0 ∷ 1 ∷ 7 ∷ 9 ∷ zeros 58) ≡ err Error.corrupt_padding)
    × (unpad_metadata_strict (0 ∷ 0 ∷ 0 ∷ 1 ∷ 7 ∷ zeros 58) ≡ err Error.corrupt_padding)
unfolding unpad_metadata_strict padded_metadata_size all_zero
stray_byte_refused = (refl, refl)

abbrev docs : FileMeta
docs = new_folder (codes "docs") none

validate_iff_example : (validate_v2_meta docs ≡ ok tt) ↔ IsWellFormed docs
validate_iff_example = validate_iff docs

docs_valid : validate_v2_meta docs ≡ ok tt
unfolding validate_v2_meta new_folder check_parent check_from check_folder eq_list utf16_len
docs_valid = refl

safe_name_lem_example :
    (safe_name (codes "x") ≢ [])
    × (utf16_len (safe_name (codes "x")) ≤ 4096)
    × (codes "x" ≢ [] → IsPrefixOf (safe_name (codes "x")) (codes "x"))
    × (codes "x" ≢ [] → utf16_len (codes "x") ≤ 4096 → safe_name (codes "x") ≡ codes "x")
safe_name_lem_example = safe_name_lem (codes "x")

abbrev padded_sample : Bytes
padded_sample = 5 ∷ 6 ∷ zeros 16382

finish_v2_strict_example :
    (padded_sample ≡ pad_to_bucket (5 ∷ 6 ∷ []))
    × (finish_unpadded toy_gzip false (some 2) (5 ∷ 6 ∷ []) ≡ ok (5 ∷ 6 ∷ []))
unfolding finish_v2 finish_unpadded padded_size all_zero
finish_v2_strict_example =
    finish_v2_strict toy_gzip 2 false (some 2) padded_sample (omega arith) refl
