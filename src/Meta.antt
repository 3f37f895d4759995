-- ===== src/Meta.antt =====
-- The metadata of a file or folder: the records of `lethean_fuse/src/types.rs`, the identifiers of
-- `lethean_fuse/src/crypto/format.rs`, and the name and type clean-up and the validation of
-- `lethean_fuse/src/crypto/aead.rs`. A text is its list of code points.
pub mod Valid
pub mod Names
use lethean.Prelude.{
  ℕ, zero, suc, ◌+◌, ◌-◌, ◌*◌, ◌/◌, ◌%◌, ◌^◌, ◌≤◌, ◌<◌, min, max, ◌≡◌, refl, sym, ap, ◌∙◌, ◌≢◌, ◌↔◌,
  ◌⊎◌, inl, inr, Bool, true, false, ◌&&◌, ◌||◌, not, Option, none, some, List, [], ◌∷◌, ◌++◌, map,
  append_assoc, append-nil, arith, ltb, leb, ◌==◌, if◌then◌else◌, ltb→lt, lt→ltb, leb→le, ==_iff,
  Bool-cases, Option-cases, length, get_elem?, get_or, set, take, drop, replicate, length-append,
  length-set, get_elem?-set_self, get_elem?-set_ne, take-append-drop, length-take, length-drop,
  length-replicate, take_of_le, take-append, drop-append, drop-drop, drop-nil, Bytes, Text, codes,
  eq_list, eq_list_iff, eq_list_refl, all_zero, zeros, length-zeros, all_zero-zeros, all_zero_eq,
  all_zero-append, utf8_len, utf16_width, utf16_len, is_empty, Error, Result, ok, err, ◌>>=◌, ◌>>◌,
  guard, ok_or, >>=-eq-ok,
}
use lethean.Padding.{div_ceil}
use lethean.Word.{u32_max}

-- `FOLDER_MIME`
abbrev pub folder_mime : Text
folder_mime = codes "application/x-lethean-folder"

-- `chunked::CHUNK_SIZE`
abbrev pub chunk_size_v2 : ℕ
chunk_size_v2 = 32 * 1024 * 1024

-- `ParentRef`
pub record ParentRef : Type 0 where
  pub id : Text
  pub node_ref : Text

pub record FileMeta : Type 0 where
  pub name : Text
  pub mime : Text
  pub compressed : Bool
  pub unpadded_size : Option ℕ
  pub is_folder : Bool
  pub parent_id : Option Text
  pub chunk_size : Option ℕ
  pub size : Option ℕ
  pub pref : Option Text
  pub from : Option Text
  pub rev : Option ℕ

abbrev pub id_of : Option ParentRef → Option Text
id_of none = none
id_of (some p) = some p.id

abbrev pub ref_of : Option ParentRef → Option Text
ref_of none = none
ref_of (some p) = some p.node_ref

-- `FileMeta::set_parent`
abbrev pub set_parent : FileMeta → Option ParentRef → FileMeta
set_parent m parent = record m { parent_id = id_of parent; pref = ref_of parent }

-- `FileMeta::new_file`
unfoldable pub new_file : Text → Text → Bool → ℕ → Option ParentRef → FileMeta
new_file name mime compressed unpadded_size parent =
    set_parent
      (record {
        name = name;
        mime = mime;
        compressed = compressed;
        unpadded_size = some unpadded_size;
        is_folder = false;
        parent_id = none;
        chunk_size = none;
        size = none;
        pref = none;
        from = none;
        rev = none;
      })
      parent

-- `FileMeta::new_folder`
unfoldable pub new_folder : Text → Option ParentRef → FileMeta
new_folder name parent =
    set_parent
      (record {
        name = name;
        mime = folder_mime;
        compressed = false;
        unpadded_size = none;
        is_folder = true;
        parent_id = none;
        chunk_size = none;
        size = none;
        pref = none;
        from = none;
        rev = none;
      })
      parent

-- `FileMeta::unreadable`
abbrev pub unreadable : FileMeta
unreadable = record {
  name = codes "Unreadable item";
  mime = codes "application/octet-stream";
  compressed = false;
  unpadded_size = none;
  is_folder = false;
  parent_id = none;
  chunk_size = none;
  size = none;
  pref = none;
  from = none;
  rev = none;
}

-- `b.is_ascii_alphanumeric() || b == b'-' || b == b'_'`
unfoldable pub is_id_char : ℕ → Bool
is_id_char c =
    (leb b'0' c && leb c b'9')
    || (leb b'A' c && leb c b'Z')
    || (leb b'a' c && leb c b'z')
    || c == b'-'
    || c == b'_'

unfoldable pub all_id_chars : Text → Bool
unfolding is_id_char
all_id_chars [] = true
all_id_chars (c ∷ cs) = is_id_char c && all_id_chars cs

unfoldable pub is_node_ref : Text → Bool
unfolding all_id_chars utf8_len
is_node_ref s = utf8_len s == 22 && all_id_chars s

unfoldable pub is_record_id : Text → Bool
unfolding all_id_chars utf8_len
is_record_id s = leb 1 (utf8_len s) && leb (utf8_len s) 128 && all_id_chars s

-- The check of `parent_id` against `pref`.
unfoldable pub check_parent : Option Text → Option Text → Result (Unit {0})
check_parent none none = ok tt
check_parent none (some pref) = err Error.pref_without_parent
check_parent (some id) none =
    if is_record_id id then err Error.corrupt_pref else err Error.corrupt_parent
check_parent (some id) (some pref) = do
  guard (is_record_id id) Error.corrupt_parent
  guard (is_node_ref pref) Error.corrupt_pref

unfoldable pub check_from : Option Text → Result (Unit {0})
check_from none = ok tt
check_from (some from) = guard (is_node_ref from) Error.corrupt_from

abbrev pub is_some {ℓ} : {A : Type ℓ} → Option A → Bool
is_some none = false
is_some (some a) = true

unfoldable pub check_folder : FileMeta → Result (Unit {0})
check_folder m = do
  guard (eq_list m.mime folder_mime) Error.corrupt_folder_mime
  guard (not (m.compressed || is_some m.chunk_size || is_some m.unpadded_size || is_some m.size))
      Error.corrupt_folder

-- `MAX_SAFE`
abbrev pub max_safe : ℕ
max_safe = 2 ^ 53 - 1

-- What the layout of the content asks of the two sizes.
unfoldable pub check_layout : Option ℕ → Bool → ℕ → ℕ → Result (Unit {0})
check_layout (some cs) compressed size unpadded = do
  guard (cs == chunk_size_v2) Error.corrupt_chunk_size
  guard (not compressed) Error.compressed_chunks
  guard (unpadded == size) Error.corrupt_chunked_size
  guard (leb (div_ceil size cs) u32_max) Error.corrupt_chunk_count
check_layout none compressed size unpadded =
    guard (compressed || unpadded == size) Error.corrupt_uncompressed_size

unfoldable pub check_sizes : FileMeta → Option ℕ → Option ℕ → Result (Unit {0})
check_sizes m none unpadded = err Error.corrupt_size
check_sizes m (some size) none = err Error.corrupt_unpadded_size
check_sizes m (some size) (some unpadded) = do
  guard (leb size max_safe && leb unpadded max_safe) Error.corrupt_size
  check_layout m.chunk_size m.compressed size unpadded

unfoldable pub validate_v2_meta : FileMeta → Result (Unit {0})
validate_v2_meta m = do
  guard (not (is_empty m.name || ltb 4096 (utf16_len m.name))) Error.corrupt_name
  guard (leb (utf16_len m.mime) 255) Error.corrupt_mime
  check_parent m.parent_id m.pref
  check_from m.from
  if m.is_folder then check_folder m else check_sizes m m.size m.unpadded_size

unfoldable pub safe_mime : Text → Text
safe_mime mime =
    if is_empty mime || ltb 255 (utf16_len mime) then codes "application/octet-stream" else mime

-- The loop of `safe_name`: characters while the count of units stays within 4096.
unfoldable pub cut_units : ℕ → Text → Text
cut_units units [] = []
cut_units units (c ∷ cs) =
    let rest = c ∷ cut_units (units + utf16_width c) cs in
    if ltb 4096 (units + utf16_width c) then [] else rest

unfoldable pub safe_name : Text → Text
safe_name name =
    if is_empty name
    then codes "Untitled"
    else if leb (utf16_len name) 4096
    then name
    else cut_units 0 name
