-- ===== src/Meta/Valid.antt =====
-- What `validate_v2_meta` accepts, and that the constructors of metadata pass it.
use lethean.Prelude.{
  ℕ, ◌≤◌, ◌≡◌, refl, ◌≢◌, ◌↔◌, ◌⊎◌, inl, inr, Bool, true, false, Option, none, some, [], ◌∷◌, arith,
  if◌then◌else◌, Option-cases, Text, eq_list_iff, utf16_len, is_empty, Result, ok,
}
use lethean.Padding.{div_ceil}
use lethean.Word.{u32_max}
use lethean.Meta.{
  FileMeta, folder_mime, chunk_size_v2, is_node_ref, is_record_id, check_parent, check_from,
  check_folder, check_layout, check_sizes, max_safe, validate_v2_meta,
}

-- A single-part or a chunked content: what the rest of the code relies on.
pub record FileShape (m : FileMeta) (size unpadded : ℕ) : Type 0 where
  pub sized : m.size ≡ some size
  pub measured : m.unpadded_size ≡ some unpadded
  pub safe : size ≤ max_safe
  pub safe_unpadded : unpadded ≤ max_safe
  pub plain_sizes : m.compressed ≡ false → unpadded ≡ size
  pub chunked :
      (m.chunk_size ≡ none)
      ⊎ ((m.chunk_size ≡ some chunk_size_v2)
          × (m.compressed ≡ false)
          × (div_ceil size chunk_size_v2 ≤ u32_max))

pub record FolderShape (m : FileMeta) : Type 0 where
  pub typed : m.mime ≡ folder_mime
  pub plain : m.compressed ≡ false
  pub unchunked : m.chunk_size ≡ none
  pub unmeasured : m.unpadded_size ≡ none
  pub unsized : m.size ≡ none

abbrev pub ParentShape : Option Text → Option Text → Type 0
ParentShape none none = Unit
ParentShape none (some r) = ⊥
ParentShape (some id) none = ⊥
ParentShape (some id) (some r) = (is_record_id id ≡ true) × (is_node_ref r ≡ true)

abbrev pub FromShape : Option Text → Type 0
FromShape none = Unit
FromShape (some r) = is_node_ref r ≡ true

abbrev pub Shape : FileMeta → Type 0
Shape m =
    ((m.is_folder ≡ true) × FolderShape m)
    ⊎ ((m.is_folder ≡ false) × ((size : ℕ) × (unpadded : ℕ) × FileShape m size unpadded))

pub record IsWellFormed (m : FileMeta) : Type 0 where
  pub named : (m.name ≢ []) × (utf16_len m.name ≤ 4096)
  pub typed : utf16_len m.mime ≤ 255
  pub placed : ParentShape m.parent_id m.pref
  pub derived : FromShape m.from
  pub shaped : Shape m

check_parent_sound : (id r : Option Text) → check_parent id r ≡ ok tt → ParentShape id r
unfolding check_parent
check_parent_sound none none h = tt
check_parent_sound none (some r) h = cc
check_parent_sound (some id) none h = ground arith
check_parent_sound (some id) (some r) h = ground arith

check_from_sound : (r : Option Text) → check_from r ≡ ok tt → FromShape r
unfolding check_from
check_from_sound none h = tt
check_from_sound (some r) h = ground arith

check_folder_sound : (m : FileMeta) → check_folder m ≡ ok tt → FolderShape m
unfolding check_folder
check_folder_sound m h = ground (arith, eq_list_iff m.mime folder_mime)

check_sizes_sound :
    (m : FileMeta) (s u : ℕ)
    → m.size ≡ some s
    → m.unpadded_size ≡ some u
    → check_sizes m (some s) (some u) ≡ ok tt
    → FileShape m s u
unfolding check_sizes check_layout
check_sizes_sound m s u es eu h = elim (Option-cases m.chunk_size) [
  | inl single ↦ record {
    sized = es;
    measured = eu;
    safe = ground arith;
    safe_unpadded = ground arith;
    plain_sizes = λ p. ground arith;
    chunked = inl single;
  }
  | inr (cs, e) ↦ record {
    sized = es;
    measured = eu;
    safe = ground arith;
    safe_unpadded = ground arith;
    plain_sizes = λ p. ground arith;
    chunked = inr (ground arith, ground arith, ground arith);
  }
]

sizes_sound :
    (m : FileMeta) (size unpadded : Option ℕ)
    → m.size ≡ size
    → m.unpadded_size ≡ unpadded
    → check_sizes m size unpadded ≡ ok tt
    → (s : ℕ) × (u : ℕ) × FileShape m s u
unfolding check_sizes
sizes_sound m none u es eu h = cc
sizes_sound m (some s) none es eu h = cc
sizes_sound m (some s) (some u) es eu h = (s, u, check_sizes_sound m s u es eu h)

Shape-sound :
    (m : FileMeta) (folder : Bool)
    → m.is_folder ≡ folder
    → (if folder then check_folder m else check_sizes m m.size m.unpadded_size) ≡ ok tt
    → Shape m
Shape-sound m true e h = inl (e, check_folder_sound m h)
Shape-sound m false e h = inr (e, sizes_sound m m.size m.unpadded_size refl refl h)

validate_steps :
    (m : FileMeta)
    → validate_v2_meta m ≡ ok tt
    → ((is_empty m.name ≡ false) × (utf16_len m.name ≤ 4096) × (utf16_len m.mime ≤ 255))
      × (check_parent m.parent_id m.pref ≡ ok tt)
      × (check_from m.from ≡ ok tt)
      × ((if m.is_folder then check_folder m else check_sizes m m.size m.unpadded_size) ≡ ok tt)
unfolding validate_v2_meta
validate_steps m h = ground arith

is_empty_ne : (t : Text) → is_empty t ≡ false → t ≢ []
is_empty_ne [] h = cc
is_empty_ne (c ∷ cs) h = λ e. cc

validate_sound : (m : FileMeta) → validate_v2_meta m ≡ ok tt → IsWellFormed m
validate_sound m h =
    let (text, placed, derived, shape) = validate_steps m h in
    record {
      named = (is_empty_ne m.name text.0, text.1);
      typed = text.2;
      placed = check_parent_sound m.parent_id m.pref placed;
      derived = check_from_sound m.from derived;
      shaped = Shape-sound m m.is_folder refl shape;
    }

check_parent_complete : (id r : Option Text) → ParentShape id r → check_parent id r ≡ ok tt
unfolding check_parent
check_parent_complete none none h = refl
check_parent_complete none (some r) h = absurd h
check_parent_complete (some id) none h = absurd h
check_parent_complete (some id) (some r) h = rw (h.0, h.1)

check_from_complete : (r : Option Text) → FromShape r → check_from r ≡ ok tt
unfolding check_from
check_from_complete none h = refl
check_from_complete (some r) h = rw h

check_sizes_complete :
    (m : FileMeta) {s u : ℕ} → FileShape m s u → check_sizes m m.size m.unpadded_size ≡ ok tt
unfolding check_sizes check_layout
check_sizes_complete m f = ground (arith, f.chunked)

check_folder_complete : (m : FileMeta) → FolderShape m → check_folder m ≡ ok tt
unfolding check_folder
check_folder_complete m f = ground (arith, eq_list_iff m.mime folder_mime)

by_kind :
    (folder : Bool) {A B : Result (Unit {0})}
    → (folder ≡ true) × (A ≡ ok tt) ⊎ (folder ≡ false) × (B ≡ ok tt)
    → (if folder then A else B) ≡ ok tt
by_kind folder h = ground arith

Shape-complete :
    (m : FileMeta)
    → Shape m
    → (if m.is_folder then check_folder m else check_sizes m m.size m.unpadded_size) ≡ ok tt
Shape-complete m (inl (e, f)) = by_kind m.is_folder (inl (e, check_folder_complete m f))
Shape-complete m (inr (e, sized)) =
    by_kind m.is_folder (inr (e, check_sizes_complete m {s = sized.0} {u = sized.1} sized.2))

ne_is_empty : (t : Text) → t ≢ [] → is_empty t ≡ false
ne_is_empty [] h = absurd (h refl)
ne_is_empty (c ∷ cs) h = refl

validate_complete : (m : FileMeta) → IsWellFormed m → validate_v2_meta m ≡ ok tt
unfolding validate_v2_meta
validate_complete m w = ground (
  arith,
  ne_is_empty m.name w.named.0,
  check_parent_complete m.parent_id m.pref w.placed,
  check_from_complete m.from w.derived,
  Shape-complete m w.shaped,
)

-- The validation accepts exactly the well-formed metadata: a name that is not empty and has at most
-- 4096 units, a type of at most 255, a parent with its key reference or neither, a well-formed
-- origin, and the fields of a folder or of a file; a chunked file has the one chunk size, is not
-- compressed and has at most 2^32 - 1 chunks.
pub validate_iff : (m : FileMeta) → (validate_v2_meta m ≡ ok tt) ↔ IsWellFormed m
validate_iff m = (validate_sound m, validate_complete m)
