-- ===== src/Tests/ToyJson.antt =====
-- A concrete reader and writer of metadata that undo each other: each text with its length in front,
-- each option with a flag.
use lethean.Prelude.{
  ℕ, zero, suc, ◌≡◌, refl, Bool, true, false, Option, none, some, [], ◌∷◌, ◌++◌, length, take, drop,
  take-append, drop-append, Bytes, Text,
}
use lethean.Meta.{FileMeta}
use lethean.Crypto.{Json}

infixl 5 ◌>>=◌
abbrev pub ◌>>=◌ : {A B : Type 0} → Option A → (A → Option B) → Option B
some a >>= f = f a
none >>= f = none

unfoldable pub put_text : Text → Bytes → Bytes
put_text t r = length t ∷ (t ++ r)

unfoldable pub get_text : Bytes → Option (Text × Bytes)
get_text [] = none
get_text (n ∷ r) = some (take n r, drop n r)

pub get-put_text : (t : Text) (r : Bytes) → get_text (put_text t r) ≡ some (t, r)
unfolding get_text put_text
get-put_text t r = rw (take-append (length t) t r refl, drop-append (length t) t r refl) refl

unfoldable pub put_number : Option ℕ → Bytes → Bytes
put_number none r = 0 ∷ r
put_number (some n) r = 1 ∷ n ∷ r

unfoldable pub get_number : Bytes → Option (Option ℕ × Bytes)
get_number [] = none
get_number (zero ∷ r) = some (none, r)
get_number (suc k ∷ []) = none
get_number (suc k ∷ n ∷ r) = some (some n, r)

pub get-put_number : (o : Option ℕ) (r : Bytes) → get_number (put_number o r) ≡ some (o, r)
unfolding get_number put_number
get-put_number none r = refl
get-put_number (some n) r = refl

unfoldable pub put_flag : Bool → Bytes → Bytes
put_flag false r = 0 ∷ r
put_flag true r = 1 ∷ r

unfoldable pub get_flag : Bytes → Option (Bool × Bytes)
get_flag [] = none
get_flag (zero ∷ r) = some (false, r)
get_flag (suc k ∷ r) = some (true, r)

pub get-put_flag : (b : Bool) (r : Bytes) → get_flag (put_flag b r) ≡ some (b, r)
unfolding get_flag put_flag
get-put_flag true r = refl
get-put_flag false r = refl

unfoldable pub put_word : Option Text → Bytes → Bytes
put_word none r = 0 ∷ r
put_word (some t) r = 1 ∷ put_text t r

unfoldable pub get_word : Bytes → Option (Option Text × Bytes)
get_word [] = none
get_word (zero ∷ r) = some (none, r)
get_word (suc k ∷ r) = get_text r >>= λ w. some (some w.0, w.1)

pub get-put_word : (o : Option Text) (r : Bytes) → get_word (put_word o r) ≡ some (o, r)
unfolding get_word put_word
get-put_word none r = refl
get-put_word (some t) r = rw (get-put_text t r) refl

unfoldable pub toy_to_vec : FileMeta → Bytes
toy_to_vec m = put_text m.name (
    put_text m.mime (
      put_flag m.compressed (
        put_number m.unpadded_size (
          put_flag m.is_folder (
            put_word m.parent_id (
              put_number m.chunk_size
                (put_number m.size (put_word m.pref (put_word m.from (put_number m.rev []))))))))))

unfoldable pub toy_from_slice : Bytes → Option FileMeta
toy_from_slice b = do
  (name, b1) ← get_text b
  (mime, b2) ← get_text b1
  (compressed, b3) ← get_flag b2
  (unpadded_size, b4) ← get_number b3
  (is_folder, b5) ← get_flag b4
  (parent_id, b6) ← get_word b5
  (chunk_size, b7) ← get_number b6
  (size, b8) ← get_number b7
  (pref, b9) ← get_word b8
  (from, b10) ← get_word b9
  (rev, b11) ← get_number b10
  some (record {
    name = name;
    mime = mime;
    compressed = compressed;
    unpadded_size = unpadded_size;
    is_folder = is_folder;
    parent_id = parent_id;
    chunk_size = chunk_size;
    size = size;
    pref = pref;
    from = from;
    rev = rev;
  })

pub toy_json_law : (m : FileMeta) → toy_from_slice (toy_to_vec m) ≡ some m
unfolding toy_from_slice toy_to_vec
toy_json_law m = simp (get-put_text, get-put_flag, get-put_number, get-put_word)

abbrev pub toy_json : Json
toy_json = record {
  to_vec = toy_to_vec;
  from_slice = toy_from_slice;
  from_slice-to_vec = toy_json_law;
}
