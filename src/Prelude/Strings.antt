-- ===== src/Prelude/Strings.antt =====
-- Byte strings and texts as lists of numbers: a byte string holds its bytes, a text (a Rust `str`)
-- its code points. Comparison, all-zero tests, and the widths of a text's encodings.
use Prim.Native.Nat.{ℕ, zero, suc, ◌+◌}
use Prim.Native.Char.{code}
use Prim.Native.String.{String}
use mathlib.Core.Path.{◌≡◌, refl, ap}
use mathlib.Core.Logic.{◌↔◌}
use mathlib.Core.Bool.{Bool, true, false, ◌&&◌}
use mathlib.Core.List.{List, [], ◌∷◌, ◌++◌}
use native.Mathlib.Omega.{arith}
use lethean.Prelude.Tests.{ltb, ◌==◌, if◌then◌else◌}
use lethean.Prelude.Lists.{length, replicate}

abbrev pub Bytes : Type 0
Bytes = List ℕ

abbrev pub Text : Type 0
Text = List ℕ

-- The code points of a literal.
abbrev pub codes : String → Text
codes String.[] = []
codes (String.◌∷◌ c s) = code c ∷ codes s

unfoldable pub eq_list : List ℕ → List ℕ → Bool
eq_list [] [] = true
eq_list [] (y ∷ ys) = false
eq_list (x ∷ xs) [] = false
eq_list (x ∷ xs) (y ∷ ys) = x == y && eq_list xs ys

pub eq_list_sound : (xs ys : List ℕ) → eq_list xs ys ≡ true → xs ≡ ys
unfolding eq_list
eq_list_sound [] [] h = refl
eq_list_sound [] (y ∷ ys) h = ground arith
eq_list_sound (x ∷ xs) [] h = ground arith
eq_list_sound (x ∷ xs) (y ∷ ys) h = ground (arith, eq_list_sound xs ys)

pub eq_list_refl : (xs : List ℕ) → eq_list xs xs ≡ true
unfolding eq_list
eq_list_refl [] = refl
eq_list_refl (x ∷ xs) = ground (arith, eq_list_refl xs)

pub eq_list_iff : (xs ys : List ℕ) → (eq_list xs ys ≡ true) ↔ (xs ≡ ys)
eq_list_iff xs ys = (eq_list_sound xs ys, λ e. rw e (eq_list_refl ys))

-- `!bytes.iter().any(|&b| b != 0)`
unfoldable pub all_zero : Bytes → Bool
all_zero [] = true
all_zero (b ∷ bs) = b == 0 && all_zero bs

-- `vec![0u8; n]`
abbrev pub zeros : ℕ → Bytes
zeros n = replicate n 0

pub length-zeros : (n : ℕ) → length (zeros n) ≡ n
length-zeros zero = refl
length-zeros (suc n) = ap suc (length-zeros n)

pub all_zero-zeros : (n : ℕ) → all_zero (zeros n) ≡ true
unfolding all_zero
all_zero-zeros zero = refl
all_zero-zeros (suc n) = all_zero-zeros n

pub all_zero_eq : (bs : Bytes) → all_zero bs ≡ true → bs ≡ zeros (length bs)
unfolding all_zero
all_zero_eq [] h = refl
all_zero_eq (b ∷ bs) h = ground (arith, all_zero_eq bs)

pub all_zero-append : (xs ys : Bytes) → all_zero (xs ++ ys) ≡ (all_zero xs && all_zero ys)
unfolding all_zero
all_zero-append [] ys = refl
all_zero-append (x ∷ xs) ys = ground (arith, all_zero-append xs ys)

-- `str::len`: the bytes of the UTF-8 encoding.
unfoldable pub utf8_width : ℕ → ℕ
utf8_width c = if ltb c 0x80 then 1 else if ltb c 0x800 then 2 else if ltb c 0x10000 then 3 else 4

unfoldable pub utf8_len : Text → ℕ
unfolding utf8_width
utf8_len [] = 0
utf8_len (c ∷ cs) = utf8_width c + utf8_len cs

-- `char::len_utf16`: 16-bit units, two above the basic plane.
unfoldable pub utf16_width : ℕ → ℕ
utf16_width c = if ltb c 0x10000 then 1 else 2

-- `encode_utf16().count()`
unfoldable pub utf16_len : Text → ℕ
unfolding utf16_width
utf16_len [] = 0
utf16_len (c ∷ cs) = utf16_width c + utf16_len cs

-- `is_empty` of a text or a vector.
abbrev pub is_empty {ℓ} : {A : Type ℓ} → List A → Bool
is_empty [] = true
is_empty (x ∷ xs) = false
