-- ===== src/Kdf/Accepts.antt =====
-- Which passwords `validate_password_strength` of `lethean_fuse/src/crypto/kdf.rs` accepts.
use lethean.Prelude.{
  ℕ, ◌*◌, ◌≤◌, ◌<◌, ◌≡◌, refl, ap, ◌↔◌, ◌⊎◌, inl, inr, Bool, true, false, ◌&&◌, not, [], ◌∷◌, ◌++◌,
  arith, ltb, leb, ◌==◌, ltb→lt, ==_iff, Bool-cases, length, Text, is_empty,
}
use lethean.Kdf.Classes.{HasThree, classes_iff}
use lethean.Kdf.Runs.{HoldsNoRun, has_run_iff}
use lethean.Kdf.{
  sequences, has_run, Hashes, Weakness, count_of, max_count, is_mostly_repeated_chars, classes,
  has_sequential_run, push_if, validate_password_strength,
}

max_count-bound : (whole t : Text) (c : ℕ) → 0 < count_of c t → count_of c whole ≤ max_count whole t
unfolding max_count count_of
max_count-bound whole [] c h = absurd (omega arith)
max_count-bound whole (x ∷ xs) c h = elim (Bool-cases (x == c)) [
  | inl same ↦
      let at : x ≡ c = (==_iff x c).0 same in
      let here : count_of x whole ≡ count_of c whole = ap (λ y. count_of y whole) at in
      omega (arith, here)
  | inr other ↦
      let rest = max_count-bound whole xs c (ground (arith, other, h)) in omega (arith, rest)
]

max_count-reached :
    (whole t : Text) → max_count whole t ≤ 0 ⊎ ((c : ℕ) × (max_count whole t ≡ count_of c whole))
unfolding max_count
max_count-reached whole [] = inl (omega arith)
max_count-reached whole (x ∷ xs) = elim (Bool-cases (leb (max_count whole xs) (count_of x whole))) [
  | inl over ↦ inr (x, ground arith)
  | inr under ↦ elim (max_count-reached whole xs) [
    | inl none_left ↦ absurd (ground arith)
    | inr (c, e) ↦ inr (c, ground arith)
  ]
]

none_of :
    (a b c d e : Bool)
    → is_empty (
        push_if a Weakness.too_short
        ++ push_if b Weakness.too_long
        ++ push_if c Weakness.too_few_classes
        ++ push_if d Weakness.sequential
        ++ push_if e Weakness.repeated)
      ≡ (not a && (not b && (not c && (not d && not e))))
none_of true b c d e = refl
none_of false true c d e = refl
none_of false false true d e = refl
none_of false false false true e = refl
none_of false false false false true = refl
none_of false false false false false = refl

repeated_iff :
    (t : Text)
    → 3 < length t
    → (is_mostly_repeated_chars t ≡ false) ↔ ((c : ℕ) → 2 * count_of c t ≤ length t)
unfolding is_mostly_repeated_chars
repeated_iff t long = (
  λ e c. elim (Bool-cases (ltb 0 (count_of c t))) [
    | inl some_times ↦
        let bound = max_count-bound t t c (ltb→lt 0 (count_of c t) some_times) in
        ground (arith, e, bound)
    | inr never ↦ ground arith
  ],
  λ h. elim (max_count-reached t t) [
    | inl none_there ↦ ground arith
    | inr (c, e) ↦ let most = h c in ground arith
  ],
)

-- A password is accepted exactly if it has 12 to 256 characters; at least 20 of them, or characters of
-- three of the four classes; in lower case no five neighbours of one of the five sequences, forwards or
-- backwards; and no character in over half of its places.
pub validate_password_iff :
    (hashes : Hashes) (password : Text)
    → ((validate_password_strength hashes password).valid ≡ true) ↔ (
        (12 ≤ length password)
        × (length password ≤ 256)
        × ((20 ≤ length password) ⊎ HasThree password)
        × HoldsNoRun (hashes.lowercase password) 5 sequences
        × ((c : ℕ) → 2 * count_of c password ≤ length password))
unfolding validate_password_strength has_sequential_run
validate_password_iff hashes password =
    let n = length password in
    let short = ltb n 12 in
    let long = ltb 256 n in
    let few = ltb n 20 && ltb (classes password) 3 in
    let run = has_run (hashes.lowercase password) 5 sequences in
    let runs = has_run_iff (hashes.lowercase password) 5 sequences in
    let three = classes_iff password in
    let rep = is_mostly_repeated_chars password in
    rw (none_of short long few run rep) (
      λ e.
          let enough : 12 ≤ n = ground (arith, e) in
          (
            enough,
            ground (arith, e),
            elim (Bool-cases (ltb n 20)) [
              | inl under ↦ inr (three.0 (ground (arith, e, under)))
              | inr over ↦ inl (ground (arith, over))
            ],
            runs.0 (ground (arith, e)),
            (repeated_iff password (omega arith)).0 (ground (arith, e)),
          ),
      λ (a, b, c, d, f).
          let fine : rep ≡ false = (repeated_iff password (omega arith)).1 f in
          let clear : run ≡ false = runs.1 d in
          let mixed : few ≡ false = elim c [
            | inl many ↦ ground (arith, many)
            | inr classes_three ↦ ground (arith, three.1 classes_three)
          ] in
          ground (arith, fine, clear, mixed, a, b),
    )
