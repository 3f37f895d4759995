-- ===== src/Kdf/Runs.antt =====
-- The runs of a sequence that `has_sequential_run` of `lethean_fuse/src/crypto/kdf.rs` finds.
use mathlib.Core.Path.{subst}
use mathlib.Core.List.{reverse, reverse-append}
use lethean.Prelude.{
  ℕ, zero, suc, ◌+◌, ◌-◌, ◌≤◌, ◌<◌, ◌≡◌, refl, sym, ap, ◌∙◌, ◌⊎◌, inl, inr, true, false, ◌&&◌, ◌||◌,
  not, ◌↔◌, List, [], ◌∷◌, ◌++◌, arith, ltb, ◌==◌, ==_iff, Bool-cases, length, take, drop, Text,
}
use lethean.Prelude.{In}
use lethean.Kdf.{starts_with, contains_text, reversed, has_window, has_run}

-- A text holds a part, with something before and something behind it.
abbrev pub Contains : Text → Text → Type 0
Contains t part = (before : Text) × (behind : Text) × (t ≡ before ++ (part ++ behind))

starts_with_sound :
    (t part : Text) → starts_with t part ≡ true → (behind : Text) × (t ≡ part ++ behind)
unfolding starts_with
starts_with_sound t [] h = (t, refl)
starts_with_sound [] (y ∷ ys) h = cc
starts_with_sound (x ∷ xs) (y ∷ ys) h =
    let (behind, e) = starts_with_sound xs ys (ground arith) in
    let same : x ≡ y = ground arith in (behind, λ i. same i ∷ e i)

starts_with-append : (part behind : Text) → starts_with (part ++ behind) part ≡ true
unfolding starts_with
starts_with-append [] behind = refl
starts_with-append (y ∷ ys) behind = ground (arith, starts_with-append ys behind)

contains_text-starts : (t part : Text) → starts_with t part ≡ true → contains_text t part ≡ true
unfolding starts_with contains_text
contains_text-starts [] [] h = refl
contains_text-starts [] (y ∷ ys) h = cc
contains_text-starts (x ∷ xs) part h = rw h refl

contains_text_sound : (t part : Text) → contains_text t part ≡ true → Contains t part
unfolding contains_text
contains_text_sound [] [] h = ([], [], refl)
contains_text_sound [] (y ∷ ys) h = cc
contains_text_sound (x ∷ xs) part h = elim (Bool-cases (starts_with (x ∷ xs) part)) [
  | inl here ↦ let (behind, e) = starts_with_sound (x ∷ xs) part here in ([], behind, e)
  | inr later ↦
      let (before, behind, e) = contains_text_sound xs part (ground (arith, h, later)) in
      (x ∷ before, behind, ap (λ (t : Text). x ∷ t) e)
]

contains_text-append :
    (before part behind : Text) → contains_text (before ++ (part ++ behind)) part ≡ true
unfolding contains_text
contains_text-append [] part behind =
    contains_text-starts (part ++ behind) part (starts_with-append part behind)
contains_text-append (x ∷ before) part behind =
    ground (arith, contains_text-append before part behind)

contains_text_complete : (t part : Text) → Contains t part → contains_text t part ≡ true
contains_text_complete t part (before, behind, e) = rw e (contains_text-append before part behind)

reversed-reverse : (t : Text) → reversed t ≡ reverse t
unfolding reversed
reversed-reverse [] = refl
reversed-reverse (x ∷ xs) =
    ap (λ (t : Text). t ++ (x ∷ [])) (reversed-reverse xs) ∙ sym (reverse-append (x ∷ []) xs)

-- A text holds the part of a sequence from an index on, forwards or backwards.
abbrev pub HoldsRun : Text → Text → ℕ → ℕ → Type 0
HoldsRun t seq run i =
    Contains t (take run (drop i seq)) ⊎ Contains t (reverse (take run (drop i seq)))

here_sound :
    (t seq : Text) (run i : ℕ)
    → (contains_text t (take run (drop i seq))
        || contains_text t (reversed (take run (drop i seq))))
      ≡ true
    → HoldsRun t seq run i
here_sound t seq run i h =
    let part = take run (drop i seq) in
    elim (Bool-cases (contains_text t part)) [
      | inl fwd ↦ inl (contains_text_sound t part fwd)
      | inr other ↦ inr (
          contains_text_sound t (reverse part)
            (ap (contains_text t) (sym (reversed-reverse part)) ∙ ground (arith, h, other)))
    ]

here_complete :
    (t seq : Text) (run i : ℕ)
    → HoldsRun t seq run i
    → (contains_text t (take run (drop i seq))
        || contains_text t (reversed (take run (drop i seq))))
      ≡ true
here_complete t seq run i (inl fwd) = rw (contains_text_complete t (take run (drop i seq)) fwd) refl
here_complete t seq run i (inr rev) =
    let part = take run (drop i seq) in
    let found =
      ap (contains_text t) (reversed-reverse part) ∙ contains_text_complete t (reverse part) rev in
    ground (arith, found)

has_window_sound :
    (t seq : Text) (run i left : ℕ)
    → has_window t seq run i left ≡ true
    → (j : ℕ) × (j < i + left) × HoldsRun t seq run j
unfolding has_window
has_window_sound t seq run i zero h = cc
has_window_sound t seq run i (suc left) h =
    elim (Bool-cases (
      contains_text t (take run (drop i seq))
      || contains_text t (reversed (take run (drop i seq))))) [
        | inl here ↦ (i, omega arith, here_sound t seq run i here)
        | inr other ↦
            let (j, below, held) =
              has_window_sound t seq run (i + 1) left (ground (arith, h, other)) in
            (j, omega arith, held)
      ]

has_window_complete :
    (t seq : Text) (run i left j : ℕ)
    → i ≤ j
    → j < i + left
    → HoldsRun t seq run j
    → has_window t seq run i left ≡ true
unfolding has_window
has_window_complete t seq run i zero j from below held = absurd (omega arith)
has_window_complete t seq run i (suc left) j from below held = elim (Bool-cases (i == j)) [
  | inl same ↦
      let at : j ≡ i = sym ((==_iff i j).0 same) in
      let here = here_complete t seq run i (subst (λ k. HoldsRun t seq run k) at held) in
      ground (arith, here)
  | inr apart ↦
      let rest = has_window_complete t seq run (i + 1) left j (ground arith) (omega arith) held in
      ground (arith, rest)
]

has_run_sound :
    (t : Text) (run : ℕ) (seqs : List Text)
    → has_run t run seqs ≡ true
    → (seq : Text) × In seq seqs × (i : ℕ) × (i + run ≤ length seq) × HoldsRun t seq run i
unfolding has_run
has_run_sound t run [] h = cc
has_run_sound t run (seq ∷ seqs) h =
    elim (Bool-cases
      (not (ltb (length seq) run) && has_window t seq run 0 (length seq - run + 1))) [
        | inl here ↦
            let (i, below, held) =
              has_window_sound t seq run 0 (length seq - run + 1) (ground (arith, here)) in
            (seq, inl refl, i, ground (arith, here, below), held)
        | inr other ↦
            let (later, there, i, fits, held) =
              has_run_sound t run seqs (ground (arith, h, other)) in
            (later, inr there, i, fits, held)
      ]

has_run_complete :
    (t : Text) (run : ℕ) (seqs : List Text) (seq : Text) (i : ℕ)
    → In seq seqs
    → i + run ≤ length seq
    → HoldsRun t seq run i
    → has_run t run seqs ≡ true
unfolding has_run
has_run_complete t run [] seq i there fits held = absurd there
has_run_complete t run (s ∷ seqs) seq i (inl here) fits held =
    let room : i + run ≤ length s = subst (λ (q : Text). i + run ≤ length q) here fits in
    let found =
      has_window_complete t s run 0 (length s - run + 1) i (omega arith) (omega arith)
        (subst (λ (q : Text). HoldsRun t q run i) here held) in
    ground (arith, found, room)
has_run_complete t run (s ∷ seqs) seq i (inr there) fits held =
    let rest = has_run_complete t run seqs seq i there fits held in ground (arith, rest)

-- No sequence has a part of this length that the text holds, forwards or backwards.
abbrev pub HoldsNoRun : Text → ℕ → List Text → Type 0
HoldsNoRun t run seqs =
    (seq : Text) (i : ℕ)
    → In seq seqs
    → i + run ≤ length seq
    → (¬ Contains t (take run (drop i seq))) × (¬ Contains t (reverse (take run (drop i seq))))

pub has_run_iff :
    (t : Text) (run : ℕ) (seqs : List Text) → (has_run t run seqs ≡ false) ↔ HoldsNoRun t run seqs
has_run_iff t run seqs = (
  λ e seq i there fits. (
    λ fwd. let found = has_run_complete t run seqs seq i there fits (inl fwd) in cc,
    λ rev. let found = has_run_complete t run seqs seq i there fits (inr rev) in cc,
  ),
  λ h. elim (Bool-cases (has_run t run seqs)) [
    | inr clear ↦ clear
    | inl found ↦
        let (seq, there, i, fits, held) = has_run_sound t run seqs found in
        absurd (refuted (h seq i there fits) held)
  ],
)
  where
    refuted : {P Q : Type 0} → (¬ P) × (¬ Q) → P ⊎ Q → ⊥
    refuted (np, nq) (inl p) = np p
    refuted (np, nq) (inr q) = nq q
