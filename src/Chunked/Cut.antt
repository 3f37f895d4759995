-- ===== src/Chunked/Cut.antt =====
-- What a text says of its parts, for the downloads of `lethean_fuse/src/crypto/chunked.rs`.
use lethean.Prelude.{
  ℕ, ◌-◌, ◌≤◌, ◌<◌, ◌≡◌, sym, ap, ◌∙◌, inl, inr, List, [], ◌++◌, append_assoc, append-nil, arith,
  ltb, leb, if◌then◌else◌, ltb→lt, Bool-cases, length, take, drop, length-append, take-append-drop,
  take_of_le, take-append, drop-append, Bytes, zeros, Error, ok, err,
}
use lethean.Source.{Event, Ending, yields, IsClean, fill_lem, ending_at}
use lethean.Gcm.Reads.{nil_of_length}
use lethean.Chunked.Stream.{drop_of_le}
use lethean.Chunked.Fetch.{after_probe, probe_end}

pub ok_eq : {A : Type 0} {a b : A} → ok a ≡ ok b → a ≡ b
ok_eq e = cc

pub probe_sound : (src : List Event) → IsClean src → probe_end src ≡ ok tt → yields src ≡ []
unfolding probe_end after_probe
probe_sound src clean h =
    let (_, _, ends, _) = fill_lem src 1 clean in
    let said : after_probe (ending_at 1 (length (yields src))) ≡ ok tt =
      ap after_probe (sym ends) ∙ h in
    elim (Bool-cases (leb 1 (length (yields src)))) [
      | inl more ↦
          let refused : after_probe (ending_at 1 (length (yields src))) ≡ err Error.auth_failed =
            ap (λ b. after_probe (if b then Ending.full else Ending.ended)) more in
          cc
      | inr none_left ↦ nil_of_length (yields src) (ground arith)
    ]

-- The bytes of one chunk, cut off from the bytes after it.
module _ (chunk : ℕ) where
  pub cut :
      (t bytes : Bytes) (want : ℕ)
      → length t ≡ want
      → want ≤ chunk
      → (want < chunk → length bytes ≡ 0)
      → (take chunk (t ++ bytes) ++ zeros (chunk - length (t ++ bytes)) ≡ t ++ zeros (chunk - want))
        × (drop chunk (t ++ bytes) ≡ bytes)
  cut t bytes want tl fits none_after = elim (Bool-cases (ltb want chunk)) [
    | inl less ↦
        let none_left : bytes ≡ [] = nil_of_length bytes (none_after (ltb→lt want chunk less)) in
        (
          ap (λ b. take chunk (t ++ b) ++ zeros (chunk - length (t ++ b))) none_left
              ∙ ap (λ x. take chunk x ++ zeros (chunk - length x)) (append-nil t)
              ∙ ap (λ y. y ++ zeros (chunk - length t)) (take_of_le chunk t (omega (arith, tl)))
              ∙ ap (λ k. t ++ zeros (chunk - k)) tl,
          ap (λ b. drop chunk (t ++ b)) none_left
              ∙ ap (drop chunk) (append-nil t)
              ∙ drop_of_le chunk t (omega (arith, tl))
              ∙ sym none_left,
        )
    | inr over ↦
        let size : length t ≡ chunk = ground (arith, tl) in
        (
          ap (λ y. y ++ zeros (chunk - length (t ++ bytes))) (take-append chunk t bytes size)
              ∙ ap (λ k. t ++ zeros k) (omega (arith, size, tl, length-append {0} t bytes)),
          drop-append chunk t bytes size,
        )
  ]

-- A text, from what it begins with and what is left of it.
pub join :
    (n : ℕ) (all first first' more more' rest : Bytes)
    → take n all ≡ first
    → drop n all ≡ more ++ rest
    → first ≡ first'
    → more ≡ more'
    → all ≡ (first' ++ more') ++ rest
join n all first first' more more' rest e f g h =
    sym (take-append-drop n all)
    ∙ ap (λ a. a ++ drop n all) (e ∙ g)
    ∙ ap (λ b. first' ++ b) f
    ∙ sym (append_assoc first' more rest)
    ∙ ap (λ m. (first' ++ m) ++ rest) h
