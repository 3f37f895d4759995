-- ===== src/Source.antt =====
-- A reader (`std::io::Read`) as the events that its calls return, and the read loops of
-- `lethean_fuse/src/crypto` over it: `read_full` of `chunked.rs`, which is also the loop inside
-- `next_chunk` there and inside `refill` and `fill` of `gcm_stream.rs`.
use lethean.Prelude.{
  ℕ, zero, suc, ◌-◌, ◌<◌, ◌≡◌, refl, sym, ap, ◌∙◌, inl, inr, List, [], ◌∷◌, ◌++◌, arith, ltb, leb,
  if◌then◌else◌, ltb→lt, Bool-cases, length, take, drop, length-append, length-drop, take-append_le,
  drop-append_le, take-append_ge, drop-append_ge, Bytes, is_empty, Error,
}

-- One answer of the underlying reader: bytes that are ready (a call takes at most what its buffer
-- holds, the rest stays), `ErrorKind::Interrupted`, or another error. An empty answer is `Ok(0)`, and
-- so is every call once the events are over.
pub data Event : Type 0 where
  ready : Bytes → Event
  interrupted : Event
  failing : Error → Event

-- How a read loop ends: the buffer is full, the source said `Ok(0)`, or it failed.
pub data Ending : Type 0 where
  full ended : Ending
  failed : Error → Ending

pub record Filled : Type 0 where
  pub got : Bytes
  pub rest : List Event
  pub ending : Ending

-- `while filled < buf.len() { match r.read(&mut buf[filled..]) { .. } }`
unfoldable pub fill : List Event → ℕ → Filled
fill src zero = record { got = []; rest = src; ending = Ending.full }
fill [] (suc n) = record { got = []; rest = []; ending = Ending.ended }
fill (interrupted ∷ src) (suc n) = fill src (suc n)
fill (failing e ∷ src) (suc n) = record { got = []; rest = src; ending = Ending.failed e }
fill (ready b ∷ src) (suc n) =
    let more = fill src (suc n - length b) in
    if is_empty b
    then record { got = []; rest = src; ending = Ending.ended }
    else if ltb (suc n) (length b)
    then record { got = take (suc n) b; rest = ready (drop (suc n) b) ∷ src; ending = Ending.full }
    else record { got = b ++ more.got; rest = more.rest; ending = more.ending }

-- What a source yields in all, and the sources that never fail and never answer `Ok(0)` early.
unfoldable pub yields : List Event → Bytes
yields [] = []
yields (ready b ∷ src) = b ++ yields src
yields (interrupted ∷ src) = yields src
yields (failing e ∷ src) = []

abbrev pub IsClean : List Event → Type 0
IsClean [] = Unit
IsClean (ready b ∷ src) = (0 < length b) × IsClean src
IsClean (interrupted ∷ src) = IsClean src
IsClean (failing e ∷ src) = ⊥

abbrev pub ending_at : ℕ → ℕ → Ending
ending_at n available = if leb n available then Ending.full else Ending.ended

-- The loop is blind to how the source cuts its bytes: it takes the first `n` of what is left, leaves
-- the others, and fills the buffer exactly if there are enough.
pub fill_lem :
    (src : List Event) (n : ℕ)
    → IsClean src
    → ((fill src n).got ≡ take n (yields src))
      × (yields (fill src n).rest ≡ drop n (yields src))
      × ((fill src n).ending ≡ ending_at n (length (yields src)))
      × IsClean (fill src n).rest
unfolding fill yields
fill_lem src zero h = (refl, refl, ground arith, h)
fill_lem [] (suc n) h = (refl, refl, ground arith, h)
fill_lem (interrupted ∷ src) (suc n) h = fill_lem src (suc n) h
fill_lem (failing e ∷ src) (suc n) h = absurd h
fill_lem (ready [] ∷ src) (suc n) h = absurd (omega arith)
fill_lem (ready (x ∷ xs) ∷ src) (suc n) h =
    let b = x ∷ xs in
    let more = fill_lem src (suc n - length b) h.1 in
    elim (Bool-cases (ltb (suc n) (length b))) [
      | inl over ↦ rw over (
        sym (take-append_le (suc n) b (yields src) (omega (arith, ltb→lt (suc n) (length b) over))),
        sym (drop-append_le (suc n) b (yields src) (omega (arith, ltb→lt (suc n) (length b) over))),
        ground (arith, length-append b (yields src)),
        (omega (arith, ltb→lt (suc n) (length b) over, length-drop (suc n) b), h.1),
      )
      | inr within ↦ rw within (
        ap (λ t. b ++ t) more.0 ∙ sym (take-append_ge (suc n) b (yields src) (ground arith)),
        more.1 ∙ sym (drop-append_ge (suc n) b (yields src) (ground arith)),
        more.2 ∙ ground (arith, length-append b (yields src)),
        more.3,
      )
    ]
