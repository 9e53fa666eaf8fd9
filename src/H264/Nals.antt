-- ===== src/H264/Nals.antt =====
-- `iter_nals` of dvrbridge/h264.py as equations, without fuel, and what it yields.
use dvrbridge.Base.{
  ℕ, zero, suc, ◌+◌, ◌≤◌, ◌<◌, none, some, List, [], ◌∷◌, ◌++◌, ◌≡◌, ◌≢◌, refl, sym, ◌∙◌, ap, Bytes,
  length, take, drop, find, find-room, find-append, take-append-drop, length-drop, length-take,
  arith, All, Option-cases, inl, inr, get_or-append,
}
use mathlib.Core.Option.{some-injective}
use dvrbridge.H264.{start3, trim_end, yield_nal, nals_after, iter_nals}

abbrev pub nals_from : Bytes → List Bytes
nals_from buf = nals_after (suc (length buf)) buf

-- Enough fuel is one more than the bytes left.
nals_after_fuel :
    (f g : ℕ) (buf : Bytes) → length buf < f → length buf < g → nals_after f buf ≡ nals_after g buf
unfolding nals_after
nals_after_fuel zero g buf h k = absurd (omega arith)
nals_after_fuel (suc f) zero buf h k = absurd (omega arith)
nals_after_fuel (suc f) (suc g) buf h k = elim (Option-cases (find start3 buf)) [
  | inl e ↦ rw (e, nals_after)
  | inr (j, e) ↦
      rw (e, nals_after)
        (ap (yield_nal (take (trim_end buf j) buf)) (
          nals_after_fuel f g (drop (j + 3) buf)
            (omega (arith, length-drop (j + 3) buf, find-room start3 buf j e))
            (omega (arith, length-drop (j + 3) buf, find-room start3 buf j e))))
]

pub iter_nals-none : (buf : Bytes) → find start3 buf ≡ none → iter_nals buf ≡ []
unfolding iter_nals
iter_nals-none buf e = rw (e, iter_nals)

pub iter_nals-some :
    (buf : Bytes) (i : ℕ) → find start3 buf ≡ some i → iter_nals buf ≡ nals_from (drop (i + 3) buf)
unfolding iter_nals
iter_nals-some buf i e =
    rw (e, iter_nals)
      (nals_after_fuel (suc (length buf)) (suc (length (drop (i + 3) buf))) (drop (i + 3) buf)
        (omega (arith, length-drop (i + 3) buf)) (omega arith))

pub nals_from-none : (buf : Bytes) → find start3 buf ≡ none → nals_from buf ≡ yield_nal buf []
unfolding nals_after
nals_from-none buf e = rw (e, nals_after)

pub nals_from-some :
    (buf : Bytes) (j : ℕ)
    → find start3 buf ≡ some j
    → nals_from buf ≡ yield_nal (take (trim_end buf j) buf) (nals_from (drop (j + 3) buf))
unfolding nals_after
nals_from-some buf j e =
    rw (e, nals_after)
      (ap (yield_nal (take (trim_end buf j) buf)) (
        nals_after_fuel (length buf) (suc (length (drop (j + 3) buf))) (drop (j + 3) buf)
          (omega (arith, length-drop (j + 3) buf, find-room start3 buf j e)) (omega arith)))

pub trim_end-le : (buf : Bytes) (k : ℕ) → trim_end buf k ≤ k
unfolding trim_end
trim_end-le buf zero = omega arith
trim_end-le buf (suc k) = ground (arith, trim_end-le buf k)

pub trim_end-append :
    (buf e : Bytes) (k : ℕ) → k ≤ length buf → trim_end (buf ++ e) k ≡ trim_end buf k
unfolding trim_end
trim_end-append buf e zero h = refl
trim_end-append buf e (suc k) h =
    rw (get_or-append buf e k 0 h, trim_end-append buf e k (omega arith))

-- Bytes that stand before the first start code hold none.
pub find-take :
    (buf : Bytes) (j k : ℕ) → find start3 buf ≡ some j → k ≤ j → find start3 (take k buf) ≡ none
find-take buf j k e h = elim (Option-cases (find start3 (take k buf))) [
  | inl n ↦ n
  | inr (i, s) ↦
      let same : i ≡ j = some-injective _ _ (
        sym (find-append start3 (take k buf) (drop k buf) i s)
        ∙ ap (find start3) (take-append-drop k buf)
        ∙ e) in
      absurd (omega (arith, same, find-room start3 (take k buf) i s, length-take k buf))
]

-- What `iter_nals` may yield.
abbrev pub IsPayload : Bytes → Type 0
IsPayload nal = (nal ≢ []) × (find start3 nal ≡ none)

All-yield_nal :
    (nal : Bytes) (more : List Bytes)
    → find start3 nal ≡ none
    → All IsPayload more
    → All IsPayload (yield_nal nal more)
unfolding yield_nal
All-yield_nal [] more e h = h
All-yield_nal (first ∷ body) more e h = ((λ p. cc p, e), h)

nals_after-IsPayload : (f : ℕ) (buf : Bytes) → All IsPayload (nals_after f buf)
unfolding nals_after
nals_after-IsPayload zero buf = tt
nals_after-IsPayload (suc f) buf = elim (Option-cases (find start3 buf)) [
  | inl e ↦ rw (e, nals_after) (All-yield_nal buf [] e tt)
  | inr (j, e) ↦
      rw (e, nals_after)
        (All-yield_nal _ _ (find-take buf j (trim_end buf j) e (trim_end-le buf j))
          (nals_after-IsPayload f (drop (j + 3) buf)))
]

-- Whatever the bytes, every NAL yielded is non-empty and holds no start code.
pub iter_nals-IsPayload : (buf : Bytes) → All IsPayload (iter_nals buf)
unfolding iter_nals
iter_nals-IsPayload buf = elim (Option-cases (find start3 buf)) [
  | inl e ↦ rw (e, iter_nals) tt
  | inr (i, e) ↦ rw (e, iter_nals) (nals_after-IsPayload (suc (length buf)) (drop (i + 3) buf))
]
