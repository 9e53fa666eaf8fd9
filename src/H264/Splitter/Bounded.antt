-- ===== src/H264/Splitter/Bounded.antt =====
-- The loop of `feed` in dvrbridge/h264.py by cases, and the buffer that it leaves.
use dvrbridge.Base.{
  ℕ, zero, suc, ◌+◌, ◌-◌, ◌≤◌, ◌<◌, none, some, [], ◌++◌, Bytes, length, take, drop, find, ltb, ◌≡◌,
  refl, ◌⊎◌, inl, inr, arith, Option-cases, Bool-cases, find-room, find-starts_with, find_at_head,
  drop-drop, length-drop,
}
use dvrbridge.H264.{start3, trim_end, yield_nal}
use dvrbridge.H264.Splitter.{AnnexBSplitter, keep_tail, drop_runaway, drain, feed}

module _ (f m : ℕ) (buf : Bytes) where
  pub drain-none : find start3 buf ≡ none → drain (suc f) m buf ≡ ([], keep_tail buf)
  unfolding drain
  drain-none e = rw (e, drain)

  pub drain-one :
      (i : ℕ)
      → find start3 buf ≡ some i
      → find start3 (drop (i + 3) buf) ≡ none
      → drain (suc f) m buf ≡ ([], drop_runaway m (drop i buf))
  unfolding drain
  drain-one i e n = rw (e, drain) (rw n)

  pub drain-two :
      (i j : ℕ)
      → find start3 buf ≡ some i
      → find start3 (drop (i + 3) buf) ≡ some j
      → drain (suc f) m buf ≡ (
        yield_nal
            (take (trim_end (drop (i + 3) buf) j) (drop (i + 3) buf))
            (drain f m (drop j (drop (i + 3) buf))).0,
        (drain f m (drop j (drop (i + 3) buf))).1,
      )
  unfolding drain
  drain-two i j e n = rw (e, drain) (rw n)

-- Whatever follows, the bytes kept hold at most one start code, and that at their head; without one
-- at most two bytes are kept, and with one no more than `max`.
abbrev pub Settled : ℕ → Bytes → Type 0
Settled m buf =
    ((find start3 buf ≡ none) × (length buf ≤ 2))
    ⊎ ((find start3 buf ≡ some 0) × (find start3 (drop 3 buf) ≡ none) × (length buf ≤ m))

find_short : (buf : Bytes) → length buf ≤ 2 → find start3 buf ≡ none
find_short buf h = elim (Option-cases (find start3 buf)) [
  | inl e ↦ e
  | inr (i, e) ↦ absurd (omega (arith, find-room start3 buf i e))
]

keep_tail-length : (buf : Bytes) → length (keep_tail buf) ≤ 2
unfolding keep_tail
keep_tail-length buf = ground (arith, length-drop (length buf - 2) buf)

drop_runaway-Settled :
    (m : ℕ) (buf : Bytes)
    → find start3 buf ≡ some 0
    → find start3 (drop 3 buf) ≡ none
    → Settled m (drop_runaway m buf)
unfolding drop_runaway
drop_runaway-Settled m buf e n = elim (Bool-cases (ltb m (length buf))) [
  | inl big ↦ rw big (inl (find_short [] (omega arith), omega arith))
  | inr fits ↦ rw fits (inr (e, n, ground arith))
]

module _ (f m : ℕ) (buf : Bytes) (h : length buf < suc f)
    (ih : (b : Bytes) → length b < f → Settled m (drain f m b).1) where
  round-Settled : Settled m (drain (suc f) m buf).1
  round-Settled = elim (Option-cases (find start3 buf)) [
    | inl e ↦
        rw (drain-none f m buf e)
          (inl (find_short (keep_tail buf) (keep_tail-length buf), keep_tail-length buf))
    | inr (i, e) ↦ elim (Option-cases (find start3 (drop (i + 3) buf))) [
      | inl n ↦ rw (drain-one f m buf i e n) (
          drop_runaway-Settled m (drop i buf)
            (find_at_head start3 (drop i buf) (find-starts_with start3 buf i e))
            (rw (drop-drop i 3 (i + 3) buf refl) n))
      | inr (j, n) ↦
          let room = find-room start3 (drop (i + 3) buf) j n in
          rw (drain-two f m buf i j e n) (
            ih (drop j (drop (i + 3) buf))
              (omega (arith, length-drop j (drop (i + 3) buf), length-drop (i + 3) buf, room)))
    ]
  ]

drain-Settled : (f m : ℕ) (buf : Bytes) → length buf < f → Settled m (drain f m buf).1
drain-Settled zero m buf h = absurd (omega arith)
drain-Settled (suc f) m buf h = round-Settled f m buf h (drain-Settled f m)

-- `feed` always ends by the tests of its loop: what it keeps is settled.
pub feed-Settled : (s : AnnexBSplitter) (chunk : Bytes) → Settled s.max (feed s chunk).1.buf
unfolding feed
feed-Settled s chunk =
    drain-Settled (suc (length (s.buf ++ chunk))) s.max (s.buf ++ chunk) (omega arith)
