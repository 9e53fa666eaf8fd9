-- ===== src/H264/Splitter/Chunks.antt =====
-- `AnnexBSplitter` of dvrbridge/h264.py against `iter_nals`: however a stream is cut into chunks.
use dvrbridge.Base.{
  ℕ, zero, suc, ◌+◌, ◌-◌, ◌≤◌, Option, none, some, List, [], ◌∷◌, ◌++◌, Bytes, length, take, drop,
  find, ltb, shift, ◌≡◌, refl, sym, ap, ◌∙◌, inl, inr, arith, Option-cases, Bool-cases, find-room,
  find-starts_with, find_at_head, drop-drop, length-drop, find-append, find-drop, drop-append,
  take-append, append_assoc, append-nil, length-append,
}
use mathlib.Core.List.{flatten}
use dvrbridge.H264.{start3, trim_end, yield_nal, iter_nals}
use dvrbridge.H264.Nals.{
  nals_from, iter_nals-none, iter_nals-some, nals_from-none, nals_from-some, trim_end-append,
  trim_end-le,
}
use dvrbridge.H264.Splitter.{AnnexBSplitter, keep_tail, drop_runaway, drain, feed, feed_all}
use dvrbridge.H264.Splitter.Bounded.{Settled, feed-Settled, drain-none, drain-one, drain-two}

yield_nal-append :
    (nal : Bytes) (xs ys : List Bytes) → yield_nal nal xs ++ ys ≡ yield_nal nal (xs ++ ys)
unfolding yield_nal
yield_nal-append [] xs ys = refl
yield_nal-append (x ∷ nal) xs ys = refl

-- Bytes with no start code are dropped but for two.
iter_nals-drop :
    (buf ext : Bytes) (k : ℕ)
    → find start3 buf ≡ none
    → k + 2 ≤ length buf
    → iter_nals (drop k buf ++ ext) ≡ iter_nals (buf ++ ext)
iter_nals-drop buf ext k h r = go (find start3 (drop k buf ++ ext)) refl
  where
    moved : find start3 (buf ++ ext) ≡ shift k (find start3 (drop k buf ++ ext))
    moved = find-drop start3 buf ext k h (omega arith)

    go :
        (o : Option ℕ)
        → find start3 (drop k buf ++ ext) ≡ o
        → iter_nals (drop k buf ++ ext) ≡ iter_nals (buf ++ ext)
    go none e = iter_nals-none _ e ∙ sym (iter_nals-none _ (moved ∙ ap (shift k) e))
    go (some i) e =
        iter_nals-some _ i e
        ∙ ap nals_from (
            ap (drop (i + 3)) (sym (drop-append k buf ext (omega arith)))
            ∙ drop-drop k (i + 3) (k + i + 3) (buf ++ ext) (omega arith))
        ∙ sym (iter_nals-some _ (k + i) (moved ∙ ap (shift k) e))

-- The buffer can be cut to its first start code.
iter_nals_cut :
    (buf ext : Bytes) (i : ℕ)
    → find start3 buf ≡ some i
    → iter_nals (drop i buf ++ ext) ≡ iter_nals (buf ++ ext)
iter_nals_cut buf ext i e =
    iter_nals-some _ 0 (
      find-append start3 (drop i buf) ext 0
        (find_at_head start3 (drop i buf) (find-starts_with start3 buf i e)))
    ∙ ap nals_from (
        ap (drop 3) (sym (drop-append i buf ext (omega (arith, find-room start3 buf i e))))
        ∙ drop-drop i 3 (i + 3) (buf ++ ext) refl)
    ∙ sym (iter_nals-some _ i (find-append start3 buf ext i e))

-- Two start codes delimit a NAL.
iter_nals_two :
    (buf ext : Bytes) (i j : ℕ)
    → find start3 buf ≡ some i
    → find start3 (drop (i + 3) buf) ≡ some j
    → iter_nals (buf ++ ext)
      ≡ yield_nal
          (take (trim_end (drop (i + 3) buf) j) (drop (i + 3) buf))
          (iter_nals (drop j (drop (i + 3) buf) ++ ext))
iter_nals_two buf ext i j e n =
    iter_nals-some _ i (find-append start3 buf ext i e)
    ∙ ap nals_from (drop-append (i + 3) buf ext (omega (arith, find-room start3 buf i e)))
    ∙ nals_from-some (rest ++ ext) j (find-append start3 rest ext j n)
    ∙ ap (λ t. yield_nal t (nals_from (drop (j + 3) (rest ++ ext)))) same
    ∙ ap (yield_nal (take (trim_end rest j) rest)) later
  where
    rest : Bytes
    rest = drop (i + 3) buf

    room : j + 3 ≤ length rest
    room = find-room start3 rest j n

    same : take (trim_end (rest ++ ext) j) (rest ++ ext) ≡ take (trim_end rest j) rest
    same =
        ap (λ t. take t (rest ++ ext)) (trim_end-append rest ext j (omega (arith, room)))
        ∙ take-append (trim_end rest j) rest ext (omega (arith, room, trim_end-le rest j))

    later : nals_from (drop (j + 3) (rest ++ ext)) ≡ iter_nals (drop j rest ++ ext)
    later =
        sym (iter_nals-some (rest ++ ext) j (find-append start3 rest ext j n))
        ∙ sym (iter_nals_cut rest ext j n)

keep_tail-iter_nals :
    (buf ext : Bytes)
    → find start3 buf ≡ none
    → iter_nals (keep_tail buf ++ ext) ≡ iter_nals (buf ++ ext)
unfolding keep_tail
keep_tail-iter_nals buf ext h = elim (Bool-cases (ltb 2 (length buf))) [
  | inl e ↦ rw e (iter_nals-drop buf ext (length buf - 2) h (ground arith))
  | inr e ↦ rw e
]

drop_runaway-length : (m : ℕ) (buf : Bytes) → length (drop_runaway m buf) ≤ length buf
unfolding drop_runaway
drop_runaway-length m buf = ground arith

keep_tail-length : (buf : Bytes) → length (keep_tail buf) ≤ length buf
unfolding keep_tail
keep_tail-length buf = ground (arith, length-drop (length buf - 2) buf)

drop_runaway_small : (m : ℕ) (buf : Bytes) → length buf ≤ m → drop_runaway m buf ≡ buf
unfolding drop_runaway
drop_runaway_small m buf h = ground arith

-- What the loop yields, and what it leaves for later, is what the whole buffer yields.
drain-iter_nals :
    (f m : ℕ) (buf ext : Bytes)
    → length buf ≤ m
    → (drain f m buf).0 ++ iter_nals ((drain f m buf).1 ++ ext) ≡ iter_nals (buf ++ ext)
drain-iter_nals zero m buf ext h = unfold drain in refl
drain-iter_nals (suc f) m buf ext h = round-iter_nals (drain-iter_nals f m)
  where
    round-iter_nals :
        ((b e : Bytes)
          → length b ≤ m
          → (drain f m b).0 ++ iter_nals ((drain f m b).1 ++ e) ≡ iter_nals (b ++ e))
        → (drain (suc f) m buf).0 ++ iter_nals ((drain (suc f) m buf).1 ++ ext)
          ≡ iter_nals (buf ++ ext)
    round-iter_nals ih = elim (Option-cases (find start3 buf)) [
      | inl e ↦ rw (drain-none f m buf e) (keep_tail-iter_nals buf ext e)
      | inr (i, e) ↦ elim (Option-cases (find start3 (drop (i + 3) buf))) [
        | inl n ↦
            rw
              (
                drain-one f m buf i e n,
                drop_runaway_small m (drop i buf) (omega (arith, length-drop i buf)),
              )
              (iter_nals_cut buf ext i e)
        | inr (j, n) ↦
            let rest = drop (i + 3) buf in
            rw (drain-two f m buf i j e n) (
              yield_nal-append (take (trim_end rest j) rest) _ _
              ∙ ap (yield_nal (take (trim_end rest j) rest)) (
                  ih (drop j rest) ext (omega (arith, length-drop j rest, length-drop (i + 3) buf)))
              ∙ sym (iter_nals_two buf ext i j e n))
      ]
    ]

drain-length : (f m : ℕ) (buf : Bytes) → length (drain f m buf).1 ≤ length buf
drain-length zero m buf = unfold drain in omega arith
drain-length (suc f) m buf = round-length (drain-length f m)
  where
    round-length :
        ((b : Bytes) → length (drain f m b).1 ≤ length b)
        → length (drain (suc f) m buf).1 ≤ length buf
    round-length ih = elim (Option-cases (find start3 buf)) [
      | inl e ↦ rw (drain-none f m buf e) (keep_tail-length buf)
      | inr (i, e) ↦ elim (Option-cases (find start3 (drop (i + 3) buf))) [
        | inl n ↦
            rw (drain-one f m buf i e n)
              (omega (arith, drop_runaway-length m (drop i buf), length-drop i buf))
        | inr (j, n) ↦
            let rest = drop (i + 3) buf in
            rw (drain-two f m buf i j e n)
              (omega (arith, ih (drop j rest), length-drop j rest, length-drop (i + 3) buf))
      ]
    ]

-- What `feed` yields for the chunks, and what it leaves for later, is what the whole stream yields.
feed_all-whole :
    (s : AnnexBSplitter) (chunks : List Bytes)
    → length (s.buf ++ flatten chunks) ≤ s.max
    → (feed_all s chunks).0 ++ iter_nals (feed_all s chunks).1.buf
      ≡ iter_nals (s.buf ++ flatten chunks)
unfolding flatten feed_all feed
feed_all-whole s [] h = ap iter_nals (sym (append-nil s.buf))
feed_all-whole s (chunk ∷ chunks) h =
    append_assoc now more _
    ∙ ap (λ t. now ++ t) (feed_all-whole s' chunks room)
    ∙ drain-iter_nals f s.max (s.buf ++ chunk) (flatten chunks)
        (omega (arith, h, length-append (s.buf ++ chunk) (flatten chunks), total))
    ∙ ap iter_nals (append_assoc s.buf chunk (flatten chunks))
  where
    f : ℕ
    f = suc (length (s.buf ++ chunk))

    now : List Bytes
    now = (drain f s.max (s.buf ++ chunk)).0

    s' : AnnexBSplitter
    s' = record s { buf = (drain f s.max (s.buf ++ chunk)).1 }

    more : List Bytes
    more = (feed_all s' chunks).0

    total :
        length (s.buf ++ (chunk ++ flatten chunks)) ≡ length ((s.buf ++ chunk) ++ flatten chunks)
    total = ap length (sym (append_assoc s.buf chunk (flatten chunks)))

    room : length (s'.buf ++ flatten chunks) ≤ s.max
    room = omega (
      arith,
      h,
      total,
      length-append s'.buf (flatten chunks),
      length-append (s.buf ++ chunk) (flatten chunks),
      drain-length f s.max (s.buf ++ chunk),
    )

-- What is kept after all chunks is settled, if it was before.
feed_all-Settled :
    (s : AnnexBSplitter) (chunks : List Bytes)
    → Settled s.max s.buf
    → Settled s.max (feed_all s chunks).1.buf
unfolding feed_all
feed_all-Settled s [] h = h
feed_all-Settled s (chunk ∷ chunks) h =
    feed_all-Settled (feed s chunk).1 chunks (feed-Settled s chunk)

yield_nal-length : (nal : Bytes) → length (yield_nal nal []) ≤ 1
unfolding yield_nal
yield_nal-length [] = omega arith
yield_nal-length (x ∷ nal) = omega arith

-- Settled bytes hold at most one NAL.
iter_nals-Settled : (m : ℕ) (buf : Bytes) → Settled m buf → length (iter_nals buf) ≤ 1
iter_nals-Settled m buf (inl k) = rw (iter_nals-none buf k.0) (omega arith)
iter_nals-Settled m buf (inr k) =
    rw (iter_nals-some buf 0 k.0, nals_from-none (drop 3 buf) k.1) (yield_nal-length (drop 3 buf))

-- However a stream is cut into chunks, the NALs that the splitter returns are those of the whole stream, in order, but
-- for at most one, the last, which is the NAL in the bytes that it keeps. The stream is not longer than the splitter's bound, and what the
-- splitter held before is settled, as the buffer of a new one is: at most two bytes with no start code, or at most the bound
-- with one start code, at their head.
pub feed_all-iter_nals :
    (s : AnnexBSplitter) (chunks : List Bytes)
    → Settled s.max s.buf
    → length (s.buf ++ flatten chunks) ≤ s.max
    → ((feed_all s chunks).0 ++ iter_nals (feed_all s chunks).1.buf
        ≡ iter_nals (s.buf ++ flatten chunks))
      × (length (iter_nals (feed_all s chunks).1.buf) ≤ 1)
feed_all-iter_nals s chunks settled room = (
  feed_all-whole s chunks room,
  iter_nals-Settled s.max (feed_all s chunks).1.buf (feed_all-Settled s chunks settled),
)
