-- ===== src/H264/Tests.antt =====
-- Runs of the splitters of dvrbridge/h264.py, and their theorems at concrete inputs.
use dvrbridge.Base.{inl, ◌≡◌, ◌++◌, ◌≤◌, refl, List, [], ◌∷◌, All, Bytes, length, arith, find}
use mathlib.Core.List.{flatten}
use dvrbridge.H264.{iter_nals}
use dvrbridge.H264.Join.{join, IsClean, iter_nals-join}
use dvrbridge.H264.Splitter
use dvrbridge.H264.Splitter.{AnnexBSplitter, feed, feed_all}
use dvrbridge.H264.Splitter.Bounded.{Settled, feed-Settled}
use dvrbridge.H264.Splitter.Chunks.{feed_all-iter_nals}

-- Junk, a three-byte code, a four-byte code, and an unfinished NAL.
abbrev stream : Bytes
stream = 9 ∷ 0 ∷ 0 ∷ 1 ∷ 0x67 ∷ 7 ∷ 0 ∷ 0 ∷ 0 ∷ 1 ∷ 0x68 ∷ 8 ∷ 0 ∷ 0 ∷ 1 ∷ 0x65 ∷ 5 ∷ 0 ∷ []

stream_nals : iter_nals stream ≡ (0x67 ∷ 7 ∷ []) ∷ (0x68 ∷ 8 ∷ []) ∷ (0x65 ∷ 5 ∷ 0 ∷ []) ∷ []
unfolding iter_nals
stream_nals = refl

abbrev chunks : List Bytes
chunks =
    (9 ∷ 0 ∷ 0 ∷ []) ∷ (1 ∷ 0x67 ∷ 7 ∷ 0 ∷ 0 ∷ 0 ∷ []) ∷ (1 ∷ 0x68 ∷ 8 ∷ 0 ∷ 0 ∷ 1 ∷ 0x65 ∷ []) ∷ []

abbrev fresh : AnnexBSplitter
fresh = Splitter.new 64

chunks_nals : (feed_all fresh chunks).0 ≡ (0x67 ∷ 7 ∷ []) ∷ (0x68 ∷ 8 ∷ []) ∷ []
unfolding feed_all
chunks_nals = refl

abbrev nals : List Bytes
nals = (0x67 ∷ 7 ∷ []) ∷ (0x65 ∷ 0 ∷ 0 ∷ 2 ∷ []) ∷ []

nals-IsClean : All IsClean nals
unfolding find
nals-IsClean = (
  record { no_start = refl; ends = omega arith },
  (record { no_start = refl; ends = omega arith }, tt),
)

iter_nals-join_example : iter_nals (join nals) ≡ nals
iter_nals-join_example = iter_nals-join nals nals-IsClean

feed-Settled_example : Settled fresh.max (feed fresh stream).1.buf
feed-Settled_example = feed-Settled fresh stream

room : length (fresh.buf ++ flatten chunks) ≤ fresh.max
unfolding flatten
room = omega arith

feed_all-iter_nals_example :
    ((feed_all fresh chunks).0 ++ iter_nals (feed_all fresh chunks).1.buf
      ≡ iter_nals (fresh.buf ++ flatten chunks))
    × (length (iter_nals (feed_all fresh chunks).1.buf) ≤ 1)
feed_all-iter_nals_example =
    feed_all-iter_nals fresh chunks (inl (unfold find in refl, omega arith)) room
