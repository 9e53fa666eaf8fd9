-- ===== src/H264/Splitter.antt =====
-- `AnnexBSplitter` of dvrbridge/h264.py: the incremental splitter.
pub mod Bounded
pub mod Chunks
use dvrbridge.Base.{
  ℕ, zero, suc, ◌+◌, ◌*◌, ◌-◌, Option, none, some, List, [], ◌∷◌, ◌++◌, Bytes, length, take, drop,
  find, ltb, if◌then◌else◌,
}
use dvrbridge.H264.{start3, trim_end, yield_nal}

-- `_buf` and `_max`
pub record AnnexBSplitter : Type 0 where
  pub buf : Bytes
  pub max : ℕ

abbrev pub default_max_nal : ℕ
default_max_nal = 2 * 1024 * 1024

-- `__init__`
abbrev pub new : ℕ → AnnexBSplitter
new max_nal = record { buf = []; max = max_nal }

-- no start code: `if len(self._buf) > 2: del self._buf[:-2]`
unfoldable pub keep_tail : Bytes → Bytes
keep_tail buf = if ltb 2 (length buf) then drop (length buf - 2) buf else buf

-- one start code, the buffer cut to it: drop a runaway NAL
unfoldable pub drop_runaway : ℕ → Bytes → Bytes
drop_runaway max buf = if ltb max (length buf) then [] else buf

-- the loop of `feed`; each round removes a start code from the buffer
unfoldable pub drain : ℕ → ℕ → Bytes → List Bytes × Bytes
unfolding keep_tail drop_runaway trim_end yield_nal find
drain zero max buf = ([], buf)
drain (suc fuel) max buf = elim (find start3 buf) [
  | none ↦ ([], keep_tail buf)
  | some i ↦
      let rest = drop (i + 3) buf in
      elim (find start3 rest) [
        | none ↦ ([], drop_runaway max (drop i buf))
        | some j ↦
            let nal = take (trim_end rest j) rest in
            let (out, left) = drain fuel max (drop j rest) in (yield_nal nal out, left)
      ]
]

-- `feed`
unfoldable pub feed : AnnexBSplitter → Bytes → List Bytes × AnnexBSplitter
unfolding drain
feed s chunk =
    let buf = s.buf ++ chunk in
    let (out, left) = drain (suc (length buf)) s.max buf in (out, record s { buf = left })

-- calls of `feed`, their results in one list
unfoldable pub feed_all : AnnexBSplitter → List Bytes → List Bytes × AnnexBSplitter
unfolding feed
feed_all s [] = ([], s)
feed_all s (chunk ∷ chunks) =
    let (out, s') = feed s chunk in let (more, s'') = feed_all s' chunks in (out ++ more, s'')
