-- ===== src/H264.antt =====
-- dvrbridge/h264.py: NAL types and the splitting of an Annex-B buffer (`iter_nals`). The index `i`
-- of the loop is kept as the bytes behind the start code at `i`.
pub mod Nals
pub mod Join
pub mod Splitter
pub mod Sps
mod Tests
use dvrbridge.Base.{
  ℕ, zero, suc, ◌+◌, Bool, ◌&&◌, Option, none, some, List, [], ◌∷◌, bit_and, leb, ◌==◌,
  if◌then◌else◌, Bytes, length, take, drop, get_or, is_nil, find,
}

abbrev pub nal_slice : ℕ
nal_slice = 1

abbrev pub nal_idr : ℕ
nal_idr = 5

abbrev pub nal_sei : ℕ
nal_sei = 6

abbrev pub nal_sps : ℕ
nal_sps = 7

abbrev pub nal_pps : ℕ
nal_pps = 8

abbrev pub nal_aud : ℕ
nal_aud = 9

-- `_START3`
abbrev pub start3 : Bytes
start3 = 0 ∷ 0 ∷ 1 ∷ []

-- `nal_type`; `none` is the -1 of an empty NAL
unfoldable pub nal_type : Bytes → Option ℕ
nal_type [] = none
nal_type (first ∷ body) = some (bit_and first 0x1F)

-- `is_vcl`
unfoldable pub is_vcl : Option ℕ → Bool
is_vcl none = Bool.false
is_vcl (some t) = leb 1 t && leb t 5

-- `while end > start and buf[end - 1] == 0: end -= 1`, counted from `start`
unfoldable pub trim_end : Bytes → ℕ → ℕ
trim_end buf zero = zero
trim_end buf (suc end) = if get_or buf end 0 == 0 then trim_end buf end else suc end

-- `if nal: yield nal`, then what follows
unfoldable pub yield_nal : Bytes → List Bytes → List Bytes
yield_nal [] more = more
yield_nal (first ∷ body) more = (first ∷ body) ∷ more

-- the loop of `iter_nals`, on the bytes behind a start code; each round consumes a start code
unfoldable pub nals_after : ℕ → Bytes → List Bytes
unfolding trim_end yield_nal find
nals_after zero buf = []
nals_after (suc fuel) buf = elim (find start3 buf) [
  | none ↦ yield_nal buf []
  | some j ↦ yield_nal (take (trim_end buf j) buf) (nals_after fuel (drop (j + 3) buf))
]

unfoldable pub iter_nals : Bytes → List Bytes
unfolding nals_after find
iter_nals buf = elim (find start3 buf) [
  | none ↦ []
  | some i ↦ nals_after (suc (length buf)) (drop (i + 3) buf)
]
