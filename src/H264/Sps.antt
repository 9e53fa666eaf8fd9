-- ===== src/H264/Sps.antt =====
-- What `parse_sps` of dvrbridge/h264.py reads with: `strip_emulation_prevention` and `_BitReader`. A
-- reader is its data and a position; `none` is the `IndexError` behind the end, and the `ValueError` of `ue`.
pub mod Escape
pub mod Golomb
pub mod Parse
pub mod Packed
pub mod Encoder
pub mod Parts
pub mod Layout
pub mod RoundTrip
mod Tests
use dvrbridge.Base.{
  ℕ, zero, suc, ◌+◌, ◌-◌, ◌*◌, ◌/◌, ◌%◌, ◌^◌, Bool, true, false, ◌&&◌, Option, none, some, List, [],
  ◌∷◌, ◌==◌, if◌then◌else◌, Bytes, ◌>>=◌, starts_with,
}

-- `bytes.replace(b"\x00\x00\x03", b"\x00\x00")`
unfoldable pub strip_emulation_prevention : Bytes → Bytes
strip_emulation_prevention (x ∷ y ∷ z ∷ rest) = elim ((x == 0) && (y == 0) && (z == 3)) [
  | true ↦ 0 ∷ 0 ∷ strip_emulation_prevention rest
  | false ↦ x ∷ strip_emulation_prevention (y ∷ z ∷ rest)
]
strip_emulation_prevention b = b

abbrev pub byte_at : Bytes → ℕ → Option ℕ
byte_at [] i = none
byte_at (b ∷ bs) zero = some b
byte_at (b ∷ bs) (suc i) = byte_at bs i

-- `bit`, where `pos >> 3` and `pos & 7` are a quotient and a remainder
unfoldable pub bit : Bytes → ℕ → Option (ℕ × ℕ)
bit src pos = do byte ← byte_at src (pos / 8); some (byte / 2 ^ (7 - pos % 8) % 2, pos + 1)

-- the loop of `bits`
unfoldable pub bits_from : Bytes → ℕ → ℕ → ℕ → Option (ℕ × ℕ)
bits_from src v zero pos = some (v, pos)
bits_from src v (suc n) pos = do b ← bit src pos; bits_from src (v * 2 + b.0) n b.1

-- `bits`
unfoldable pub bits : Bytes → ℕ → ℕ → Option (ℕ × ℕ)
unfolding bits_from
bits src n pos = bits_from src 0 n pos

-- the loop of `ue`, by the zeros that may still come; the 32nd raises
unfoldable pub leading_zeros : Bytes → ℕ → ℕ → ℕ → Option (ℕ × ℕ)
leading_zeros src zero seen pos = none
leading_zeros src (suc k) seen pos = do
  b ← bit src pos
  elim (b.0 == 0) [ true ↦ leading_zeros src k (seen + 1) b.1 | false ↦ some (seen, b.1) ]

-- `ue`
unfoldable pub ue : Bytes → ℕ → Option (ℕ × ℕ)
unfolding leading_zeros bits
ue src pos = do z ← leading_zeros src 32 0 pos; v ← bits src z.0 z.1; some (2 ^ z.0 - 1 + v.0, v.1)
