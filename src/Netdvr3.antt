-- ===== src/Netdvr3.antt =====
-- dvrbridge/drivers/netdvr3.py: the wire format of the NetDvrV3 protocol.
pub mod Start
pub mod Header
pub mod Preamble
pub mod Info
pub mod Overlap
mod Tests
pub mod Loop
use dvrbridge.Base.{
  ℕ, zero, suc, ◌+◌, ◌-◌, ◌*◌, Bool, true, false, ◌&&◌, Option, none, some, List, [], ◌∷◌, ◌++◌,
  ltb, leb, ◌==◌, if◌then◌else◌, Bytes, length, take, drop, replicate, bit_and, ◌>>=◌, ◌>>◌, guard,
}
use dvrbridge.Base.Struct.{of_le16, of_le32}

-- `MAGIC`
abbrev pub magic : Bytes
magic = 0x63 ∷ 0 ∷ 0x0C ∷ 0 ∷ []

abbrev pub header_len : ℕ
header_len = 24

abbrev pub frame_i : ℕ
frame_i = 0x64

abbrev pub frame_p : ℕ
frame_p = 0x66

-- `_MAX_PREAMBLE`
abbrev pub max_preamble : ℕ
max_preamble = 64 * 1024

-- `_MAX_FRAME`
abbrev pub max_frame : ℕ
max_frame = 4 * 1024 * 1024

-- `buf[at : at + len(src)] = src`, for a slice inside the buffer
unfoldable pub write : ℕ → Bytes → Bytes → Bytes
write at src buf = take at buf ++ (src ++ drop (at + length src) buf)

-- `bytes.fromhex("280004000500000029003800")`
abbrev pub start_const : Bytes
start_const = 0x28 ∷ 0 ∷ 4 ∷ 0 ∷ 5 ∷ 0 ∷ 0 ∷ 0 ∷ 0x29 ∷ 0 ∷ 0x38 ∷ 0 ∷ []

-- `build_start_stream`, on the encoded user name and password; `none` is the `ValueError`
unfoldable pub build_start_stream : Bytes → Bytes → ℕ → Bool → Option Bytes
build_start_stream user password channel substream = do
  guard (leb 1 channel && leb channel 256)
  let buf = write 0 (0 ∷ 0 ∷ 0 ∷ 0x48 ∷ []) (replicate 76 0)
  let buf = write 8 start_const buf
  let buf = write 20 (take 31 user) buf
  let buf = write 52 (take 23 password) buf
  let buf = if substream then write 72 (1 ∷ []) buf else buf
  some (write 73 (bit_and (channel - 1) 0xFF ∷ []) buf)

-- what `parse_frame_header` returns
pub record FrameHeader : Type 0 where
  pub seq : ℕ
  pub ts_ms : ℕ
  pub ftype : ℕ
  pub payload_len : ℕ

-- `parse_frame_header`; `none` is the `DriverError`. Fewer than 24 bytes do not occur.
unfoldable pub parse_frame_header : Bytes → Option FrameHeader
parse_frame_header
      (a0 ∷ a1 ∷ a2 ∷ a3 ∷ m0 ∷ m1 ∷ k0 ∷ k1 ∷ z0 ∷ z1 ∷ z2 ∷ z3 ∷ b0 ∷ b1 ∷ b2 ∷ b3 ∷ t0 ∷ t1 ∷ t2
        ∷ t3 ∷ ft ∷ r ∷ l0 ∷ l1 ∷ more) =
    if (of_le16 m0 m1 == 0x0063) && (of_le16 k0 k1 == 0x000C)
    then some (record {
      seq = of_le32 a0 a1 a2 a3;
      ts_ms = of_le32 t0 t1 t2 t3;
      ftype = ft;
      payload_len = of_le16 l0 l1 + 4;
    })
    else none
parse_frame_header _ = none
