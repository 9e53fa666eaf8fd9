-- ===== src/Netdvr3/Info.antt =====
-- `NetDvr3Driver._parse_preamble` of dvrbridge/drivers/netdvr3.py: what the driver learns of the device from
-- the bytes before the first frame.
use dvrbridge.Base.{
  ℕ, ◌+◌, ◌-◌, Bool, ◌&&◌, ◌||◌, Option, none, some, map, ltb, leb, if◌then◌else◌, Bytes, length,
  take, drop, find, is_nil, get_or, codes,
}
use dvrbridge.Base.Struct.{of_le16, of_le32}
use dvrbridge.Netdvr3.Start.{until_nul}

-- the `StreamInfo` of a driver; `channel_count` is the one key of `extra`, and `codec` never changes
pub record Metadata : Type 0 where
  pub width : Option ℕ
  pub height : Option ℕ
  pub device_id : Option Bytes
  pub firmware : Option Bytes
  pub channel_count : Option ℕ

-- `isalnum` of one byte
unfoldable pub is_alnum : ℕ → Bool
is_alnum b = (leb 48 b && leb b 57) || (leb 65 b && leb b 90) || (leb 97 b && leb b 122)

-- `decode("ascii", "replace")`
unfoldable pub ascii_replaced : Bytes → Bytes
ascii_replaced = map (λ b. if ltb b 128 then b else 0xFFFD)

-- `text or None`
unfoldable pub or_none : Bytes → Option Bytes
or_none s = if is_nil s then none else some s

-- `pre[at:to]` up to its first NUL, as text
unfoldable pub text_at : ℕ → ℕ → Bytes → Option Bytes
unfolding ascii_replaced or_none
text_at at to pre = or_none (ascii_replaced (until_nul (take (to - at) (drop at pre))))

unfoldable pub parse_device_id : Bytes → Metadata → Metadata
parse_device_id pre m =
    if leb 0x34 (length pre) && is_alnum (get_or pre 0x24 0)
    then record m { device_id = text_at 0x24 0x34 pre }
    else m

unfoldable pub parse_firmware : Bytes → Metadata → Metadata
parse_firmware pre m =
    if leb 0x5B (length pre) then record m { firmware = text_at 0x54 0x64 pre } else m

-- `struct.unpack_from` at `at`, of bytes that are there
unfoldable pub u16_at : Bytes → ℕ → ℕ
u16_at pre at = of_le16 (get_or pre at 0) (get_or pre (at + 1) 0)

unfoldable pub u32_at : Bytes → ℕ → ℕ
u32_at pre at =
    of_le32 (get_or pre at 0) (get_or pre (at + 1) 0) (get_or pre (at + 2) 0)
      (get_or pre (at + 3) 0)

-- the test of the two lengths
unfoldable pub set_size : ℕ → ℕ → Metadata → Metadata
set_size w h m =
    if leb 64 w && leb w 4096 && leb 64 h && leb h 4096
    then record m { width = some w; height = some h }
    else m

-- the size behind the marker, where one was found
unfoldable pub size_behind : Bytes → Metadata → Option ℕ → Metadata
unfolding set_size u16_at
size_behind pre m none = m
size_behind pre m (some i) =
    if leb (i + 12) (length pre) then set_size (u16_at pre (i + 8)) (u16_at pre (i + 10)) m else m

unfoldable pub parse_size : Bytes → Metadata → Metadata
unfolding size_behind
parse_size pre m = size_behind pre m (find (codes "H264") pre)

-- the test of the count
unfoldable pub set_channel_count : ℕ → Metadata → Metadata
set_channel_count nch m =
    if leb 1 nch && leb nch 64 then record m { channel_count = some nch } else m

unfoldable pub parse_channel_count : Bytes → Metadata → Metadata
unfolding set_channel_count u32_at
parse_channel_count pre m =
    if leb 0x6C (length pre) then set_channel_count (u32_at pre 0x68) m else m

-- `_parse_preamble`; each read is behind a test of the length, so that nothing raises
unfoldable pub parse_preamble : Bytes → Metadata → Metadata
unfolding parse_device_id parse_firmware parse_size parse_channel_count
parse_preamble pre m =
    parse_channel_count pre (parse_size pre (parse_firmware pre (parse_device_id pre m)))
