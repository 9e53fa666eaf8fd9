-- ===== src/Netdvr3/Header.antt =====
-- Frame headers: `frame_header` of dvrbridge/testing.py, the device's side, and
-- `parse_frame_header` of dvrbridge/drivers/netdvr3.py.
use dvrbridge.Base.{
  ℕ, ◌+◌, ◌-◌, ◌%◌, ◌^◌, ◌≤◌, ◌<◌, Bool, some, ◌∷◌, ◌++◌, if◌then◌else◌, Bytes, length, bit_and,
  bit_and-0xFFFF, bit_and-0xFFFFFFFF, ◌≡◌, refl, arith,
}
use dvrbridge.Base.Struct.{le16, le32, of_le32-le32}
use dvrbridge.Netdvr3.{frame_i, frame_p, parse_frame_header}

-- `frame_header`; `payload_len - 4` is negative for a length below 4, hence the modulus added
unfoldable pub frame_header : ℕ → ℕ → Bool → ℕ → Bytes
frame_header seq ts_ms keyframe payload_len =
    le32 (bit_and seq 0xFFFFFFFF)
    ++ (le16 0x0063
        ++ (le16 0x000C
            ++ (le32 0
                ++ (le32 (bit_and (seq + 0x1000) 0xFFFFFFFF)
                    ++ (le32 (bit_and ts_ms 0xFFFFFFFF)
                        ++ ((if keyframe then frame_i else frame_p)
                            ∷ 0
                            ∷ le16 (bit_and (payload_len + 0x10000 - 4) 0xFFFF)))))))

length_field : (n : ℕ) → 4 ≤ n → n < 2 ^ 16 + 4 → (n + 0x10000 - 4) % 2 ^ 16 + 4 ≡ n
length_field n lo hi = omega arith

-- The driver reads the fields of a device's header back, for an access unit whose length fits the
-- 16-bit field; the bytes behind the header are not looked at.
pub parse_frame_header-frame_header :
    (seq ts_ms : ℕ) (keyframe : Bool) (n : ℕ) (rest : Bytes)
    → 4 ≤ n
    → n < 2 ^ 16 + 4
    → parse_frame_header (frame_header seq ts_ms keyframe n ++ rest)
      ≡ some (record {
        seq = seq % 2 ^ 32;
        ts_ms = ts_ms % 2 ^ 32;
        ftype = if keyframe then frame_i else frame_p;
        payload_len = n;
      })
unfolding parse_frame_header frame_header
parse_frame_header-frame_header seq ts key n rest lo hi =
    rw
      (
        bit_and-0xFFFFFFFF seq,
        bit_and-0xFFFFFFFF ts,
        bit_and-0xFFFF,
        of_le32-le32 (seq % 2 ^ 32),
        of_le32-le32 (ts % 2 ^ 32),
      )
      (ground arith)

pub length-frame_header :
    (seq ts_ms : ℕ) (keyframe : Bool) (n : ℕ) → length (frame_header seq ts_ms keyframe n) ≡ 24
unfolding frame_header
length-frame_header seq ts_ms keyframe n = refl
