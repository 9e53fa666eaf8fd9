-- ===== src/Netdvr3/Loop.antt =====
-- The frame loop of `NetDvr3Driver.frames` in dvrbridge/drivers/netdvr3.py, behind the preamble. The
-- connection is the bytes that are still to come; where a read wants more, the device has closed
-- or the read has timed out, which are both a `DriverError`.
pub mod Clean
pub mod Resync
pub mod Sound
use dvrbridge.Base.{
  ℕ, zero, suc, ◌+◌, ◌-◌, Bool, true, false, not, ◌||◌, Option, none, some, List, [], ◌∷◌, ◌++◌,
  ltb, leb, ◌==◌, if◌then◌else◌, Bytes, length, take, drop, find, starts_with,
}
use dvrbridge.H264.{nal_type, nal_idr, iter_nals}
use dvrbridge.Hub.{has_type}
use dvrbridge.Netdvr3.{magic, header_len, frame_i, max_frame, FrameHeader, parse_frame_header}

-- `VideoFrame` of dvrbridge/drivers/base.py, with the timestamp that this driver always gives
pub record VideoFrame : Type 0 where
  pub payload : Bytes
  pub ts_ms : ℕ
  pub keyframe : Bool

-- `closed`: the device is gone or silent; `lost`: "could not resynchronize".
pub data Ending : Type 0 where
  closed lost : Ending

-- the buffer, and the bytes to come
abbrev pub Input : Type 0
Input = Bytes × Bytes

-- `_read`, which appends exactly `n` bytes to the buffer; `none` is the `DriverError`
unfoldable pub read : ℕ → Input → Option Input
read n (buf, input) =
    if leb n (length input) then some (buf ++ take n input, drop n input) else none

-- `while len(buf) < n: buf += await self._read(reader, n - len(buf))`; one read is enough
unfoldable pub fill : ℕ → Input → Option Input
unfolding read
fill n (buf, input) =
    if ltb (length buf) n then read (n - length buf) (buf, input) else some (buf, input)

-- the search of `_resync`: a header candidate, or the buffer to go on with and `scanned`
pub data Scan : Type 0 where
  found : Bytes → Scan
  more : Bytes → ℕ → Scan

unfoldable pub scan : Bytes → ℕ → Scan
unfolding find
scan buf scanned = elim (find magic buf) [
  | some i ↦ if leb 4 i then found (drop (i - 4) buf) else more (drop (i + 4) buf) scanned
  | none ↦
      if ltb 7 (length buf)
      then more (drop (length buf - 7) buf) (scanned + (length buf - 7))
      else more buf scanned
]

-- what a part of the loop comes to
pub data Step : Type 0 where
  go_on : Input → Step
  failed : Ending → Step
  out_of_fuel : Step

-- the loop of `_resync`; each round but the last reads 4096 bytes
unfoldable pub resync_loop : ℕ → ℕ → Input → Step
unfolding scan read
resync_loop zero scanned r = out_of_fuel
resync_loop (suc fuel) scanned (buf, input) = elim (scan buf scanned) [
  | found b ↦ go_on (b, input)
  | more b s ↦
      if ltb max_frame s
      then failed lost
      else (elim (read 4096 (b, input)) [ none ↦ failed closed | some r ↦ resync_loop fuel s r ])
]

-- `_resync`
unfoldable pub resync : Input → Step
unfolding resync_loop
resync (buf, input) = resync_loop (suc (length input)) 0 (drop 4 buf, input)

abbrev pub start4 : Bytes
start4 = 0 ∷ 0 ∷ 0 ∷ 1 ∷ []

-- `any(nal_type(n) == NAL_IDR for n in iter_nals(payload))`
unfoldable pub any_idr : List Bytes → Bool
any_idr [] = false
any_idr (n ∷ ns) = has_type nal_idr n || any_idr ns

-- one round of the frame loop: a frame and the input behind it, or a resynchronization
pub data Round : Type 0 where
  yielded : VideoFrame → Input → Round
  desync : Step → Round
  ended : Round

-- the round behind a header, the buffer filled to the magic of the next one
unfoldable pub check_frame : FrameHeader → Input → Round
unfolding resync any_idr starts_with
check_frame h (buf, input) =
    let need = header_len + h.payload_len in
    let payload = take h.payload_len (drop header_len buf) in
    let nxt = take 8 (drop need buf) in
    if not (starts_with start4 payload) || not (starts_with magic (drop 4 nxt))
    then desync (resync (buf, input))
    else yielded
        (record {
          payload = payload;
          ts_ms = h.ts_ms;
          keyframe = (h.ftype == frame_i) || any_idr (iter_nals payload);
        })
        (drop need buf, input)

-- the round with a header read
unfoldable pub read_frame : Option FrameHeader → Input → Round
unfolding check_frame fill resync
read_frame none r = desync (resync r)
read_frame (some h) r =
    if ltb max_frame h.payload_len
    then desync (resync r)
    else (elim (fill (header_len + h.payload_len + 8) r) [
      | none ↦ ended
      | some r' ↦ check_frame h r'
    ])

unfoldable pub round : Input → Round
unfolding read_frame fill parse_frame_header
round r = elim (fill header_len r) [
  | none ↦ ended
  | some (buf, input) ↦ read_frame (parse_frame_header (take header_len buf)) (buf, input)
]

-- what a connection came to: its frames, its resynchronizations, and why it ended
pub record Session : Type 0 where
  pub frames : List VideoFrame
  pub resyncs : ℕ
  pub ending : Option Ending

abbrev pub stop : Option Ending → Session
stop e = record { frames = []; resyncs = 0; ending = e }

abbrev pub with_frame : VideoFrame → Session → Session
with_frame f s = record s { frames = f ∷ s.frames }

abbrev pub with_resync : Session → Session
with_resync s = record s { resyncs = s.resyncs + 1 }

-- the frame loop; `none` for the ending is fuel that ran out
unfoldable pub frame_loop : ℕ → Input → Session
unfolding round
frame_loop zero r = stop none
frame_loop (suc fuel) r = elim (round r) [
  | ended ↦ stop (some closed)
  | yielded f r' ↦ with_frame f (frame_loop fuel r')
  | desync s ↦ elim s [
    | failed e ↦ with_resync (stop (some e))
    | out_of_fuel ↦ stop none
    | go_on r' ↦ with_resync (frame_loop fuel r')
  ]
]

-- the frames of a connection, from what the preamble loop left in the buffer
unfoldable pub session : Input → Session
unfolding frame_loop
session (buf, input) = frame_loop (suc (length buf + length input)) (buf, input)
