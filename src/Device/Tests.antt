-- ===== src/Device/Tests.antt =====
-- Runs of the device of dvrbridge/testing.py, and the theorems on it at concrete inputs.
use mathlib.Core.List.{flatten}
use dvrbridge.Base.{
  Bool, true, false, some, none, List, [], ◌∷◌, ◌++◌, ◌≡◌, refl, sym, arith, Bytes, map, codes,
  text_eq, find, replicate, All, take, drop, starts_with,
}
use dvrbridge.H264.{is_vcl, nal_type}
use dvrbridge.Hub.{has_type}
use dvrbridge.H264.Join.{join, IsClean}
use dvrbridge.Netdvr3.{build_start_stream, magic, start_const, write}
use dvrbridge.Netdvr3.Header.{frame_header}
use dvrbridge.Netdvr3.Start.{read_start, until_nul}
use dvrbridge.Netdvr3.Info.{
  Metadata, parse_preamble, parse_device_id, parse_firmware, parse_size, size_behind,
  parse_channel_count, set_channel_count, u32_at, text_at, or_none, ascii_replaced, is_alnum,
}
use dvrbridge.Device.Described.{parse_preamble-synth_preamble}
use dvrbridge.Netdvr3.Loop.{closed}
use dvrbridge.Netdvr3.Loop.Clean.{seen}
use dvrbridge.Device.{
  FakeDvr, first_sender, session, send, split_access_units, synth_preamble, group, accepts, passes,
  put_frame, due, drops_now,
}
use dvrbridge.Device.Units.{Split, split_access_units-Split}
use dvrbridge.Device.Driven.{first_bytes, drive, frames_before, drive-session, Fits}

-- An SPS, a PPS, an IDR slice, and a slice.
abbrev nals : List Bytes
nals = (0x67 ∷ 66 ∷ []) ∷ (0x68 ∷ 1 ∷ []) ∷ (0x65 ∷ 2 ∷ []) ∷ (0x41 ∷ 3 ∷ []) ∷ []

nals-IsClean : All IsClean nals
unfolding find starts_with
nals-IsClean = (
  record { no_start = refl; ends = omega arith },
  (
    record { no_start = refl; ends = omega arith },
    (
      record { no_start = refl; ends = omega arith },
      (record { no_start = refl; ends = omega arith }, tt),
    ),
  ),
)

split_access_units-Split_example : Split nals (split_access_units (join nals))
split_access_units-Split_example = split_access_units-Split nals nals-IsClean

split_in_two :
    group [] nals
    ≡ (join ((0x67 ∷ 66 ∷ []) ∷ (0x68 ∷ 1 ∷ []) ∷ (0x65 ∷ 2 ∷ []) ∷ []), true)
      ∷ (join ((0x41 ∷ 3 ∷ []) ∷ []), false)
      ∷ []
unfolding group is_vcl nal_type has_type join
split_in_two = refl

abbrev key_unit : Bytes × Bool
key_unit = (0 ∷ 0 ∷ 0 ∷ 1 ∷ 0x65 ∷ 2 ∷ [], true)

abbrev next_unit : Bytes × Bool
next_unit = (0 ∷ 0 ∷ 0 ∷ 1 ∷ 0x41 ∷ 3 ∷ [], false)

abbrev device : FakeDvr
device = record {
  aus = key_unit ∷ next_unit ∷ [];
  username = codes "ab";
  password = codes "c";
  frame_ms = 40;
  channels = 4;
  preamble = 1 ∷ 2 ∷ 3 ∷ 4 ∷ [];
  drop_after_frames = none;
  garbage_every = 0;
  garbage = [];
  reject_credentials = true;
}

-- Its user "ab" asks with the password "c" for channel 2.
abbrev packet : Bytes
packet =
    (0 ∷ 0 ∷ 0 ∷ 0x48 ∷ 0 ∷ 0 ∷ 0 ∷ 0 ∷ [])
    ++ (start_const
        ++ (codes "ab" ++ (replicate 30 0 ++ (codes "c" ++ (replicate 20 0 ++ (1 ∷ 0 ∷ 0 ∷ []))))))

asks : build_start_stream device.username device.password 2 false ≡ some packet
unfolding build_start_stream write
asks = refl

-- What the device sends in one pass: the preamble, and two frames.
abbrev wire_bytes : Bytes
wire_bytes =
    device.preamble
    ++ (frame_header 0x0B00 47000000 true 6
        ++ (key_unit.0 ++ (frame_header 0x0B01 47000040 false 6 ++ next_unit.0)))

serves : session device packet 1 ≡ wire_bytes
unfolding session accepts text_eq read_start until_nul starts_with send put_frame due drops_now
    frame_header
serves = refl

magic_at : find magic (device.preamble ++ first_bytes) ≡ some 8
unfolding find starts_with
magic_at = refl

units-fit : All Fits (key_unit ∷ next_unit ∷ [])
unfolding starts_with
units-fit = ((refl, omega arith), ((refl, omega arith), tt))

drive-session_example :
    drive (take 3 wire_bytes ∷ drop 3 wire_bytes ∷ [])
    ≡ some (record {
      frames =
          map seen
            (frames_before device first_sender key_unit (next_unit ∷ [] ++ passes 0 device.aus));
      resyncs = 0;
      ending = some closed;
    })
unfolding frame_header flatten
drive-session_example =
    drive-session device key_unit (next_unit ∷ []) 2 false packet 0
      (take 3 wire_bytes ∷ drop 3 wire_bytes ∷ [])
      (record { never_drops = refl; no_garbage = refl }) refl units-fit (omega arith) (omega arith)
      (omega arith) (omega arith) (omega arith) (omega arith) (omega arith) asks (refl, (refl, tt))
      (sym serves) magic_at (omega arith)

-- A preamble with short texts, read by a driver that knows nothing yet.
abbrev unknown : Metadata
unknown = record {
  width = none;
  height = none;
  device_id = none;
  firmware = none;
  channel_count = none;
}

parse_preamble-synth_preamble_example :
    parse_preamble (synth_preamble (codes "D1") (codes "V1") 352 288) unknown ≡ record {
      width = some 352;
      height = some 288;
      device_id = some (codes "D1");
      firmware = some (codes "V1");
      channel_count = none;
    }
unfolding or_none
parse_preamble-synth_preamble_example =
    parse_preamble-synth_preamble 68 (codes "1") (codes "V1") 352 288 unknown (omega arith)
      (omega arith) (unfold is_alnum in refl)
      ((λ e. omega (arith, e)), ((λ e. omega (arith, e)), tt)) (omega arith, (omega arith, tt))
      ((λ e. omega (arith, e)), ((λ e. omega (arith, e)), tt)) (omega arith, (omega arith, tt))
      (omega arith) (omega arith) (omega arith) (omega arith)
      (unfold find synth_preamble write starts_with in refl)

-- 128 channels are no plausible count, 16 are.
counts : (parse_preamble (replicate 0x68 0 ++ 16 ∷ 0 ∷ 0 ∷ 0 ∷ []) unknown).channel_count ≡ some 16
unfolding parse_preamble parse_device_id parse_firmware parse_size size_behind parse_channel_count
    set_channel_count u32_at text_at or_none ascii_replaced until_nul find starts_with
counts = refl

too_many : parse_preamble (replicate 0x68 0 ++ 128 ∷ 0 ∷ 0 ∷ 0 ∷ []) unknown ≡ unknown
unfolding parse_preamble parse_device_id parse_firmware parse_size size_behind parse_channel_count
    set_channel_count u32_at text_at or_none ascii_replaced until_nul find starts_with is_alnum
too_many = refl
