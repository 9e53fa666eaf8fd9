-- ===== src/Netdvr3/Tests.antt =====
-- Runs of the driver of dvrbridge/drivers/netdvr3.py, and its theorems at concrete inputs.
use mathlib.Core.List.{flatten}
use dvrbridge.Base.{
  List, ◌⊎◌, find, true, false, none, some, [], ◌∷◌, ◌++◌, map, ◌≡◌, refl, arith, Bytes, get_or,
  starts_with,
}
use dvrbridge.Netdvr3.{build_start_stream}
use dvrbridge.Netdvr3.Start.{Asks, build_start_stream-Asks}
use dvrbridge.Netdvr3.Overlap.{build_start_stream-get_or}
use dvrbridge.Netdvr3.Preamble.{
  no_header, cut_off, preamble_loop, Opened, preamble_loop-Opened, preamble_loop-early,
}
use dvrbridge.Netdvr3.Loop.{closed, session}
use dvrbridge.Netdvr3.Loop.Sound.{Sound, session-Sound}
use dvrbridge.Netdvr3.Loop.Clean.{Sent, IsFrame, stream, seen, session-stream}

-- "admin" and "secret"
abbrev admin : Bytes
admin = 97 ∷ 100 ∷ 109 ∷ 105 ∷ 110 ∷ []

abbrev secret : Bytes
secret = 115 ∷ 101 ∷ 99 ∷ 114 ∷ 101 ∷ 116 ∷ []

build_start_stream-Asks_example :
    (pkt : Bytes) × (build_start_stream admin secret 2 true ≡ some pkt)
    × Asks admin secret 2 true pkt
build_start_stream-Asks_example =
    build_start_stream-Asks admin secret 2 true (omega arith) (omega arith) (omega arith)
      (omega arith) (omega arith) (omega arith)

-- A password of 21 bytes.
abbrev long_password : Bytes
long_password = secret ++ (secret ++ (secret ++ (97 ∷ 98 ∷ 99 ∷ [])))

build_start_stream-get_or_example :
    (pkt : Bytes) × (build_start_stream admin long_password 1 false ≡ some pkt)
    × (get_or pkt 72 0 ≡ get_or long_password 20 0)
build_start_stream-get_or_example =
    build_start_stream-get_or admin long_password 1 (omega arith) (omega arith) (omega arith)
      (omega arith)

channel_out_of_range : build_start_stream admin secret 257 false ≡ none
unfolding build_start_stream
channel_out_of_range = refl

abbrev key : Sent
key = record { seq = 1; ts_ms = 40; keyframe = true; au = 0 ∷ 0 ∷ 0 ∷ 1 ∷ 0x65 ∷ 0x88 ∷ [] }

abbrev slice : Sent
slice = record { seq = 2; ts_ms = 80; keyframe = false; au = 0 ∷ 0 ∷ 0 ∷ 1 ∷ 0x41 ∷ 0x9A ∷ [] }

key-IsFrame : IsFrame key
unfolding starts_with
key-IsFrame = record { starts = refl; fits = omega arith }

slice-IsFrame : IsFrame slice
unfolding starts_with
slice-IsFrame = record { starts = refl; fits = omega arith }

session-stream_example :
    session ([], stream (key ∷ slice ∷ []) slice)
    ≡ record { frames = map seen (key ∷ slice ∷ []); resyncs = 0; ending = some closed }
session-stream_example =
    session-stream (key ∷ slice ∷ []) slice [] (stream (key ∷ slice ∷ []) slice)
      (key-IsFrame, (slice-IsFrame, tt)) slice-IsFrame refl

session-Sound_example : Sound (session (0xDE ∷ 0xAD ∷ [], stream (key ∷ []) slice))
session-Sound_example = session-Sound (0xDE ∷ 0xAD ∷ []) (stream (key ∷ []) slice)

-- A preamble of five bytes, and a header, in two chunks that cut the magic.
abbrev first_chunks : List Bytes
first_chunks = (1 ∷ 2 ∷ 3 ∷ 4 ∷ 5 ∷ 9 ∷ 9 ∷ 9 ∷ 9 ∷ 0x63 ∷ []) ∷ (0 ∷ 0x0C ∷ 0 ∷ 7 ∷ []) ∷ []

preamble_loop-Opened_example : Opened ([] ++ flatten first_chunks) 9 (preamble_loop [] first_chunks)
preamble_loop-Opened_example =
    preamble_loop-Opened [] first_chunks 9 (refl, (refl, tt)) (unfold find flatten in refl)
      (omega arith) (omega arith)

preamble_loop-early_example :
    (preamble_loop (0x63 ∷ 0 ∷ 0x0C ∷ 0 ∷ []) first_chunks ≡ no_header)
    ⊎ (preamble_loop (0x63 ∷ 0 ∷ 0x0C ∷ 0 ∷ []) first_chunks ≡ cut_off)
preamble_loop-early_example =
    preamble_loop-early (0x63 ∷ 0 ∷ 0x0C ∷ 0 ∷ []) first_chunks 0 (unfold find in refl)
      (omega arith)
