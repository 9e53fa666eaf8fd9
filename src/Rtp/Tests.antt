-- ===== src/Rtp/Tests.antt =====
-- Runs of the packetizer of dvrbridge/rtsp/rtp.py, and its theorems at concrete inputs.
use dvrbridge.Base.{◌+◌, ◌≤◌, ◌≡◌, refl, some, List, [], ◌∷◌, All, Bytes, length, arith}
use dvrbridge.Rtp.{H264Packetizer, new, packetize, default_payload_type}
use dvrbridge.Rtp.Units.{IsReady, IsReady-new}
use dvrbridge.Rtp.Receiver.{depacketize}
use dvrbridge.Rtp.Wire.{
  Returns, Counted, MarksEnd, packetize-Counted, packetize-length, packetize-MarksEnd,
}
use dvrbridge.Rtp.RoundTrip.{IsPlain, present, depacketize-packetize}

-- A small MTU, so that the slice is fragmented.
abbrev small : H264Packetizer
small = new 0x1234 default_payload_type 5

abbrev small-IsReady : IsReady small
small-IsReady = IsReady-new 0x1234 default_payload_type 5 (omega arith) (omega arith)

abbrev slice : Bytes
slice = 0x65 ∷ 1 ∷ 2 ∷ 3 ∷ 4 ∷ 5 ∷ 6 ∷ 7 ∷ []

abbrev unit : List Bytes
unit = (0x67 ∷ 0x42 ∷ []) ∷ [] ∷ slice ∷ []

unit-IsPlain : All IsPlain unit
unit-IsPlain = omega arith

three_fragments :
    packetize (slice ∷ []) 90000 small
    ≡ some (
      record { ssrc = 0x1234; pt = 96; mtu = 5; seq = 3; packets_sent = 3; octets_sent = 13 },
      (0x80 ∷ 0x60 ∷ 0 ∷ 0 ∷ 0 ∷ 1 ∷ 0x5F ∷ 0x90 ∷ 0 ∷ 0 ∷ 0x12 ∷ 0x34 ∷ 0x7C ∷ 0x85 ∷ 1 ∷ 2 ∷ 3
            ∷ [])
          ∷ (0x80 ∷ 0x60 ∷ 0 ∷ 1 ∷ 0 ∷ 1 ∷ 0x5F ∷ 0x90 ∷ 0 ∷ 0 ∷ 0x12 ∷ 0x34 ∷ 0x7C ∷ 0x05 ∷ 4 ∷ 5
              ∷ 6 ∷ [])
          ∷ (0x80 ∷ 0xE0 ∷ 0 ∷ 2 ∷ 0 ∷ 1 ∷ 0x5F ∷ 0x90 ∷ 0 ∷ 0 ∷ 0x12 ∷ 0x34 ∷ 0x7C ∷ 0x45 ∷ 7 ∷ [])
          ∷ [],
    )
unfolding packetize new
three_fragments = refl

depacketize-packetize_example :
    Returns (λ o. depacketize o.1 ≡ some (present unit)) (packetize unit 90000 small)
depacketize-packetize_example = depacketize-packetize small unit 90000 small-IsReady unit-IsPlain

packetize-Counted_example :
    Returns (λ o. IsReady o.0 × Counted small o.0 o.1) (packetize unit 90000 small)
packetize-Counted_example = packetize-Counted small unit 90000 small-IsReady

packetize-length_example :
    Returns (λ o. All (λ pkt. length pkt ≤ small.mtu + 12) o.1) (packetize unit 90000 small)
packetize-length_example = packetize-length small unit 90000 small-IsReady

packetize-MarksEnd_example : Returns (λ o. MarksEnd o.1) (packetize unit 90000 small)
packetize-MarksEnd_example = packetize-MarksEnd small unit 90000 small-IsReady (λ e. cc e)
