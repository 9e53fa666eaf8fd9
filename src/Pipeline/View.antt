-- ===== src/Pipeline/View.antt =====
-- From the access units of a driver to what a viewer over TCP assembles: dvrbridge/hub.py and `_pump` of
-- dvrbridge/rtsp/server.py.
use dvrbridge.Base.{
  ℕ, ◌+◌, ◌<◌, ◌≤◌, ◌^◌, some, List, [], ◌∷◌, ◌++◌, Bytes, length, All, ◌≡◌, sym, ap, ◌∙◌, subst,
  arith,
}
use dvrbridge.Hub.{Subscriber, new_subscriber, Stream, queue_size}
use dvrbridge.Rtp.{H264Packetizer}
use dvrbridge.Rtp.Units.{IsReady}
use dvrbridge.Rtp.Receiver.{depacketize}
use dvrbridge.Rtp.RoundTrip.{present}
use dvrbridge.Rtp.Session.{depacketize-receive_all}
use dvrbridge.Rtsp.Interleaved.{Frames}
use dvrbridge.Rtsp.Pump.{pump, nals_of, pump-Pumped}
use dvrbridge.Pipeline.{AccessUnit, relay_all, IsUnit, AllCarry, HasPlain, BeginsWithKey}
use dvrbridge.Pipeline.Relayed.{relay_all-Relayed}

-- What a viewer over TCP gets.
pub record Viewed (us : List AccessUnit) (s : Stream) (ch : ℕ) (p : H264Packetizer) (rest : Bytes)
    : Type 0 where
  pub sub : Subscriber
  pub subs : (relay_all us s).subs ≡ sub ∷ []
  pub carry : AllCarry s.sps s.pps us sub.queue
  pub blob : Bytes
  pub behind : H264Packetizer
  pub packets : List Bytes
  pub writes : pump ch sub.queue p ≡ some (blob, behind)
  pub framed : Frames ch rest packets (blob ++ rest)
  pub assembled : depacketize packets ≡ some (present (nals_of sub.queue))

-- A stream whose parameter sets are none or no fragments, and whose only subscriber is new, gets at most 64 access units of
-- a camera, the first of them a keyframe; each has NALs, all with no start code in them, no zero byte at the end, and no fragment. Then its
-- subscriber has one frame for each unit, in order: its NALs, its time and its flag, and before the NALs of a keyframe
-- with no SPS the SPS and the PPS that came last, if neither is missing or empty. The pump, from a ready packetizer with an MTU of
-- less than 64 KiB less 12 and on a channel that is a byte, writes these frames with no exception; and what it writes is read off as packets
-- on that channel, from which a receiver assembles exactly their NALs.
pub relay_all-Viewed :
    (us : List AccessUnit) (s : Stream) (i ch : ℕ) (p : H264Packetizer) (rest : Bytes)
    → All IsUnit us
    → BeginsWithKey us
    → length us ≤ queue_size
    → HasPlain s
    → s.subs ≡ new_subscriber i ∷ []
    → ch < 256
    → IsReady p
    → p.mtu + 12 < 2 ^ 16
    → Viewed us s ch p rest
relay_all-Viewed us s i ch p rest is key room h one c r m =
    let relayed = relay_all-Relayed us s (new_subscriber i) is h one (λ e. key) (omega arith) in
    let pumped = pump-Pumped ch relayed.items p [] rest c r m relayed.plain in
    record {
      sub = relayed.then_sub;
      subs = relayed.subs;
      carry = subst (AllCarry s.sps s.pps us) (sym relayed.queue) relayed.carry;
      blob = pumped.blob;
      behind = pumped.behind;
      packets = pumped.packets;
      writes = ap (λ q. pump ch q p) relayed.queue ∙ pumped.writes;
      framed = pumped.framed;
      assembled =
          depacketize-receive_all pumped.packets (present (nals_of relayed.items)) pumped.assembled
          ∙ ap (λ q. some (present (nals_of q))) (sym relayed.queue);
    }
