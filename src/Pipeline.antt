-- ===== src/Pipeline.antt =====
-- The path of a video stream through dvrbridge: the frames of a driver, `Stream._on_frame` of dvrbridge/hub.py, the queue of a
-- subscriber, and the pump of dvrbridge/rtsp/server.py.
pub mod Params
pub mod Relayed
pub mod View
mod Tests
use dvrbridge.Base.{
  ℕ, zero, suc, ◌+◌, ◌<◌, ◌≤◌, ◌^◌, Bool, true, false, not, ◌&&◌, Option, none, some, List, [], ◌∷◌,
  ◌++◌, map, Bytes, length, length-append, ltb, if◌then◌else◌, is_nil, All, All-append, ◌≡◌, ◌≢◌,
  refl, sym, ap, ◌∙◌, subst, append_assoc, append-nil, arith, Bool-cases, inl, inr, ◌⊎◌,
}
use dvrbridge.H264.{iter_nals, nal_sps, nal_pps}
use dvrbridge.H264.Join.{join, IsClean, iter_nals-join}
use dvrbridge.Hub.{
  HubFrame, Subscriber, new_subscriber, Stream, truthy, has_type, cache_param, cache_params,
  any_sps, prepend, with_params, put_nowait, offer, queue_size, relay, on_frame,
}
use dvrbridge.Hub.Params.{SameBut, cache_params-SameBut, on_frame-relay}
use dvrbridge.Rtp.{H264Packetizer}
use dvrbridge.Rtp.Units.{IsReady}
use dvrbridge.Rtp.Receiver.{depacketize}
use dvrbridge.Rtp.RoundTrip.{IsPlain, present}
use dvrbridge.Rtp.Session.{depacketize-receive_all}
use dvrbridge.Rtsp.Interleaved.{Frames}
use dvrbridge.Rtsp.Pump.{pump, nals_of, AllPlain, Pumped, pump-Pumped}

-- An access unit: its NALs, its time on the RTP clock, and whether it is a keyframe.
pub record AccessUnit : Type 0 where
  pub nals : List Bytes
  pub ts90k : ℕ
  pub keyframe : Bool

-- the `async for` of `_run`, on the payloads of these access units
unfoldable pub relay_all : List AccessUnit → Stream → Stream
unfolding on_frame
relay_all [] s = s
relay_all (u ∷ us) s = relay_all us (on_frame (join u.nals) u.ts90k u.keyframe s)

-- NALs as a camera makes them: some, none with a start code or a zero byte at its end, and none a fragment of RTP.
pub record IsUnit (u : AccessUnit) : Type 0 where
  pub some_nals : u.nals ≢ []
  pub clean : All IsClean u.nals
  pub plain : All IsPlain u.nals

-- The last NAL of a type, or what was held before.
abbrev pub last_of : ℕ → Option Bytes → List Bytes → Option Bytes
last_of t held [] = held
last_of t held (n ∷ ns) = last_of t (if has_type t n then some n else held) ns

-- What stands before the NALs of a keyframe, by its own SPS and the last SPS and PPS.
abbrev pub before_key : Option Bytes → Option Bytes → Option Bytes → List Bytes
before_key none (some (x ∷ sps)) (some (y ∷ pps)) = (x ∷ sps) ∷ (y ∷ pps) ∷ []
before_key _ _ _ = []

-- What a subscriber gets for a unit, by the SPS (type 7) and the PPS (type 8) that came last before it: its NALs, its time
-- and its flag, and before the NALs of a keyframe with no SPS the last SPS and PPS, where neither is missing or empty.
pub record Carries (sps pps : Option Bytes) (u : AccessUnit) (f : HubFrame) : Type 0 where
  pub nals :
      f.nals
      ≡ (if u.keyframe
          then before_key (last_of 7 none u.nals) (last_of 7 sps u.nals) (last_of 8 pps u.nals)
          else [])
        ++ u.nals
  pub ts90k : f.ts90k ≡ u.ts90k
  pub keyframe : f.keyframe ≡ u.keyframe

abbrev pub AllCarry : Option Bytes → Option Bytes → List AccessUnit → List HubFrame → Type 0
AllCarry sps pps [] [] = Unit
AllCarry sps pps [] (f ∷ fs) = ⊥
AllCarry sps pps (u ∷ us) [] = ⊥
AllCarry sps pps (u ∷ us) (f ∷ fs) =
    Carries sps pps u f × AllCarry (last_of 7 sps u.nals) (last_of 8 pps u.nals) us fs

abbrev pub IsPlainParam : Option Bytes → Type 0
IsPlainParam none = Unit
IsPlainParam (some n) = IsPlain n

-- Its parameter sets, where it has them, are no fragments.
abbrev pub HasPlain : Stream → Type 0
HasPlain s = IsPlainParam s.sps × IsPlainParam s.pps

-- The first unit, if there is one, is a keyframe.
abbrev pub BeginsWithKey : List AccessUnit → Type 0
BeginsWithKey [] = Unit
BeginsWithKey (u ∷ us) = u.keyframe ≡ true
