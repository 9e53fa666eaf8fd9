-- ===== src/Device.antt =====
-- The device simulator of dvrbridge/testing.py: its access units, and what `FakeDvr` sends on a
-- connection. The rate enters as the milliseconds of a frame, `int(1000 * interval)`.
pub mod Units
pub mod Driven
pub mod Layout
pub mod Described
mod Tests
use dvrbridge.Base.{
  ℕ, zero, suc, ◌+◌, ◌-◌, ◌%◌, Bool, true, false, not, ◌&&◌, ◌||◌, Option, none, some, List, [],
  ◌∷◌, ◌++◌, ltb, leb, ◌==◌, if◌then◌else◌, Bytes, length, take, drop, starts_with, text_eq,
  replicate, codes,
}
use dvrbridge.Base.Struct.{le16}
use dvrbridge.H264.{nal_type, is_vcl, nal_idr, iter_nals}
use dvrbridge.H264.Join.{join}
use dvrbridge.Hub.{has_type}
use dvrbridge.Netdvr3.{write}
use dvrbridge.Netdvr3.Header.{frame_header}
use dvrbridge.Netdvr3.Start.{StartRequest, read_start}

-- `synth_preamble`, on the encoded texts
unfoldable pub synth_preamble : Bytes → Bytes → ℕ → ℕ → Bytes
synth_preamble device_id firmware width height =
    let pre = write 0 (0 ∷ 0 ∷ 0 ∷ 0x14 ∷ []) (replicate 184 0) in
    let pre = write 8 (0x28 ∷ 0 ∷ 4 ∷ 0 ∷ 3 ∷ 0 ∷ 7 ∷ 0 ∷ 0x2A ∷ 0 ∷ 4 ∷ 0 ∷ []) pre in
    let pre = write 0x24 (take 16 device_id) pre in
    let pre = write 0x54 (take 8 firmware) pre in
    let pre = write 0x7C (codes "H264") pre in write 0x84 (le16 width ++ le16 height) pre

-- the loop of `split_access_units`, with `pending`
unfoldable pub group : List Bytes → List Bytes → List (Bytes × Bool)
group pending [] = []
group pending (nal ∷ nals) = elim (is_vcl (nal_type nal)) [
  | true ↦ (join (pending ++ nal ∷ []), has_type nal_idr nal) ∷ group [] nals
  | false ↦ group (pending ++ nal ∷ []) nals
]

-- `split_access_units`
unfoldable pub split_access_units : Bytes → List (Bytes × Bool)
unfolding group
split_access_units annexb = group [] (iter_nals annexb)

pub record FakeDvr : Type 0 where
  pub aus : List (Bytes × Bool)
  pub username : Bytes
  pub password : Bytes
  pub frame_ms : ℕ
  pub channels : ℕ
  pub preamble : Bytes
  pub drop_after_frames : Option ℕ
  pub garbage_every : ℕ
  pub garbage : Bytes
  pub reject_credentials : Bool

-- the tests of `_session` up to the preamble, on credentials as the Latin-1 text of their bytes
unfoldable pub accepts : FakeDvr → Bytes → Bool
accepts d start =
    let asked = read_start start in
    starts_with (0 ∷ 0 ∷ 0 ∷ 0x48 ∷ []) start
    && not (
        d.reject_credentials
        && (not (text_eq asked.user d.username) || not (text_eq asked.pw d.password)))
    && ltb asked.channel d.channels

-- the counters of the frame loop
pub record Sender : Type 0 where
  pub seq : ℕ
  pub ts : ℕ
  pub sent : ℕ

abbrev pub first_sender : Sender
first_sender = record { seq = 0x0B00; ts = 47000000; sent = 0 }

abbrev pub advance : FakeDvr → Sender → Sender
advance d s = record { seq = s.seq + 1; ts = s.ts + d.frame_ms; sent = s.sent + 1 }

-- `self.garbage_every and sent % self.garbage_every == 0`
unfoldable pub due : FakeDvr → ℕ → Bool
due d sent = not (d.garbage_every == 0) && (sent % d.garbage_every == 0)

-- `self.drop_after_frames is not None and sent >= self.drop_after_frames`
unfoldable pub drops_now : FakeDvr → ℕ → Bool
drops_now d sent = elim d.drop_after_frames [ none ↦ false | some n ↦ leb n sent ]

-- what one round of the `for` writes
unfoldable pub put_frame : FakeDvr → Sender → Bytes × Bool → Bytes
unfolding due
put_frame d s (au, key) =
    frame_header s.seq s.ts key (length au)
    ++ (au ++ (if due d (s.sent + 1) then d.garbage else []))

-- the frame loop over the access units that it still comes to, in its passes over `self.aus`
unfoldable pub send : FakeDvr → Sender → List (Bytes × Bool) → Bytes
unfolding put_frame drops_now
send d s [] = []
send d s (au ∷ aus) =
    put_frame d s au ++ (if drops_now d (s.sent + 1) then [] else send d (advance d s) aus)

abbrev pub passes : ℕ → List (Bytes × Bool) → List (Bytes × Bool)
passes zero aus = []
passes (suc n) aus = aus ++ passes n aus

-- `_session`, for a number of passes; a refused client gets no byte
unfoldable pub session : FakeDvr → Bytes → ℕ → Bytes
unfolding accepts send
session d start n =
    if accepts d start then d.preamble ++ send d first_sender (passes n d.aus) else []
