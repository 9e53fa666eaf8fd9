-- ===== src/Device/Driven.antt =====
-- The driver of dvrbridge/drivers/netdvr3.py on a connection to the device of dvrbridge/testing.py.
use mathlib.Core.List.{flatten}
use dvrbridge.Base.{
  ℕ, zero, suc, ◌+◌, ◌-◌, ◌≤◌, ◌<◌, ◌^◌, Bool, true, false, Option, none, some, List, [], ◌∷◌, ◌++◌,
  map, ltb, if◌then◌else◌, Bytes, length, drop, starts_with, find, text_eq_refl, All, All-append,
  is_nil, ◌≡◌, sym, ap, ◌∙◌, subst, arith, append-nil, drop-append_length, take-append-drop,
  find-append, append_assoc,
}
use dvrbridge.Netdvr3.{magic, max_preamble, build_start_stream}
use mathlib.Core.Option.{some-injective}
use dvrbridge.Netdvr3.Start.{Asks, IsText, build_start_stream-Asks}
use dvrbridge.Netdvr3.Preamble.{
  started, no_header, cut_off, preamble_loop, Opened, opened, preamble_loop-Opened,
}
use dvrbridge.Netdvr3.Loop.{VideoFrame, Session, closed, start4}
use dvrbridge.Netdvr3.Loop
use dvrbridge.Netdvr3.Loop.Clean.{Sent, IsFrame, wire, stream, seen, session-stream}
use dvrbridge.Netdvr3.Header.{frame_header}
use dvrbridge.Device.{
  FakeDvr, Sender, first_sender, advance, due, drops_now, put_frame, send, passes, accepts, session,
}

-- `NetDvr3Driver.frames`: the preamble, then the frames; `none` is an error in the preamble
unfoldable pub drive : List Bytes → Option Session
drive chunks = elim (preamble_loop [] chunks) [
  | started pre buf rest ↦ some (Loop.session (buf, flatten rest))
  | no_header ↦ none
  | cut_off ↦ none
]

-- A device with no faults.
pub record IsSound (d : FakeDvr) : Type 0 where
  pub never_drops : d.drop_after_frames ≡ none
  pub no_garbage : d.garbage_every ≡ 0

abbrev pub sent_of : Sender → Bytes × Bool → Sent
sent_of s unit = record { seq = s.seq; ts_ms = s.ts; keyframe = unit.1; au = unit.0 }

-- The frames of `unit` and `units` but the last one, and that one.
abbrev pub frames_before : FakeDvr → Sender → Bytes × Bool → List (Bytes × Bool) → List Sent
frames_before d s unit [] = []
frames_before d s unit (next ∷ units) = sent_of s unit ∷ frames_before d (advance d s) next units

abbrev pub last_frame : FakeDvr → Sender → Bytes × Bool → List (Bytes × Bool) → Sent
last_frame d s unit [] = sent_of s unit
last_frame d s unit (next ∷ units) = last_frame d (advance d s) next units

-- An access unit that begins with a start code, and is not too long for the length field.
abbrev pub Fits : Bytes × Bool → Type 0
Fits unit = (starts_with start4 unit.0 ≡ true) × (length unit.0 < 2 ^ 16 + 4)

module _ (d : FakeDvr) (sound : IsSound d) where
  never_due : (n : ℕ) → due d n ≡ false
  unfolding due
  never_due n = ground (arith, sound.no_garbage)

  never_dropped : (n : ℕ) → drops_now d n ≡ false
  unfolding drops_now
  never_dropped n = rw (sound.never_drops, drops_now)

  put_frame-wire : (s : Sender) (unit : Bytes × Bool) → put_frame d s unit ≡ wire (sent_of s unit)
  unfolding put_frame
  put_frame-wire s unit = rw (never_due (s.sent + 1), append-nil unit.0)

  send-stream :
      (s : Sender) (unit : Bytes × Bool) (units : List (Bytes × Bool))
      → send d s (unit ∷ units) ≡ stream (frames_before d s unit units) (last_frame d s unit units)
  unfolding send
  send-stream s unit [] = rw (never_dropped (s.sent + 1), put_frame-wire s unit)
  send-stream s unit (next ∷ units) =
      let rest = send-stream (advance d s) next units in
      rw (never_dropped (s.sent + 1), put_frame-wire s unit, rest)

frames-IsFrame :
    (d : FakeDvr) (s : Sender) (unit : Bytes × Bool) (units : List (Bytes × Bool))
    → Fits unit
    → All Fits units
    → All IsFrame (frames_before d s unit units) × IsFrame (last_frame d s unit units)
frames-IsFrame d s unit [] f fs = (tt, record { starts = f.0; fits = f.1 })
frames-IsFrame d s unit (next ∷ units) f fs =
    let rest = frames-IsFrame d (advance d s) next units fs.0 fs.1 in
    ((record { starts = f.0; fits = f.1 }, rest.0), rest.1)

All-passes : (n : ℕ) (aus : List (Bytes × Bool)) → All Fits aus → All Fits (passes n aus)
All-passes zero aus h = tt
All-passes (suc n) aus h = All-append Fits aus (passes n aus) h (All-passes n aus h)

-- The bytes behind two openings of one length.
behind_eq : (a b x y : Bytes) → length a ≡ length b → a ++ x ≡ b ++ y → x ≡ y
behind_eq a b x y l e =
    sym (drop-append_length a x)
    ∙ ap (drop (length a)) e
    ∙ ap (λ n. drop n (b ++ y)) l
    ∙ drop-append_length b y

-- From a device with no faults, that sends a preamble of at most 64 KiB less 8 in which no magic begins, and
-- then access units that begin with a start code and fit the length field, the driver gets every unit but the last, however
-- the bytes are cut into non-empty chunks: each with its bytes, its time and its keyframe flag, with no resynchronization.
pub drive-send :
    (d : FakeDvr) (unit : Bytes × Bool) (units : List (Bytes × Bool)) (chunks : List Bytes)
    → IsSound d
    → Fits unit
    → All Fits units
    → All (λ c. is_nil c ≡ false) chunks
    → flatten chunks ≡ d.preamble ++ send d first_sender (unit ∷ units)
    → find magic (flatten chunks) ≡ some (length d.preamble + 4)
    → length d.preamble + 8 ≤ max_preamble
    → drive chunks
      ≡ some (record {
        frames = map seen (frames_before d first_sender unit units);
        resyncs = 0;
        ending = some closed;
      })
unfolding drive
drive-send d unit units chunks sound f fs ne whole first room = go (
    preamble_loop-Opened [] chunks (length d.preamble + 4) ne first (omega arith)
      (omega (arith, room)))
  where
    sent : Bytes
    sent = stream (frames_before d first_sender unit units) (last_frame d first_sender unit units)

    go :
        Opened (flatten chunks) (length d.preamble + 4) (preamble_loop [] chunks)
        → drive chunks
          ≡ some (record {
            frames = map seen (frames_before d first_sender unit units);
            resyncs = 0;
            ending = some closed;
          })
    go (opened pre buf rest is parts size magic_at) =
        let frames = frames-IsFrame d first_sender unit units f fs in
        let left : buf ++ flatten rest ≡ sent =
          behind_eq pre d.preamble (buf ++ flatten rest) sent (omega (arith, size)) (
            parts
            ∙ whole
            ∙ ap (λ t. d.preamble ++ t) (send-stream d sound first_sender unit units)) in
        rw (is, drive)
          (ap some (
            session-stream (frames_before d first_sender unit units)
              (last_frame d first_sender unit units) buf (flatten rest) frames.0 frames.1 left))

-- The device serves a request that it can read with its credentials and a channel of its.
accepts-Asks :
    (d : FakeDvr) (channel : ℕ) (substream : Bool) (pkt : Bytes)
    → Asks d.username d.password channel substream pkt
    → 1 ≤ channel
    → channel ≤ d.channels
    → accepts d pkt ≡ true
unfolding accepts
accepts-Asks d channel substream pkt a lo hi =
    let within : ltb (channel - 1) d.channels ≡ true = ground arith in
    rw (a.reads, a.opening, text_eq_refl d.username, text_eq_refl d.password, within) (ground arith)

-- Two results of one packet.
same_packet : (o : Option Bytes) (p q : Bytes) → o ≡ some p → o ≡ some q → p ≡ q
same_packet o p q e f = some-injective p q (sym e ∙ f)

-- What the first frame of a connection begins with: the sequence number, and the magic.
abbrev pub first_bytes : Bytes
first_bytes = 0 ∷ 0x0B ∷ 0 ∷ 0 ∷ magic

-- The first magic, if none begins in the preamble.
find-first_bytes :
    (d : FakeDvr) (unit : Bytes × Bool) (units : List (Bytes × Bool))
    → find magic (d.preamble ++ first_bytes) ≡ some (length d.preamble + 4)
    → find magic (d.preamble ++ send d first_sender (unit ∷ units)) ≡ some (length d.preamble + 4)
unfolding send put_frame frame_header
find-first_bytes d unit units first =
    let sent = send d first_sender (unit ∷ units) in
    ap (λ t. find magic (d.preamble ++ t)) (sym (take-append-drop 8 sent))
    ∙ ap (find magic) (sym (append_assoc d.preamble first_bytes (drop 8 sent)))
    ∙ find-append magic (d.preamble ++ first_bytes) (drop 8 sent) (length d.preamble + 4) first

-- The driver on a connection to the device, from the start packet to the frames. The device has no faults, its
-- user name has at most 31 bytes and its password at most 20, none of them NUL, and the channel is one of its channels
-- and at most 256. It sends a preamble of at most 64 KiB less 8, in which no magic begins, also before the bytes of the first frame
-- that follow it, and it has access units, which begin with a start code and are shorter than 64 KiB and 4.
-- Then the packet in which the driver asks with these credentials is served, and the driver gets, in any number of
-- passes, at least one, and however the bytes are cut into non-empty chunks, every unit but the last: with its bytes,
-- its time and its keyframe flag, and with no resynchronization.
pub drive-session :
    (d : FakeDvr) (unit : Bytes × Bool) (units : List (Bytes × Bool)) (channel : ℕ)
    (substream : Bool) (pkt : Bytes) (n : ℕ) (chunks : List Bytes)
    → IsSound d
    → d.aus ≡ unit ∷ units
    → All Fits (unit ∷ units)
    → IsText d.username
    → IsText d.password
    → length d.username ≤ 31
    → length d.password ≤ 20
    → 1 ≤ channel
    → channel ≤ 256
    → channel ≤ d.channels
    → build_start_stream d.username d.password channel substream ≡ some pkt
    → All (λ c. is_nil c ≡ false) chunks
    → flatten chunks ≡ session d pkt (suc n)
    → find magic (d.preamble ++ first_bytes) ≡ some (length d.preamble + 4)
    → length d.preamble + 8 ≤ max_preamble
    → drive chunks
      ≡ some (record {
        frames = map seen (frames_before d first_sender unit (units ++ passes n d.aus));
        resyncs = 0;
        ending = some closed;
      })
unfolding session
drive-session d unit units channel substream pkt n chunks sound are fits tu tp lu lp lo hi served
      sent ne whole first room =
    drive-send d unit (units ++ passes n d.aus) chunks sound fits.0
      (All-append Fits units (passes n d.aus) fits.1
        (All-passes n d.aus (subst (All Fits) (sym are) fits)))
      ne (whole ∙ opened_session)
      (ap (find magic) (whole ∙ opened_session)
        ∙ find-first_bytes d unit (units ++ passes n d.aus) first)
      room
  where
    asked :
        (q : Bytes) × (build_start_stream d.username d.password channel substream ≡ some q)
        × Asks d.username d.password channel substream q
    asked = build_start_stream-Asks d.username d.password channel substream tu tp lu lp lo hi

    asks : Asks d.username d.password channel substream pkt
    asks =
        subst (Asks d.username d.password channel substream)
          (same_packet _ asked.0 pkt asked.1 sent) asked.2

    opened_session :
        session d pkt (suc n) ≡ d.preamble ++ send d first_sender (unit ∷ (units ++ passes n d.aus))
    opened_session =
        ap (λ b. if b then d.preamble ++ send d first_sender (passes (suc n) d.aus) else [])
          (accepts-Asks d channel substream pkt asks lo served)
        ∙ ap (λ us. d.preamble ++ send d first_sender (us ++ passes n d.aus)) are
