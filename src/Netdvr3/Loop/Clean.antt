-- ===== src/Netdvr3/Loop/Clean.antt =====
-- The frame loop of dvrbridge/drivers/netdvr3.py on a stream as the device sends it: headers made by
-- `frame_header` of dvrbridge/testing.py, each before its access unit.
use dvrbridge.Base.{
  ℕ, zero, suc, ◌+◌, ◌-◌, ◌*◌, ◌%◌, ◌^◌, ◌≤◌, ◌<◌, Bool, true, false, ◌||◌, Option, none, some,
  List, [], ◌∷◌, ◌++◌, ltb, leb, ◌==◌, if◌then◌else◌, Bytes, length, take, drop, starts_with, ◌≡◌,
  refl, sym, ap, ◌∙◌, arith, All, append_assoc, starts_with-length, Bool-cases, inl, inr, map,
  length-append, length-take, take-append, drop-append, take-append_length, drop-append_length,
  take-append-drop, length-drop, drop-drop,
}
use dvrbridge.H264.{iter_nals}
use dvrbridge.Netdvr3.{magic, frame_i, max_frame, FrameHeader, parse_frame_header}
use dvrbridge.Netdvr3.Header.{frame_header, parse_frame_header-frame_header}
use dvrbridge.Netdvr3.Loop.{
  VideoFrame, closed, Input, read, fill, yielded, ended, check_frame, read_frame, round, frame_loop,
  session, any_idr, start4,
}

-- What the device sends of a frame, and what the driver makes of it.
pub record Sent : Type 0 where
  pub seq : ℕ
  pub ts_ms : ℕ
  pub keyframe : Bool
  pub au : Bytes

abbrev pub wire : Sent → Bytes
wire f = frame_header f.seq f.ts_ms f.keyframe (length f.au) ++ f.au

abbrev pub wires : List Sent → Bytes
wires [] = []
wires (f ∷ fs) = wire f ++ wires fs

-- An access unit begins with a start code and fits the length field.
pub record IsFrame (f : Sent) : Type 0 where
  pub starts : starts_with start4 f.au ≡ true
  pub fits : length f.au < 2 ^ 16 + 4

abbrev pub seen : Sent → VideoFrame
seen f = record {
  payload = f.au;
  ts_ms = f.ts_ms % 2 ^ 32;
  keyframe = f.keyframe || any_idr (iter_nals f.au);
}

-- What is left to read, in the buffer and behind it.
abbrev pub Left : Bytes → Input → Type 0
Left w (buf, input) = buf ++ input ≡ w

-- A buffer filled, where there is enough.
record Filled (n : ℕ) (w : Bytes) (o : Option Input) : Type 0 where
  buf : Bytes
  input : Bytes
  is : o ≡ some (buf, input)
  left : buf ++ input ≡ w
  enough : n ≤ length buf

fill-Filled :
    (n : ℕ) (buf input w : Bytes)
    → buf ++ input ≡ w
    → n ≤ length w
    → Filled n w (fill n (buf, input))
unfolding fill read
fill-Filled n buf input w e h = elim (Bool-cases (ltb (length buf) n)) [
  | inr f ↦ rw f (record { buf = buf; input = input; is = refl; left = e; enough = ground arith })
  | inl f ↦
      let room : length w ≡ length buf + length input =
        sym (ap length e) ∙ length-append buf input in
      let enough : leb (n - length buf) (length input) ≡ true = ground arith in
      rw (f, enough)
        (record {
          buf = buf ++ take (n - length buf) input;
          input = drop (n - length buf) input;
          is = refl;
          left =
              append_assoc buf (take (n - length buf) input) (drop (n - length buf) input)
              ∙ ap (λ t. buf ++ t) (take-append-drop (n - length buf) input)
              ∙ e;
          enough = ground (
            arith,
            length-append buf (take (n - length buf) input),
            length-take (n - length buf) input,
          );
        })
]

fill-none :
    (n : ℕ) (buf input w : Bytes) → buf ++ input ≡ w → length w < n → fill n (buf, input) ≡ none
unfolding fill read
fill-none n buf input w e h = ground (arith, sym (ap length e) ∙ length-append buf input)

-- Enough of a buffer is read as if all were there.
ahead :
    (n : ℕ) (b i w : Bytes)
    → b ++ i ≡ w
    → n ≤ length b
    → (take n b ≡ take n w) × (drop n b ++ i ≡ drop n w)
ahead n b i w e h =
    (sym (take-append n b i h) ∙ ap (take n) e, sym (drop-append n b i h) ∙ ap (drop n) e)

module _ (f : Sent) (ok : IsFrame f) (rest : Bytes) where
  abbrev whole : Bytes
  whole = wire f ++ rest

  abbrev parsed : FrameHeader
  parsed = record {
    seq = f.seq % 2 ^ 32;
    ts_ms = f.ts_ms % 2 ^ 32;
    ftype = if f.keyframe then 0x64 else 0x66;
    payload_len = length f.au;
  }

  whole-drop : drop 24 whole ≡ f.au ++ rest
  unfolding frame_header
  whole-drop = refl

  whole-parse : parse_frame_header (take 24 whole) ≡ some parsed
  unfolding frame_header
  whole-parse =
      parse_frame_header-frame_header f.seq f.ts_ms f.keyframe (length f.au) []
        (starts_with-length start4 f.au ok.starts) ok.fits

  whole-length : length whole ≡ 24 + length f.au + length rest
  unfolding frame_header
  whole-length = omega (arith, length-append f.au rest)

  -- The fields of a buffer that reaches to the next magic.
  record Fields (b i : Bytes) : Type 0 where
    payload_is : take (length f.au) (drop 24 b) ≡ f.au
    next_is : take 8 (drop (24 + length f.au) b) ≡ take 8 rest
    behind_is : drop (24 + length f.au) b ++ i ≡ rest

  whole-Fields : (b i : Bytes) → b ++ i ≡ whole → 24 + length f.au + 8 ≤ length b → Fields b i
  whole-Fields b i e h =
      let n = length f.au in
      let body = (ahead 24 b i whole e (omega arith)).1 ∙ whole-drop in
      let split = ahead n (drop 24 b) i (f.au ++ rest) body (omega (arith, length-drop 24 b)) in
      let behind : drop (24 + n) b ++ i ≡ rest =
        ap (λ t. t ++ i) (sym (drop-drop 24 n (24 + n) b refl))
        ∙ split.1
        ∙ drop-append_length f.au rest in
      record {
        payload_is = split.0 ∙ take-append_length f.au rest;
        next_is =
            (ahead 8 (drop (24 + n) b) i rest behind (omega (arith, length-drop (24 + n) b))).0;
        behind_is = behind;
      }

  key_type : (k : Bool) → ((if k then 0x64 else 0x66) == frame_i) ≡ k
  key_type true = refl
  key_type false = refl

  -- The frame in a buffer that reaches to the next magic.
  check_frame-whole :
      (b i : Bytes)
      → b ++ i ≡ whole
      → 24 + length f.au + 8 ≤ length b
      → starts_with magic (drop 4 (take 8 rest)) ≡ true
      → (b' : Bytes) × (check_frame parsed (b, i) ≡ yielded (seen f) (b', i)) × (b' ++ i ≡ rest)
  unfolding check_frame
  check_frame-whole b i e h m =
      let fields = whole-Fields b i e h in
      (
        drop (24 + length f.au) b,
        rw (fields.payload_is, fields.next_is, ok.starts, m, key_type f.keyframe),
        fields.behind_is,
      )

  -- The round that reads the frame, when the bytes behind it are those of a next header.
  round-whole :
      (b i : Bytes)
      → b ++ i ≡ whole
      → 8 ≤ length rest
      → starts_with magic (drop 4 (take 8 rest)) ≡ true
      → (b' : Bytes) × (i' : Bytes) × (round (b, i) ≡ yielded (seen f) (b', i')) × (b' ++ i' ≡ rest)
  unfolding round read_frame
  round-whole b i e h m =
      let one = fill-Filled 24 b i whole e (omega (arith, whole-length)) in
      let header =
        ap parse_frame_header (ahead 24 one.buf one.input whole one.left one.enough).0
        ∙ whole-parse in
      let two =
        fill-Filled (24 + length f.au + 8) one.buf one.input whole one.left
          (omega (arith, whole-length)) in
      let small : ltb max_frame (length f.au) ≡ false = ground (arith, ok.fits) in
      let (b', is, left) = check_frame-whole two.buf two.input two.left two.enough m in
      (b', two.input, rw (one.is, round, header, read_frame, small, two.is) is, left)

  -- The round that waits for a next header in vain.
  round-last : (b i : Bytes) → b ++ i ≡ whole → length rest < 8 → round (b, i) ≡ ended
  unfolding round read_frame
  round-last b i e h =
      let one = fill-Filled 24 b i whole e (omega (arith, whole-length)) in
      let header =
        ap parse_frame_header (ahead 24 one.buf one.input whole one.left one.enough).0
        ∙ whole-parse in
      let small : ltb max_frame (length f.au) ≡ false = ground (arith, ok.fits) in
      rw (one.is, round, header, read_frame, small)
        (rw (
          fill-none (24 + length f.au + 8) one.buf one.input whole one.left
            (omega (arith, whole-length))))

-- The bytes of the frames `fs` and a last one.
abbrev pub stream : List Sent → Sent → Bytes
stream [] last = wire last ++ []
stream (f ∷ fs) last = wire f ++ stream fs last

stream-length : (fs : List Sent) (last : Sent) → 24 * suc (length fs) ≤ length (stream fs last)
unfolding frame_header
stream-length [] last = omega (arith, length-append last.au [])
stream-length (f ∷ fs) last =
    omega (arith, length-append f.au (stream fs last), stream-length fs last)

stream-magic :
    (fs : List Sent) (last : Sent) → starts_with magic (drop 4 (take 8 (stream fs last))) ≡ true
unfolding frame_header starts_with
stream-magic [] last = refl
stream-magic (f ∷ fs) last = refl

frame_loop-stream :
    (fs : List Sent) (last : Sent) (fuel : ℕ) (b i : Bytes)
    → All IsFrame fs
    → IsFrame last
    → b ++ i ≡ stream fs last
    → length fs < fuel
    → frame_loop fuel (b, i) ≡ record { frames = map seen fs; resyncs = 0; ending = some closed }
unfolding frame_loop
frame_loop-stream fs last zero b i oks ok e h = absurd (omega arith)
frame_loop-stream [] last (suc fuel) b i oks ok e h =
    rw (round-last last ok [] b i e (omega arith), frame_loop)
frame_loop-stream (f ∷ fs) last (suc fuel) b i oks ok e h =
    let (b', i', is, left) =
      round-whole f oks.0 (stream fs last) b i e (omega (arith, stream-length fs last))
        (stream-magic fs last) in
    let rest = frame_loop-stream fs last fuel b' i' oks.1 ok left (omega arith) in
    rw (is, frame_loop, rest)

-- A connection that brings whole frames, each as the device sends it, its access unit beginning with a
-- start code and no longer than the length field allows, however they are cut between
-- the buffer and what is still to come: the driver yields every frame but the last, with its access
-- unit, timestamp and keyframe flag, never resynchronizes, and ends when the device closes.
pub session-stream :
    (fs : List Sent) (last : Sent) (b i : Bytes)
    → All IsFrame fs
    → IsFrame last
    → b ++ i ≡ stream fs last
    → session (b, i) ≡ record { frames = map seen fs; resyncs = 0; ending = some closed }
unfolding session
session-stream fs last b i oks ok e =
    frame_loop-stream fs last (suc (length b + length i)) b i oks ok e
      (omega (arith, stream-length fs last, ap length e, length-append b i))
