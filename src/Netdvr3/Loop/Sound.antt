-- ===== src/Netdvr3/Loop/Sound.antt =====
-- The frame loop of dvrbridge/drivers/netdvr3.py on any bytes.
use dvrbridge.Base.{
  ℕ, zero, suc, ◌+◌, ◌-◌, ◌≤◌, ◌<◌, true, Option, none, some, ltb, Bytes, length, take, drop,
  starts_with, ◌≡◌, ◌≢◌, refl, subst, ◌∙◌, arith, All, length-drop, Bool-cases, inl, inr,
}
use dvrbridge.Netdvr3.{magic, header_len, max_frame, FrameHeader, parse_frame_header}
use dvrbridge.Netdvr3.Loop.{
  Input, fill, Step, go_on, failed, out_of_fuel, resync, Round, yielded, desync, ended, check_frame,
  read_frame, round, Session, frame_loop, session, start4, stop, with_resync,
}
use dvrbridge.Netdvr3.Loop.Resync.{size, Fills, fill-Fills, Resyncs, resync-Resyncs}

-- A round ends the connection, or leaves fewer than `n` bytes; what it yields begins with a start code.
abbrev Rounds : ℕ → Round → Type 0
Rounds n (yielded f r) = (size r < n) × (starts_with start4 f.payload ≡ true)
Rounds n (desync s) = (4 ≤ n) × Resyncs (n - 4) s
Rounds n ended = Unit

resync-Rounds :
    (n : ℕ) (buf input : Bytes)
    → length buf + length input ≡ n
    → 4 ≤ length buf
    → Rounds n (desync (resync (buf, input)))
resync-Rounds n buf input e h = (
  omega (arith, e, h),
  subst (λ k. Resyncs (k - 4) (resync (buf, input))) e (resync-Resyncs buf input h),
)

check_frame-Rounds :
    (n : ℕ) (h : FrameHeader) (buf input : Bytes)
    → length buf + length input ≡ n
    → header_len + h.payload_len + 8 ≤ length buf
    → Rounds n (check_frame h (buf, input))
unfolding check_frame
check_frame-Rounds n h buf input e l =
    elim (Bool-cases (starts_with start4 (take h.payload_len (drop header_len buf)))) [
      | inr p ↦ rw p (resync-Rounds n buf input e (omega arith))
      | inl p ↦
          elim (Bool-cases
            (starts_with magic (drop 4 (take 8 (drop (header_len + h.payload_len) buf))))) [
              | inr q ↦ rw (p, q) (resync-Rounds n buf input e (omega arith))
              | inl q ↦ rw (p, q) (omega (arith, length-drop (header_len + h.payload_len) buf), p)
            ]
    ]

read_frame-Rounds :
    (n : ℕ) (o : Option FrameHeader) (buf input : Bytes)
    → length buf + length input ≡ n
    → header_len ≤ length buf
    → Rounds n (read_frame o (buf, input))
unfolding read_frame
read_frame-Rounds n none buf input e l = resync-Rounds n buf input e (omega arith)
read_frame-Rounds n (some h) buf input e l = elim (Bool-cases (ltb max_frame h.payload_len)) [
  | inl t ↦ rw t (resync-Rounds n buf input e (omega arith))
  | inr t ↦ rw t (
      go (fill (header_len + h.payload_len + 8) (buf, input))
        (fill-Fills (header_len + h.payload_len + 8) buf input))
]
  where
    go :
        (r : Option Input)
        → Fills (header_len + h.payload_len + 8) (buf, input) r
        → Rounds n (elim r [ none ↦ ended | some r' ↦ check_frame h r' ])
    go none f = tt
    go (some (b, i)) f = check_frame-Rounds n h b i (f.0 ∙ e) f.1

round-Rounds : (buf input : Bytes) → Rounds (length buf + length input) (round (buf, input))
unfolding round
round-Rounds buf input = go (fill header_len (buf, input)) (fill-Fills header_len buf input)
  where
    go :
        (r : Option Input)
        → Fills header_len (buf, input) r
        → Rounds (length buf + length input) (elim r [
          | none ↦ ended
          | some (b, i) ↦ read_frame (parse_frame_header (take header_len b)) (b, i)
        ])
    go none f = tt
    go (some (b, i)) f =
        read_frame-Rounds (length buf + length input) (parse_frame_header (take header_len b)) b i
          f.0 f.1

-- A session that ended, and yielded access units only.
pub record Sound (s : Session) : Type 0 where
  pub has_ended : s.ending ≢ none
  pub units : All (λ f. starts_with start4 f.payload ≡ true) s.frames

module _ (fuel : ℕ)
    (ih : (b i : Bytes) → length b + length i < fuel → Sound (frame_loop fuel (b, i))) where
  desync-Sound :
      (n : ℕ) (x : Step)
      → n < suc fuel
      → 4 ≤ n
      → Resyncs (n - 4) x
      → Sound (elim x [
        | failed e ↦ with_resync (stop (some e))
        | out_of_fuel ↦ stop none
        | go_on r' ↦ with_resync (frame_loop fuel r')
      ])
  desync-Sound n (failed e) h l k = record { has_ended = λ q. cc q; units = tt }
  desync-Sound n out_of_fuel h l k = absurd k
  desync-Sound n (go_on (b, i)) h l k =
      let rest = ih b i (omega (arith, h, l, k)) in
      record { has_ended = rest.has_ended; units = rest.units }

  continue-Sound :
      (r : Input) (x : Round)
      → round r ≡ x
      → size r < suc fuel
      → Rounds (size r) x
      → Sound (frame_loop (suc fuel) r)
  unfolding frame_loop
  continue-Sound r ended e h k = rw (e, frame_loop) (record { has_ended = λ q. cc q; units = tt })
  continue-Sound r (desync x) e h k = rw (e, frame_loop) (desync-Sound (size r) x h k.0 k.1)
  continue-Sound r (yielded f (b, i)) e h k =
      let rest = ih b i (omega (arith, h, k.0)) in
      rw (e, frame_loop) (record { has_ended = rest.has_ended; units = (k.1, rest.units) })

frame_loop-Sound :
    (fuel : ℕ) (buf input : Bytes)
    → length buf + length input < fuel
    → Sound (frame_loop fuel (buf, input))
frame_loop-Sound zero buf input h = absurd (omega arith)
frame_loop-Sound (suc fuel) buf input h =
    continue-Sound fuel (frame_loop-Sound fuel) (buf, input) (round (buf, input)) refl h
      (round-Rounds buf input)

-- Whatever bytes come, and however they are cut: the loop ends, for one of its two reasons, and every
-- payload that it yields begins with the four-byte start code.
pub session-Sound : (buf input : Bytes) → Sound (session (buf, input))
unfolding session
session-Sound buf input = frame_loop-Sound (suc (length buf + length input)) buf input (omega arith)
