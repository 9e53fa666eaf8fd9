-- ===== src/Rtsp/Interleaved.antt =====
-- Interleaved packets of dvrbridge/rtsp/server.py: the framing in `_pump`, and the reading of a frame in
-- `_read_request`.
use dvrbridge.Base.{
  ℕ, ◌/◌, ◌%◌, ◌^◌, ◌<◌, true, ◌&&◌, Option, none, some, List, [], ◌∷◌, ◌++◌, ltb, leb, ◌==◌,
  if◌then◌else◌, Bytes, length, take, drop, guard, ◌>>=◌, ◌>>◌, length-append, take-append_length,
  drop-append_length, append_assoc, All, ◌≡◌, refl, ap, ◌∙◌, arith,
}
use dvrbridge.Base.Struct.{of_be16, be16, pack_be16}

-- the frames of an access unit; `none` is the `OverflowError` of `to_bytes`
unfoldable pub interleave : ℕ → List Bytes → Option Bytes
interleave ch [] = some []
interleave ch (pkt ∷ pkts) = do
  guard (ltb ch 256)
  len ← pack_be16 (length pkt)
  rest ← interleave ch pkts
  some (0x24 ∷ ch ∷ (len ++ (pkt ++ rest)))

-- one frame read off: its channel, its packet and what is behind; `none` is an end before its end,
-- or what is no frame. Two bytes never exceed the maximum.
unfoldable pub read_interleaved : Bytes → Option (ℕ × Bytes × Bytes)
read_interleaved (dollar ∷ ch ∷ hi ∷ lo ∷ more) =
    if (dollar == 0x24) && leb (of_be16 hi lo) (length more)
    then some (ch, take (of_be16 hi lo) more, drop (of_be16 hi lo) more)
    else none
read_interleaved _ = none

-- Frames of one channel that hold these packets, and what is behind them.
pub data Frames (ch : ℕ) (rest : Bytes) : List Bytes → Bytes → Type 0 where
  end : Frames ch rest [] rest
  next :
      (pkt : Bytes) (pkts : List Bytes) (b more : Bytes)
      → read_interleaved b ≡ some (ch, pkt, more)
      → Frames ch rest pkts more
      → Frames ch rest (pkt ∷ pkts) b

read_interleaved-be16 :
    (ch : ℕ) (pkt more : Bytes)
    → length pkt < 2 ^ 16
    → read_interleaved (0x24 ∷ ch ∷ (be16 (length pkt) ++ (pkt ++ more))) ≡ some (ch, pkt, more)
unfolding read_interleaved
read_interleaved-be16 ch pkt more h =
    let n : of_be16 (length pkt / 256) (length pkt % 256) ≡ length pkt = omega arith in
    let fits : leb (length pkt) (length (pkt ++ more)) ≡ true =
      ground (arith, length-append pkt more) in
    rw (n, fits, take-append_length pkt more, drop-append_length pkt more)

-- The packets of an access unit, each shorter than 64 KiB, on a channel that is a byte, are framed, and
-- read off one by one they are the same, with that channel, up to whatever follows.
pub interleave-Frames :
    (ch : ℕ) (pkts : List Bytes) (rest : Bytes)
    → ch < 256
    → All (λ pkt. length pkt < 2 ^ 16) pkts
    → (blob : Bytes) × (interleave ch pkts ≡ some blob) × Frames ch rest pkts (blob ++ rest)
unfolding interleave
interleave-Frames ch [] rest c h = ([], refl, end)
interleave-Frames ch (pkt ∷ pkts) rest c h =
    let (blob, is, frames) = interleave-Frames ch pkts rest c h.1 in
    let byte : ltb ch 256 ≡ true = ground arith in
    let short : ltb (length pkt) (2 ^ 16) ≡ true = ground (arith, h.0) in
    (
      0x24 ∷ ch ∷ (be16 (length pkt) ++ (pkt ++ blob)),
      rw (byte, short, is),
      next pkt pkts _ (blob ++ rest)
          (ap (λ t. read_interleaved (0x24 ∷ ch ∷ (be16 (length pkt) ++ t)))
              (append_assoc pkt blob rest)
            ∙ read_interleaved-be16 ch pkt (blob ++ rest) h.0)
          frames,
    )
