-- ===== src/Rtp/Wire.antt =====
-- The packets that dvrbridge/rtsp/rtp.py puts on the wire, read back by `parse_rtp`: their headers,
-- their sizes and markers, and the packetizer's counters.
use dvrbridge.Base.{
  ℕ, ◌+◌, ◌*◌, ◌%◌, ◌^◌, ◌≤◌, ◌<◌, Bool, true, false, Option, none, some, List, [], ◌∷◌, ◌≡◌, refl,
  bit_and, if◌then◌else◌, Bytes, length, arith, All, all_below, eq_by_table, bit_and-ones,
}
use dvrbridge.Base.Struct.{of_be32-be32}
use dvrbridge.Rtp.{H264Packetizer, Out, packetize}
use dvrbridge.Rtp.Units.{
  IsReady, packet, packets, after, after_all, units, packetize-eq-packets, after_all-IsReady,
  after-IsReady,
}
use dvrbridge.Rtp.Fragments.{MarkedLast, MarkedLast-units, EndsWithByte, length-units}
use dvrbridge.Rtp.Receiver.{Message, parse_rtp}

-- What holds of the result, where the code returns one.
abbrev pub Returns : (Out → Type 0) → Option Out → Type 0
Returns P none = ⊥
Returns P (some o) = P o

pub Returns-packets :
    (P : Out → Type 0) (p : H264Packetizer) (nals : List Bytes) (ts : ℕ)
    → IsReady p
    → P (after_all p (units p.mtu nals), packets p ts (units p.mtu nals))
    → Returns P (packetize nals ts p)
Returns-packets P p nals ts r h = rw (packetize-eq-packets p nals ts r) h

abbrev pub message : H264Packetizer → ℕ → Bytes × Bool → Message
message p ts (payload, marker) = record {
  marker = marker;
  pt = p.pt;
  seq = p.seq;
  ts = ts % 2 ^ 32;
  ssrc = p.ssrc;
  payload = payload;
}

type_bits : (m : Bool) (pt : ℕ) → pt < 128 → bit_and ((if m then 128 else 0) + pt) 0x7F ≡ pt
type_bits true pt h = omega (arith, bit_and-ones 7 (128 + pt))
type_bits false pt h = omega (arith, bit_and-ones 7 (0 + pt))

marker_bit :
    (m : Bool) (pt : ℕ)
    → pt < 128
    → bit_and ((if m then 128 else 0) + pt) 0x80 ≡ (if m then 128 else 0)
unfolding all_below
marker_bit true pt h = eq_by_table 128 (λ x. bit_and (128 + x) 0x80) (λ x. 128) pt refl h
marker_bit false pt h = eq_by_table 128 (λ x. bit_and (0 + x) 0x80) (λ x. 0) pt refl h

-- A packet is read back as it was meant.
pub parse_rtp-packet :
    (p : H264Packetizer) (ts : ℕ) (u : Bytes × Bool)
    → IsReady p
    → parse_rtp (packet p ts u) ≡ some (message p ts u)
unfolding parse_rtp
parse_rtp-packet p ts (payload, m) r =
    rw
      (
        marker_bit m p.pt r.pt_range,
        type_bits m p.pt r.pt_range,
        of_be32-be32 p.ssrc,
        of_be32-be32 (ts % 2 ^ 32),
      )
      (ground arith)

-- Packet `i` and those behind it carry the header fields of one access unit, numbered from `i`.
abbrev pub Stamped : H264Packetizer → ℕ → ℕ → List Bytes → Type 0
Stamped p ts i [] = Unit
Stamped p ts i (pkt ∷ rest) =
    ((m : Message) × (parse_rtp pkt ≡ some m)
      × (m.seq ≡ (p.seq + i) % 2 ^ 16)
      × (m.ts ≡ ts % 2 ^ 32)
      × (m.ssrc ≡ p.ssrc)
      × (m.pt ≡ p.pt))
    × Stamped p ts (i + 1) rest

Stamped-packets :
    (p q : H264Packetizer) (ts i : ℕ) (us : List (Bytes × Bool))
    → IsReady q
    → q.seq ≡ (p.seq + i) % 2 ^ 16
    → q.ssrc ≡ p.ssrc
    → q.pt ≡ p.pt
    → Stamped p ts i (packets q ts us)
Stamped-packets p q ts i [] r e f g = tt
Stamped-packets p q ts i (u ∷ us) r e f g = (
  (message q ts u, parse_rtp-packet q ts u r, e, refl, f, g),
  Stamped-packets p (after q u.0) ts (i + 1) us (after-IsReady q u.0 r) (omega arith) f g,
)

-- Every packet of an access unit parses, with consecutive sequence numbers modulo 2^16 from the
-- packetizer's, and one timestamp, source and payload type.
pub packetize-Stamped :
    (p : H264Packetizer) (nals : List Bytes) (ts : ℕ)
    → IsReady p
    → Returns (λ o. Stamped p ts 0 o.1) (packetize nals ts p)
packetize-Stamped p nals ts r =
    Returns-packets _ p nals ts r
      (Stamped-packets p p ts 0 (units p.mtu nals) r (omega (arith, r.seq_range)) refl refl)

abbrev pub total_length : List Bytes → ℕ
total_length [] = 0
total_length (pkt ∷ rest) = length pkt + total_length rest

-- The packetizer `p'` has sent `out` since `p`.
pub record Counted (p : H264Packetizer) (p' : H264Packetizer) (out : List Bytes) : Type 0 where
  pub next_seq : p'.seq ≡ (p.seq + length out) % 2 ^ 16
  pub sent : p'.packets_sent ≡ p.packets_sent + length out
  pub octets : p'.octets_sent + 12 * length out ≡ p.octets_sent + total_length out

Counted-packets :
    (p : H264Packetizer) (ts : ℕ) (us : List (Bytes × Bool))
    → IsReady p
    → Counted p (after_all p us) (packets p ts us)
Counted-packets p ts [] r = record {
  next_seq = omega (arith, r.seq_range);
  sent = omega arith;
  octets = omega arith;
}
Counted-packets p ts (u ∷ us) r =
    let c = Counted-packets (after p u.0) ts us (after-IsReady p u.0 r) in
    record {
      next_seq = omega (arith, c.next_seq);
      sent = omega (arith, c.sent);
      octets = omega (arith, c.octets);
    }

-- Behind an access unit the packetizer is ready again, its next sequence number follows the last
-- packet's, and it has counted the packets and the bytes behind their 12-byte headers.
pub packetize-Counted :
    (p : H264Packetizer) (nals : List Bytes) (ts : ℕ)
    → IsReady p
    → Returns (λ o. IsReady o.0 × Counted p o.0 o.1) (packetize nals ts p)
packetize-Counted p nals ts r =
    Returns-packets _ p nals ts r
      (after_all-IsReady p (units p.mtu nals) r, Counted-packets p ts (units p.mtu nals) r)

pub length-packets :
    (mtu : ℕ) (p : H264Packetizer) (ts : ℕ) (us : List (Bytes × Bool))
    → All (λ (u : Bytes × Bool). length u.0 ≤ mtu) us
    → All (λ pkt. length pkt ≤ mtu + 12) (packets p ts us)
length-packets mtu p ts [] h = tt
length-packets mtu p ts (u ∷ us) h = (omega arith, length-packets mtu (after p u.0) ts us h.1)

-- No packet is longer than the MTU and the 12-byte header.
pub packetize-length :
    (p : H264Packetizer) (nals : List Bytes) (ts : ℕ)
    → IsReady p
    → Returns (λ o. All (λ pkt. length pkt ≤ p.mtu + 12) o.1) (packetize nals ts p)
packetize-length p nals ts r =
    Returns-packets _ p nals ts r
      (length-packets p.mtu p ts (units p.mtu nals) (length-units p.mtu nals r.mtu_room))

abbrev pub HasMarker : Bool → Bytes → Type 0
HasMarker b pkt = (m : Message) × (parse_rtp pkt ≡ some m) × (m.marker ≡ b)

-- The last packet has the marker bit, and no packet before it.
abbrev pub MarksEnd : List Bytes → Type 0
MarksEnd [] = ⊥
MarksEnd (pkt ∷ []) = HasMarker true pkt
MarksEnd (pkt ∷ next ∷ rest) = HasMarker false pkt × MarksEnd (next ∷ rest)

MarksEnd-packets :
    (p : H264Packetizer) (ts : ℕ) (us : List (Bytes × Bool))
    → IsReady p
    → MarkedLast us
    → MarksEnd (packets p ts us)
MarksEnd-packets p ts [] r h = absurd h
MarksEnd-packets p ts (u ∷ []) r h = (message p ts u, parse_rtp-packet p ts u r, h)
MarksEnd-packets p ts (u ∷ v ∷ us) r h = (
  (message p ts u, parse_rtp-packet p ts u r, h.0),
  MarksEnd-packets (after p u.0) ts (v ∷ us) (after-IsReady p u.0 r) h.1,
)

-- For an access unit whose last NAL is not empty the marker bit is on the last packet alone.
pub packetize-MarksEnd :
    (p : H264Packetizer) (nals : List Bytes) (ts : ℕ)
    → IsReady p
    → EndsWithByte nals
    → Returns (λ o. MarksEnd o.1) (packetize nals ts p)
packetize-MarksEnd p nals ts r h =
    Returns-packets _ p nals ts r
      (MarksEnd-packets p ts (units p.mtu nals) r (MarkedLast-units p.mtu nals r.mtu_room h))
