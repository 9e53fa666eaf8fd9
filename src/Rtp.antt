-- ===== src/Rtp.antt =====
-- dvrbridge/rtp: the packetizer of dvrbridge/rtsp/rtp.py. A method that appends to `out` takes and
-- returns the pair of the packetizer and `out`; `none` is an exception (a field out of the range of
-- `struct.pack`, or a step of zero in `range`).
pub mod Units
mod Fragments
pub mod Receiver
pub mod Wire
pub mod RoundTrip
pub mod Session
mod Tests
use dvrbridge.Base.{
  ℕ, zero, suc, ◌+◌, ◌-◌, ◌*◌, ◌/◌, Bool, ◌&&◌, Option, none, some, List, [], ◌∷◌, ◌++◌, bit_and,
  bit_or, ltb, leb, ◌==◌, if◌then◌else◌, ◌>>=◌, Bytes, length, take, drop, is_nil,
}
use dvrbridge.Base.Struct.{pack_u8, pack_be16, pack_be32}

abbrev pub rtp_version : ℕ
rtp_version = 2

abbrev pub fu_a : ℕ
fu_a = 28

pub record H264Packetizer : Type 0 where
  pub ssrc : ℕ
  pub pt : ℕ
  pub mtu : ℕ
  pub seq : ℕ
  pub packets_sent : ℕ
  pub octets_sent : ℕ

-- `__init__`
unfoldable pub new : ℕ → ℕ → ℕ → H264Packetizer
new ssrc payload_type mtu = record {
  ssrc = bit_and ssrc 0xFFFFFFFF;
  pt = payload_type;
  mtu = mtu;
  seq = 0;
  packets_sent = 0;
  octets_sent = 0;
}

abbrev pub default_payload_type : ℕ
default_payload_type = 96

abbrev pub default_mtu : ℕ
default_mtu = 1400

-- `struct.pack("!BBHII", …)`
pack_header : ℕ → ℕ → ℕ → ℕ → ℕ → Option Bytes
pack_header b1 b2 seq ts ssrc = do
  a ← pack_u8 b1
  b ← pack_u8 b2
  c ← pack_be16 seq
  d ← pack_be32 ts
  e ← pack_be32 ssrc
  some (a ++ (b ++ (c ++ (d ++ e))))

-- `_header`
pub header : Bool → ℕ → H264Packetizer → Option (Bytes × H264Packetizer)
unfolding pack_header
header marker ts p =
    let b1 = rtp_version * 64 in
    let b2 = bit_or (if marker then 0x80 else 0) p.pt in
    do
      hdr ← pack_header b1 b2 p.seq (bit_and ts 0xFFFFFFFF) p.ssrc
      some (hdr, record p { seq = bit_and (p.seq + 1) 0xFFFF })

-- The packetizer, and the list `out`.
abbrev pub Out : Type 0
Out = H264Packetizer × List Bytes

-- the rest of `_emit`, behind the call of `_header`
abbrev sent : Bytes → List Bytes → Bytes × H264Packetizer → Out
sent payload out (hdr, p) =
    let pkt = hdr ++ payload in
    (
      record p {
        packets_sent = p.packets_sent + 1;
        octets_sent = p.octets_sent + (length pkt - 12);
      },
      out ++ pkt ∷ [],
    )

-- `_emit`
pub emit : ℕ → Bytes × Bool → Out → Option Out
emit ts (payload, marker) (p, out) = do h ← header marker ts p; some (sent payload out h)

-- one FU-A payload and its marker: the body of the loop over `range(0, len(body), chunk)`
pub fragment : ℕ → ℕ → Bytes → ℕ → Bool → ℕ → Bytes × Bool
fragment indicator ntype body chunk last_nal off =
    let piece = take chunk (drop off body) in
    let start = off == 0 in
    let end = leb (length body) (off + chunk) in
    let fu_hdr = bit_or (bit_or (if start then 0x80 else 0) (if end then 0x40 else 0)) ntype in
    (indicator ∷ fu_hdr ∷ piece, last_nal && end)

-- that loop, by the rounds left
pub emit_fragments : ℕ → ℕ → Bytes → ℕ → Bool → ℕ → ℕ → ℕ → Out → Option Out
emit_fragments indicator ntype body chunk last_nal ts zero off o = some o
emit_fragments indicator ntype body chunk last_nal ts (suc k) off o = do
  o' ← emit ts (fragment indicator ntype body chunk last_nal off) o
  emit_fragments indicator ntype body chunk last_nal ts k (off + chunk) o'

-- `len(range(0, n, step))` for a positive step
pub range_length : ℕ → ℕ → ℕ
range_length n step = (n + step - 1) / step

-- the loop body of `packetize` for one NAL; a negative step gives an empty range
pub packetize_nal : ℕ → Bytes → Bool → Out → Option Out
packetize_nal ts [] last_nal o = some o
packetize_nal ts (first ∷ body) last_nal (p, out) =
    if leb (length (first ∷ body)) p.mtu
    then emit ts (first ∷ body, last_nal) (p, out)
    else if ltb p.mtu 2
    then some (p, out)
    else if p.mtu == 2
    then none
    else (let indicator = bit_or (bit_and first 0xE0) fu_a in
        let ntype = bit_and first 0x1F in
        let chunk = p.mtu - 2 in
        emit_fragments indicator ntype body chunk last_nal ts (range_length (length body) chunk) 0
          (p, out))

-- the loop of `packetize`; `i == len(nals) - 1` when nothing is left behind `nal`
pub packetize_onto : ℕ → List Bytes → Out → Option Out
packetize_onto ts [] o = some o
packetize_onto ts (nal ∷ rest) o = do
  o' ← packetize_nal ts nal (is_nil rest) o
  packetize_onto ts rest o'

-- `packetize`
unfoldable pub packetize : List Bytes → ℕ → H264Packetizer → Option Out
unfolding packetize_onto packetize_nal range_length emit_fragments fragment emit header
packetize nals ts90k p = packetize_onto ts90k nals (p, [])
