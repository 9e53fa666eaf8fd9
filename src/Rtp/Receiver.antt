-- ===== src/Rtp/Receiver.antt =====
-- The receiver that the tests of the packetizer use (tests/test_rtp.py): `parse_rtp` and
-- `depacketize`. A failed assertion or an index out of range is `none`.
use dvrbridge.Base.{
  ℕ, ◌/◌, Bool, not, Option, none, some, List, [], ◌∷◌, ◌++◌, bit_and, bit_or, ◌==◌, if◌then◌else◌,
  ◌>>=◌, ◌>>◌, guard, Bytes,
}
use dvrbridge.Base.Struct.{of_be16, of_be32}
use dvrbridge.Rtp.{fu_a}

-- the dictionary that `parse_rtp` returns
pub record Message : Type 0 where
  pub marker : Bool
  pub pt : ℕ
  pub seq : ℕ
  pub ts : ℕ
  pub ssrc : ℕ
  pub payload : Bytes

unfoldable pub parse_rtp : Bytes → Option Message
parse_rtp (b1 ∷ b2 ∷ s1 ∷ s2 ∷ t1 ∷ t2 ∷ t3 ∷ t4 ∷ c1 ∷ c2 ∷ c3 ∷ c4 ∷ payload) = do
  guard (b1 / 64 == 2)
  guard (bit_and b1 0x20 == 0)
  guard (bit_and b1 0x0F == 0)
  some (record {
    marker = not (bit_and b2 0x80 == 0);
    pt = bit_and b2 0x7F;
    seq = of_be16 s1 s2;
    ts = of_be32 t1 t2 t3 t4;
    ssrc = of_be32 c1 c2 c3 c4;
    payload = payload;
  })
parse_rtp _ = none

-- `nals`, and `fu`: the NAL under assembly
abbrev pub Assembly : Type 0
Assembly = List Bytes × Option Bytes

-- `fu += p[2:]`, behind the assertion that a start was seen
extend : List Bytes → ℕ → Bytes → Option Bytes → Option Assembly
extend nals fu_hdr piece none = none
extend nals fu_hdr piece (some fu) =
    if bit_and fu_hdr 0x40 == 0
    then some (nals, some (fu ++ piece))
    else some (nals ++ (fu ++ piece) ∷ [], none)

-- the branch of an FU-A payload
receive_fragment : ℕ → Bytes → Assembly → Option Assembly
receive_fragment indicator [] a = none
receive_fragment indicator (fu_hdr ∷ piece) (nals, fu) =
    let started = bit_or (bit_and indicator 0xE0) (bit_and fu_hdr 0x1F) ∷ [] in
    extend nals fu_hdr piece (if bit_and fu_hdr 0x80 == 0 then fu else some started)

-- the body of the loop, on the payload
unfoldable pub receive : Bytes → Assembly → Option Assembly
unfolding extend receive_fragment
receive [] a = none
receive (first ∷ rest) (nals, fu) =
    if bit_and first 0x1F == fu_a
    then receive_fragment first rest (nals, fu)
    else some (nals ++ (first ∷ rest) ∷ [], fu)

unfoldable pub receive_all : List Bytes → Assembly → Option Assembly
receive_all [] a = some a
receive_all (pkt ∷ rest) a = do m ← parse_rtp pkt; a' ← receive m.payload a; receive_all rest a'

finished : Assembly → Option (List Bytes)
finished (nals, none) = some nals
finished (nals, some fu) = none

unfoldable pub depacketize : List Bytes → Option (List Bytes)
unfolding receive_all receive parse_rtp finished
depacketize packets = do a ← receive_all packets ([], none); finished a
