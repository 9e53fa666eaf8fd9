-- ===== src/Rtp/Units.antt =====
-- What `packetize` of dvrbridge/rtsp/rtp.py sends, with no state: the payloads with their markers,
-- the packet of each, and the packetizer behind them.
use dvrbridge.Base.{
  ℕ, zero, suc, ◌+◌, ◌-◌, ◌%◌, ◌^◌, ◌<◌, Bool, true, false, Option, some, List, [], ◌∷◌, ◌++◌, ◌≡◌,
  refl, ◌∙◌, ap, append_assoc, append-nil, bit_and, bit_or, leb, if◌then◌else◌, ◌>>=◌, Bytes,
  length, is_nil, arith, bit_and-0xFFFF, bit_and-0xFFFFFFFF, all_below, eq_by_table,
}
use dvrbridge.Base.Struct.{be16, be32}
use dvrbridge.Rtp.{
  H264Packetizer, fu_a, new, header, Out, emit, fragment, emit_fragments, range_length,
  packetize_nal, packetize_onto, packetize,
}

-- The fields are in the ranges of the RTP header, and a fragment can hold a byte.
pub record IsReady (p : H264Packetizer) : Type 0 where
  pub mtu_room : 2 < p.mtu
  pub pt_range : p.pt < 128
  pub seq_range : p.seq < 2 ^ 16
  pub ssrc_range : p.ssrc < 2 ^ 32

pub IsReady-new : (ssrc pt mtu : ℕ) → 2 < mtu → pt < 128 → IsReady (new ssrc pt mtu)
unfolding new
IsReady-new ssrc pt mtu hm hp = record {
  mtu_room = hm;
  pt_range = hp;
  seq_range = omega arith;
  ssrc_range = omega (arith, bit_and-0xFFFFFFFF ssrc);
}

-- The packet of one payload, byte by byte.
abbrev pub packet : H264Packetizer → ℕ → Bytes × Bool → Bytes
packet p ts (payload, marker) =
    128
    ∷ ((if marker then 128 else 0) + p.pt)
    ∷ (be16 p.seq ++ (be32 (ts % 2 ^ 32) ++ (be32 p.ssrc ++ payload)))

abbrev pub after : H264Packetizer → Bytes → H264Packetizer
after p payload = record p {
  seq = (p.seq + 1) % 2 ^ 16;
  packets_sent = p.packets_sent + 1;
  octets_sent = p.octets_sent + length payload;
}

marker_byte :
    (m : Bool) (pt : ℕ) → pt < 128 → bit_or (if m then 0x80 else 0) pt ≡ (if m then 128 else 0) + pt
unfolding all_below
marker_byte true pt h = eq_by_table 128 (bit_or 0x80) (λ x. 128 + x) pt refl h
marker_byte false pt h = eq_by_table 128 (bit_or 0) (λ x. 0 + x) pt refl h

abbrev hdr_of : H264Packetizer → ℕ → Bool → Bytes
hdr_of p ts marker = packet p ts ([], marker)

header_lem :
    (p : H264Packetizer) (ts : ℕ) (m : Bool)
    → IsReady p
    → header m ts p ≡ some (hdr_of p ts m, record p { seq = (p.seq + 1) % 2 ^ 16 })
unfolding header
header_lem p ts m r =
    rw (marker_byte m p.pt r.pt_range, bit_and-0xFFFFFFFF, bit_and-0xFFFF) (ground arith)

pub emit_lem :
    (p : H264Packetizer) (ts : ℕ) (u : Bytes × Bool) (out : List Bytes)
    → IsReady p
    → emit ts u (p, out) ≡ some (after p u.0, out ++ packet p ts u ∷ [])
unfolding emit
emit_lem p ts (payload, m) out r = rw (header_lem p ts m r) (ground arith)

pub after-IsReady : (p : H264Packetizer) (payload : Bytes) → IsReady p → IsReady (after p payload)
after-IsReady p payload r = record {
  mtu_room = r.mtu_room;
  pt_range = r.pt_range;
  seq_range = omega arith;
  ssrc_range = r.ssrc_range;
}

abbrev pub after_all : H264Packetizer → List (Bytes × Bool) → H264Packetizer
after_all p [] = p
after_all p (u ∷ us) = after_all (after p u.0) us

abbrev pub packets : H264Packetizer → ℕ → List (Bytes × Bool) → List Bytes
packets p ts [] = []
packets p ts (u ∷ us) = packet p ts u ∷ packets (after p u.0) ts us

pub after_all-IsReady :
    (p : H264Packetizer) (us : List (Bytes × Bool)) → IsReady p → IsReady (after_all p us)
after_all-IsReady p [] r = r
after_all-IsReady p (u ∷ us) r = after_all-IsReady (after p u.0) us (after-IsReady p u.0 r)

mtu-after_all : (p : H264Packetizer) (us : List (Bytes × Bool)) → (after_all p us).mtu ≡ p.mtu
mtu-after_all p [] = refl
mtu-after_all p (u ∷ us) = mtu-after_all (after p u.0) us

after_all-append :
    (p : H264Packetizer) (us vs : List (Bytes × Bool))
    → after_all p (us ++ vs) ≡ after_all (after_all p us) vs
after_all-append p [] vs = refl
after_all-append p (u ∷ us) vs = after_all-append (after p u.0) us vs

packets-append :
    (p : H264Packetizer) (ts : ℕ) (us vs : List (Bytes × Bool))
    → packets p ts (us ++ vs) ≡ packets p ts us ++ packets (after_all p us) ts vs
packets-append p ts [] vs = refl
packets-append p ts (u ∷ us) vs = ap (◌∷◌ (packet p ts u)) (packets-append (after p u.0) ts us vs)

-- `f` sends exactly these payloads.
abbrev Sends : ℕ → ℕ → (Out → Option Out) → List (Bytes × Bool) → Type 0
Sends ts mtu f us =
    (p : H264Packetizer) (out : List Bytes)
    → IsReady p
    → p.mtu ≡ mtu
    → f (p, out) ≡ some (after_all p us, out ++ packets p ts us)

module _ (ts mtu : ℕ) where
  Sends-nothing : Sends ts mtu (λ o. some o) []
  Sends-nothing p out r e = rw append-nil

  Sends-emit : (u : Bytes × Bool) → Sends ts mtu (emit ts u) (u ∷ [])
  Sends-emit u p out r e = emit_lem p ts u out r

  Sends-bind :
      (f g : Out → Option Out) (us vs : List (Bytes × Bool))
      → Sends ts mtu f us
      → Sends ts mtu g vs
      → Sends ts mtu (λ o. f o >>= g) (us ++ vs)
  Sends-bind f g us vs hf hg p out r e = rw (hf p out r e) (
      hg (after_all p us) (out ++ packets p ts us) (after_all-IsReady p us r)
        (mtu-after_all p us ∙ e)
      ∙ simp (after_all-append, packets-append, append_assoc))

-- The fragments of one NAL, by the rounds left.
unfoldable pub fragments : ℕ → ℕ → Bytes → ℕ → Bool → ℕ → ℕ → List (Bytes × Bool)
fragments indicator ntype body chunk last_nal zero off = []
fragments indicator ntype body chunk last_nal (suc k) off =
    fragment indicator ntype body chunk last_nal off
    ∷ fragments indicator ntype body chunk last_nal k (off + chunk)

unfoldable pub nal_units : ℕ → Bytes → Bool → List (Bytes × Bool)
nal_units mtu [] last_nal = []
nal_units mtu (first ∷ body) last_nal =
    if leb (length (first ∷ body)) mtu
    then (first ∷ body, last_nal) ∷ []
    else fragments (bit_or (bit_and first 0xE0) fu_a) (bit_and first 0x1F) body (mtu - 2) last_nal
        (range_length (length body) (mtu - 2)) 0

unfoldable pub units : ℕ → List Bytes → List (Bytes × Bool)
units mtu [] = []
units mtu (nal ∷ rest) = nal_units mtu nal (is_nil rest) ++ units mtu rest

module _ (ts mtu : ℕ) where
  emit_fragments-Sends :
      (indicator ntype : ℕ) (body : Bytes) (chunk : ℕ) (last_nal : Bool) (k off : ℕ)
      → Sends ts mtu
          (emit_fragments indicator ntype body chunk last_nal ts k off)
          (fragments indicator ntype body chunk last_nal k off)
  unfolding emit_fragments fragments
  emit_fragments-Sends i n body chunk l zero off = Sends-nothing ts mtu
  emit_fragments-Sends i n body chunk l (suc k) off =
      let u = fragment i n body chunk l off in
      Sends-bind ts mtu (emit ts u) (emit_fragments i n body chunk l ts k (off + chunk)) (u ∷ [])
        (fragments i n body chunk l k (off + chunk)) (Sends-emit ts mtu u)
        (emit_fragments-Sends i n body chunk l k (off + chunk))

  packetize_nal-Sends :
      (nal : Bytes) (last_nal : Bool)
      → Sends ts mtu (packetize_nal ts nal last_nal) (nal_units mtu nal last_nal)
  unfolding packetize_nal nal_units
  packetize_nal-Sends [] l p out r e = Sends-nothing ts mtu p out r e
  packetize_nal-Sends (first ∷ body) l p out r e = ground (
    arith,
    emit_lem p ts (first ∷ body, l) out r,
    emit_fragments-Sends (bit_or (bit_and first 0xE0) fu_a) (bit_and first 0x1F) body (mtu - 2) l
        (range_length (length body) (mtu - 2)) 0 p out r e,
  )

  packetize_onto-Sends :
      (nals : List Bytes) → Sends ts mtu (packetize_onto ts nals) (units mtu nals)
  unfolding packetize_onto units
  packetize_onto-Sends [] = Sends-nothing ts mtu
  packetize_onto-Sends (nal ∷ rest) =
      Sends-bind ts mtu (packetize_nal ts nal (is_nil rest)) (packetize_onto ts rest)
        (nal_units mtu nal (is_nil rest)) (units mtu rest) (packetize_nal-Sends nal (is_nil rest))
        (packetize_onto-Sends rest)

-- A ready packetizer sends the packets of the units, and raises nothing.
pub packetize-eq-packets :
    (p : H264Packetizer) (nals : List Bytes) (ts : ℕ)
    → IsReady p
    → packetize nals ts p ≡ some (after_all p (units p.mtu nals), packets p ts (units p.mtu nals))
unfolding packetize
packetize-eq-packets p nals ts r = packetize_onto-Sends ts p.mtu nals p [] r refl
