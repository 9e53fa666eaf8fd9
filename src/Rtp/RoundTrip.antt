-- ===== src/Rtp/RoundTrip.antt =====
-- The packetizer of dvrbridge/rtsp/rtp.py against the receiver of its tests.
use dvrbridge.Base.{
  ℕ, zero, suc, ◌+◌, ◌-◌, ◌*◌, ◌≤◌, ◌<◌, Bool, true, false, Option, none, some, List, [], ◌∷◌, ◌++◌,
  ◌≡◌, ◌≢◌, drop-drop, refl, sym, ◌∙◌, ap, append_assoc, append-nil, bit_and, bit_or, leb, ◌==◌,
  if◌then◌else◌, ◌>>=◌, Bytes, length, take, drop, is_nil, arith, All, all_below, eq_by_table,
  take_all, take-append-drop, length-drop, Bool-cases, inl, inr, bind_cong, bind_assoc,
}
use dvrbridge.Rtp.{H264Packetizer, fu_a, packetize, fragment}
use dvrbridge.Rtp.Units.{IsReady, packets, after, units, nal_units, fragments, after-IsReady}
use dvrbridge.Rtp.Fragments.{Rounds-of_long, last_ends, more_to_come}
use dvrbridge.Rtp.Receiver.{receive, receive_all, depacketize, Assembly}
use dvrbridge.Rtp.Wire.{Returns, Returns-packets, parse_rtp-packet}

pub receive_units : List (Bytes × Bool) → Assembly → Option Assembly
receive_units [] a = some a
receive_units (u ∷ us) a = do a' ← receive u.0 a; receive_units us a'

pub receive_all-packets :
    (p : H264Packetizer) (ts : ℕ) (us : List (Bytes × Bool)) (a : Assembly)
    → IsReady p
    → receive_all (packets p ts us) a ≡ receive_units us a
unfolding receive_all receive_units
receive_all-packets p ts [] a r = refl
receive_all-packets p ts (u ∷ us) a r = rw (parse_rtp-packet p ts u r) (
    bind_cong (receive u.0 a) _ _
      (λ a'. receive_all-packets (after p u.0) ts us a' (after-IsReady p u.0 r)))

receive_units-append :
    (us vs : List (Bytes × Bool)) (a : Assembly)
    → receive_units (us ++ vs) a ≡ (receive_units us a >>= receive_units vs)
unfolding receive_units
receive_units-append [] vs a = refl
receive_units-append (u ∷ us) vs a =
    bind_cong (receive u.0 a) _ _ (λ a'. receive_units-append us vs a')
    ∙ sym (bind_assoc (receive u.0 a) (receive_units us) (receive_units vs))

-- The two bytes before a fragment's piece.
abbrev indicator_of : ℕ → ℕ
indicator_of first = bit_or (bit_and first 0xE0) fu_a

abbrev fu_hdr_of : Bool → Bool → ℕ → ℕ
fu_hdr_of start end first =
    bit_or (bit_or (if start then 0x80 else 0) (if end then 0x40 else 0)) (bit_and first 0x1F)

indicator_is_fu : (x : ℕ) → x < 256 → bit_and (indicator_of x) 0x1F ≡ fu_a
unfolding all_below
indicator_is_fu x h = eq_by_table 256 (λ x. bit_and (indicator_of x) 0x1F) (λ _. fu_a) x refl h

abbrev restored : Bool → Bool → ℕ → ℕ
restored s e x = bit_or (bit_and (indicator_of x) 0xE0) (bit_and (fu_hdr_of s e x) 0x1F)

module _ (x : ℕ) (h : x < 256) where
  start_bit : (s e : Bool) → bit_and (fu_hdr_of s e x) 0x80 ≡ (if s then 128 else 0)
  unfolding all_below
  start_bit true true =
      eq_by_table 256 (λ x. bit_and (fu_hdr_of true true x) 0x80) (λ _. 128) x refl h
  start_bit true false =
      eq_by_table 256 (λ x. bit_and (fu_hdr_of true false x) 0x80) (λ _. 128) x refl h
  start_bit false true =
      eq_by_table 256 (λ x. bit_and (fu_hdr_of false true x) 0x80) (λ _. 0) x refl h
  start_bit false false =
      eq_by_table 256 (λ x. bit_and (fu_hdr_of false false x) 0x80) (λ _. 0) x refl h

  end_bit : (s e : Bool) → bit_and (fu_hdr_of s e x) 0x40 ≡ (if e then 64 else 0)
  unfolding all_below
  end_bit true true = eq_by_table 256 (λ x. bit_and (fu_hdr_of true true x) 0x40) (λ _. 64) x refl h
  end_bit true false =
      eq_by_table 256 (λ x. bit_and (fu_hdr_of true false x) 0x40) (λ _. 0) x refl h
  end_bit false true =
      eq_by_table 256 (λ x. bit_and (fu_hdr_of false true x) 0x40) (λ _. 64) x refl h
  end_bit false false =
      eq_by_table 256 (λ x. bit_and (fu_hdr_of false false x) 0x40) (λ _. 0) x refl h

  restored_lem : (s e : Bool) → restored s e x ≡ x
  unfolding all_below
  restored_lem true true = eq_by_table 256 (restored true true) (λ x. x) x refl h
  restored_lem true false = eq_by_table 256 (restored true false) (λ x. x) x refl h
  restored_lem false true = eq_by_table 256 (restored false true) (λ x. x) x refl h
  restored_lem false false = eq_by_table 256 (restored false false) (λ x. x) x refl h

-- A fragment appends its piece, to the restored header byte if it is the first.
abbrev extended : Bool → List Bytes → Bytes → Option Bytes → Option Assembly
extended e nals piece none = none
extended e nals piece (some acc) =
    if e then some (nals ++ (acc ++ piece) ∷ [], none) else some (nals, some (acc ++ piece))

receive_fragment_lem :
    (x : ℕ) (s e : Bool) (piece : Bytes) (nals : List Bytes) (fu : Option Bytes)
    → x < 256
    → receive (indicator_of x ∷ fu_hdr_of s e x ∷ piece) (nals, fu)
      ≡ extended e nals piece (if s then some (x ∷ []) else fu)
unfolding receive
receive_fragment_lem x true true piece nals fu h = rw (
  indicator_is_fu x h,
  start_bit x h true true,
  end_bit x h true true,
  restored_lem x h true true,
)
receive_fragment_lem x true false piece nals fu h = rw (
  indicator_is_fu x h,
  start_bit x h true false,
  end_bit x h true false,
  restored_lem x h true false,
)
receive_fragment_lem x false e piece nals none h = rw (indicator_is_fu x h, start_bit x h false e)
receive_fragment_lem x false true piece nals (some acc) h =
    rw (indicator_is_fu x h, start_bit x h false true, end_bit x h false true)
receive_fragment_lem x false false piece nals (some acc) h =
    rw (indicator_is_fu x h, start_bit x h false false, end_bit x h false false)

-- The fragments from `off` on complete the NAL.
receive_units-fragments :
    (x : ℕ) (body : Bytes) (chunk : ℕ) (l : Bool) (k off : ℕ) (nals : List Bytes)
    (fu : Option Bytes) (acc : Bytes)
    → x < 256
    → 0 < chunk
    → off + k * chunk < length body
    → length body ≤ off + k * chunk + chunk
    → (if off == 0 then some (x ∷ []) else fu) ≡ some acc
    → receive_units
        (fragments (indicator_of x) (bit_and x 0x1F) body chunk l (suc k) off)
        (nals, fu)
      ≡ some (nals ++ (acc ++ drop off body) ∷ [], none)
unfolding receive_units fragments fragment
receive_units-fragments x body chunk l zero off nals fu acc hx hc h g e = rw (
  receive_fragment_lem x (off == 0) (leb (length body) (off + chunk)) (take chunk (drop off body))
      nals fu hx,
  e,
  last_ends body chunk off g,
  take_all chunk (drop off body) (omega (arith, length-drop off body)),
)
receive_units-fragments x body chunk l (suc k) off nals fu acc hx hc h g e =
    rw
      (
        receive_fragment_lem x (off == 0) (leb (length body) (off + chunk))
            (take chunk (drop off body)) nals fu hx,
        e,
        more_to_come body chunk k off h,
        receive_units-fragments x body chunk l k (off + chunk) nals
            (some (acc ++ take chunk (drop off body))) (acc ++ take chunk (drop off body)) hx hc
            (omega arith) (omega arith) (ground arith),
      )
      (ap (λ t. some (nals ++ t ∷ [], none))
        (append_assoc acc (take chunk (drop off body)) (drop (off + chunk) body)
          ∙ ap (λ t. acc ++ t) (rest ∙ take-append-drop chunk (drop off body))))
  where
    rest :
        take chunk (drop off body) ++ drop (off + chunk) body
        ≡ take chunk (drop off body) ++ drop chunk (drop off body)
    rest =
        ap (λ t. take chunk (drop off body) ++ t)
          (sym (drop-drop off chunk (off + chunk) body refl))

-- A NAL whose header byte is one, and not of the type that RFC 6184 uses for fragments.
abbrev pub IsPlain : Bytes → Type 0
IsPlain [] = Unit
IsPlain (first ∷ body) = (first < 256) × (bit_and first 0x1F ≢ fu_a)

-- The NALs that are not empty.
abbrev pub present : List Bytes → List Bytes
present [] = []
present ([] ∷ nals) = present nals
present ((first ∷ body) ∷ nals) = (first ∷ body) ∷ present nals

receive_whole :
    (first : ℕ) (body : Bytes) (nals : List Bytes)
    → bit_and first 0x1F ≢ fu_a
    → receive (first ∷ body) (nals, none) ≡ some (nals ++ (first ∷ body) ∷ [], none)
unfolding receive
receive_whole first body nals ne = ground arith

receive_units-nal_units :
    (mtu : ℕ) (nal : Bytes) (l : Bool) (nals : List Bytes)
    → 2 < mtu
    → IsPlain nal
    → receive_units (nal_units mtu nal l) (nals, none) ≡ some (nals ++ present (nal ∷ []), none)
unfolding nal_units
receive_units-nal_units mtu [] l nals hm h = unfold receive_units in rw append-nil
receive_units-nal_units mtu (first ∷ body) l nals hm h =
    elim (Bool-cases (leb (length (first ∷ body)) mtu)) [
      | inl e ↦ rw e (unfold receive_units in rw (receive_whole first body nals h.1))
      | inr e ↦
          let r = Rounds-of_long mtu first body hm e in
          rw (e, r.count)
            (receive_units-fragments first body (mtu - 2) l r.before_last 0 nals none (first ∷ [])
              h.0 (omega arith) (omega (arith, r.short)) (omega (arith, r.enough)) refl)
    ]

pub receive_units-units :
    (mtu : ℕ) (rest nals : List Bytes)
    → 2 < mtu
    → All IsPlain rest
    → receive_units (units mtu rest) (nals, none) ≡ some (nals ++ present rest, none)
unfolding units
receive_units-units mtu [] nals hm h = unfold receive_units in rw append-nil
receive_units-units mtu (nal ∷ rest) nals hm h =
    receive_units-append (nal_units mtu nal (is_nil rest)) (units mtu rest) (nals, none)
    ∙ rw (receive_units-nal_units mtu nal (is_nil rest) nals hm h.0) (
        receive_units-units mtu rest (nals ++ present (nal ∷ [])) hm h.1
        ∙ ap (λ t. some (t, none))
            (append_assoc nals (present (nal ∷ [])) (present rest)
              ∙ ap (λ t. nals ++ t) (present-cons nal rest)))
  where
    present-cons :
        (nal : Bytes) (rest : List Bytes)
        → present (nal ∷ []) ++ present rest ≡ present (nal ∷ rest)
    present-cons [] rest = refl
    present-cons (first ∷ body) rest = refl

-- From a ready packetizer every access unit of plain NALs is sent, and the receiver assembles its
-- non-empty NALs, in order and byte for byte.
pub depacketize-packetize :
    (p : H264Packetizer) (nals : List Bytes) (ts : ℕ)
    → IsReady p
    → All IsPlain nals
    → Returns (λ o. depacketize o.1 ≡ some (present nals)) (packetize nals ts p)
unfolding depacketize
depacketize-packetize p nals ts r h = Returns-packets _ p nals ts r (
    rw (
      receive_all-packets p ts (units p.mtu nals) ([], none) r,
      receive_units-units p.mtu nals [] r.mtu_room h,
    ))
