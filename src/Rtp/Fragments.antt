-- ===== src/Rtp/Fragments.antt =====
-- The FU-A fragments of dvrbridge/rtsp/rtp.py: the rounds of the loop cover the body exactly.
use dvrbridge.Base.{
  ℕ, zero, suc, ◌+◌, ◌-◌, ◌*◌, ◌/◌, ◌%◌, ◌≤◌, ◌<◌, Bool, true, false, List, [], ◌∷◌, ◌++◌, ◌≡◌,
  refl, append-nil, bit_and, bit_or, leb, Bytes, length, drop, is_nil, arith, All, All-append,
  length-take, Bool-cases, inl, inr, ◌≢◌, subst,
}
use native.Mathlib.Nat.{mod-lt, div-add-mod}
use dvrbridge.Rtp.{fragment, range_length, fu_a}
use dvrbridge.Rtp.Units.{fragments, nal_units, units}

-- `k` full rounds and one more: the last round is the one that reaches the end.
pub record Rounds (n chunk : ℕ) : Type 0 where
  pub before_last : ℕ
  pub count : range_length n chunk ≡ suc before_last
  pub short : before_last * chunk < n
  pub enough : n ≤ before_last * chunk + chunk

rounds_of_quotient :
    (n c q r : ℕ)
    → c * q + r ≡ n + c - 1
    → r < c
    → 0 < n
    → (q ≡ suc (q - 1)) × ((q - 1) * c < n) × (n ≤ (q - 1) * c + c)
rounds_of_quotient n c zero r e h hn = absurd (omega arith)
rounds_of_quotient n c (suc q) r e h hn = (omega arith, grind arith, grind arith)

pub Rounds-range_length : (n chunk : ℕ) → 0 < n → 0 < chunk → Rounds n chunk
unfolding range_length
Rounds-range_length n c hn hc =
    let q = (n + c - 1) / c in
    let (pos, short, enough) =
      rounds_of_quotient n c q ((n + c - 1) % c) (div-add-mod (n + c - 1) c) (mod-lt (n + c - 1) hc)
        hn in
    record { before_last = q - 1; count = pos; short = short; enough = enough }

-- The marker is on the last payload and on no other.
abbrev pub MarkedLast : List (Bytes × Bool) → Type 0
MarkedLast [] = ⊥
MarkedLast (u ∷ []) = u.1 ≡ true
MarkedLast (u ∷ v ∷ us) = (u.1 ≡ false) × MarkedLast (v ∷ us)

MarkedLast-append :
    (us vs : List (Bytes × Bool))
    → All (λ (u : Bytes × Bool). u.1 ≡ false) us
    → MarkedLast vs
    → MarkedLast (us ++ vs)
MarkedLast-append [] vs h m = m
MarkedLast-append (u ∷ []) [] h m = absurd m
MarkedLast-append (u ∷ []) (v ∷ vs) h m = (h.0, m)
MarkedLast-append (u ∷ u' ∷ us) vs h m = (h.0, MarkedLast-append (u' ∷ us) vs h.1 m)

-- Sizes, and which fragment is the last.
module _ (indicator ntype : ℕ) (body : Bytes) (chunk : ℕ) (l : Bool) where
  pub length-fragments :
      (k off : ℕ)
      → All
          (λ (u : Bytes × Bool). length u.0 ≤ chunk + 2)
          (fragments indicator ntype body chunk l k off)
  unfolding fragments fragment
  length-fragments zero off = tt
  length-fragments (suc k) off =
      (omega (arith, length-take chunk (drop off body)), length-fragments k (off + chunk))

module _ (body : Bytes) (chunk : ℕ) where
  -- Whether the fragment at `off` is the last.
  pub last_ends :
      (off : ℕ) → length body ≤ off + zero * chunk + chunk → leb (length body) (off + chunk) ≡ true
  last_ends off g = ground arith

  pub more_to_come :
      (k off : ℕ) → off + suc k * chunk < length body → leb (length body) (off + chunk) ≡ false
  more_to_come k off g = ground arith

module _ (indicator ntype : ℕ) (body : Bytes) (chunk : ℕ) where
  pub unmarked-fragments :
      (k off : ℕ)
      → All (λ (u : Bytes × Bool). u.1 ≡ false) (fragments indicator ntype body chunk false k off)
  unfolding fragments fragment
  unmarked-fragments zero off = tt
  unmarked-fragments (suc k) off = (refl, unmarked-fragments k (off + chunk))

  pub MarkedLast-fragments :
      (k off : ℕ)
      → off + k * chunk < length body
      → length body ≤ off + k * chunk + chunk
      → MarkedLast (fragments indicator ntype body chunk true (suc k) off)
  unfolding fragments fragment
  MarkedLast-fragments zero off h g = last_ends body chunk off g
  MarkedLast-fragments (suc k) off h g = (
    more_to_come body chunk k off h,
    MarkedLast-fragments k (off + chunk) (omega arith) (omega arith),
  )

unmarked-nal_units :
    (mtu : ℕ) (nal : Bytes) → All (λ (u : Bytes × Bool). u.1 ≡ false) (nal_units mtu nal false)
unfolding nal_units
unmarked-nal_units mtu [] = tt
unmarked-nal_units mtu (first ∷ body) = elim (Bool-cases (leb (length (first ∷ body)) mtu)) [
  | inl e ↦ rw e (refl, tt)
  | inr e ↦ rw e (unmarked-fragments _ _ body (mtu - 2) _ 0)
]

-- A NAL that does not fit has a body, which the rounds cover.
pub Rounds-of_long :
    (mtu first : ℕ) (body : Bytes)
    → 2 < mtu
    → leb (length (first ∷ body)) mtu ≡ false
    → Rounds (length body) (mtu - 2)
Rounds-of_long mtu first body hm e =
    Rounds-range_length (length body) (mtu - 2) (ground arith) (omega arith)

MarkedLast-nal_units :
    (mtu first : ℕ) (body : Bytes) → 2 < mtu → MarkedLast (nal_units mtu (first ∷ body) true)
unfolding nal_units
MarkedLast-nal_units mtu first body hm = elim (Bool-cases (leb (length (first ∷ body)) mtu)) [
  | inl e ↦ rw e refl
  | inr e ↦
      let r = Rounds-of_long mtu first body hm e in
      rw (e, r.count)
        (MarkedLast-fragments _ _ body (mtu - 2) r.before_last 0 (omega (arith, r.short))
          (omega (arith, r.enough)))
]

-- The list ends with a NAL that holds a byte.
abbrev pub EndsWithByte : List Bytes → Type 0
EndsWithByte [] = ⊥
EndsWithByte (nal ∷ []) = nal ≢ []
EndsWithByte (nal ∷ next ∷ rest) = EndsWithByte (next ∷ rest)

pub MarkedLast-units :
    (mtu : ℕ) (nals : List Bytes) → 2 < mtu → EndsWithByte nals → MarkedLast (units mtu nals)
unfolding units
MarkedLast-units mtu [] hm h = absurd h
MarkedLast-units mtu ([] ∷ []) hm h = absurd (h refl)
MarkedLast-units mtu ((first ∷ body) ∷ []) hm h =
    rw append-nil (MarkedLast-nal_units mtu first body hm)
MarkedLast-units mtu (nal ∷ next ∷ rest) hm h =
    MarkedLast-append _ _ (unmarked-nal_units mtu nal) (MarkedLast-units mtu (next ∷ rest) hm h)

length-nal_units :
    (mtu : ℕ) (nal : Bytes) (l : Bool)
    → 2 < mtu
    → All (λ (u : Bytes × Bool). length u.0 ≤ mtu) (nal_units mtu nal l)
unfolding nal_units
length-nal_units mtu [] l hm = tt
length-nal_units mtu (first ∷ body) l hm = elim (Bool-cases (leb (length (first ∷ body)) mtu)) [
  | inl e ↦ rw e (ground arith, tt)
  | inr e ↦
      let room : mtu - 2 + 2 ≡ mtu = omega arith in
      rw e (
        subst
          (λ t.
            All (λ (u : Bytes × Bool). length u.0 ≤ t)
              (fragments (bit_or (bit_and first 0xE0) fu_a) (bit_and first 0x1F) body (mtu - 2) l
                (range_length (length body) (mtu - 2)) 0))
          room (length-fragments _ _ body (mtu - 2) l _ 0))
]

-- Every payload fits the MTU.
pub length-units :
    (mtu : ℕ) (nals : List Bytes)
    → 2 < mtu
    → All (λ (u : Bytes × Bool). length u.0 ≤ mtu) (units mtu nals)
unfolding units
length-units mtu [] hm = tt
length-units mtu (nal ∷ rest) hm =
    All-append _ _ _ (length-nal_units mtu nal (is_nil rest) hm) (length-units mtu rest hm)
