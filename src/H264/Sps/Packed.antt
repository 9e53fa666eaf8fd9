-- ===== src/H264/Sps/Packed.antt =====
-- The bits that `_BitReader.bit` of dvrbridge/h264.py gives, against bytes that an encoder packed.
use dvrbridge.Base.{
  ℕ, zero, suc, ◌+◌, ◌-◌, ◌*◌, ◌/◌, ◌%◌, ◌^◌, ◌≤◌, ◌<◌, some, List, [], ◌∷◌, ◌++◌, Bytes, length,
  drop, get_or, drop-drop, replicate, ◌≡◌, refl, sym, ap, ◌∙◌, subst, arith, All, All-append,
  All-drop,
}
use dvrbridge.H264.Sps.{bit, byte_at}
use dvrbridge.H264.Sps.Golomb.{Reads, golomb, digits}

abbrev pub IsBit : ℕ → Type 0
IsBit b = b < 2

-- The byte of the first eight bits.
abbrev first_byte : List ℕ → ℕ
first_byte bs =
    get_or bs 0 0 * 128
    + get_or bs 1 0 * 64
    + get_or bs 2 0 * 32
    + get_or bs 3 0 * 16
    + get_or bs 4 0 * 8
    + get_or bs 5 0 * 4
    + get_or bs 6 0 * 2
    + get_or bs 7 0

-- `n` bytes of bits, the high ones first; what is missing is zero.
abbrev pub pack : ℕ → List ℕ → Bytes
pack zero bs = []
pack (suc n) bs = first_byte bs ∷ pack n (drop 8 bs)

get_or-IsBit : (bs : List ℕ) (i : ℕ) → All IsBit bs → IsBit (get_or bs i 0)
get_or-IsBit [] i h = omega arith
get_or-IsBit (b ∷ bs) zero h = h.0
get_or-IsBit (b ∷ bs) (suc i) h = get_or-IsBit bs i h.1

get_or-drop : (bs : List ℕ) (k i s : ℕ) → k + i ≡ s → get_or (drop k bs) i 0 ≡ get_or bs s 0
get_or-drop bs zero i s e = let e' : i ≡ s = omega arith in ap (λ t. get_or bs t 0) e'
get_or-drop [] (suc k) i s e = refl
get_or-drop (b ∷ bs) (suc k) i zero e = absurd (omega arith)
get_or-drop (b ∷ bs) (suc k) i (suc s) e = get_or-drop bs k i s (omega arith)

module _ (bs : List ℕ) (h : All IsBit bs) where
  bits_below :
      (get_or bs 0 0 < 2)
      × (get_or bs 1 0 < 2)
      × (get_or bs 2 0 < 2)
      × (get_or bs 3 0 < 2)
      × (get_or bs 4 0 < 2)
      × (get_or bs 5 0 < 2)
      × (get_or bs 6 0 < 2)
      × (get_or bs 7 0 < 2)
  bits_below = (
    get_or-IsBit bs 0 h,
    get_or-IsBit bs 1 h,
    get_or-IsBit bs 2 h,
    get_or-IsBit bs 3 h,
    get_or-IsBit bs 4 h,
    get_or-IsBit bs 5 h,
    get_or-IsBit bs 6 h,
    get_or-IsBit bs 7 h,
  )

  first_byte-bit : (i : ℕ) → i < 8 → first_byte bs / 2 ^ (7 - i) % 2 ≡ get_or bs i 0
  first_byte-bit zero l = omega (arith, bits_below)
  first_byte-bit (suc zero) l = omega (arith, bits_below)
  first_byte-bit (suc (suc zero)) l = omega (arith, bits_below)
  first_byte-bit (suc (suc (suc zero))) l = omega (arith, bits_below)
  first_byte-bit (suc (suc (suc (suc zero)))) l = omega (arith, bits_below)
  first_byte-bit (suc (suc (suc (suc (suc zero))))) l = omega (arith, bits_below)
  first_byte-bit (suc (suc (suc (suc (suc (suc zero)))))) l = omega (arith, bits_below)
  first_byte-bit (suc (suc (suc (suc (suc (suc (suc zero))))))) l = omega (arith, bits_below)
  first_byte-bit (suc (suc (suc (suc (suc (suc (suc (suc i)))))))) l = absurd (omega arith)

byte_at-pack :
    (n q : ℕ) (bs : List ℕ) → q < n → byte_at (pack n bs) q ≡ some (first_byte (drop (8 * q) bs))
byte_at-pack zero q bs l = absurd (omega arith)
byte_at-pack (suc n) zero bs l = refl
byte_at-pack (suc n) (suc q) bs l =
    byte_at-pack n q (drop 8 bs) (omega arith)
    ∙ ap (λ t. some (first_byte t)) (drop-drop 8 (8 * q) (8 * suc q) bs (omega arith))

bit-pack :
    (n i : ℕ) (bs : List ℕ)
    → All IsBit bs
    → i < 8 * n
    → bit (pack n bs) i ≡ some (get_or bs i 0, i + 1)
unfolding bit
bit-pack n i bs h l =
    let behind = drop (8 * (i / 8)) bs in
    let here = first_byte-bit behind (All-drop IsBit (8 * (i / 8)) bs h) (i % 8) (omega arith) in
    rw (byte_at-pack n (i / 8) bs (omega arith), here)
      (ap (λ b. some (b, i + 1)) (get_or-drop bs (8 * (i / 8)) (i % 8) i (omega arith)))

Reads-pack_from :
    (n at : ℕ) (all bs : List ℕ)
    → All IsBit all
    → drop at all ≡ bs
    → length bs + at ≤ 8 * n
    → Reads (pack n all) at bs
Reads-pack_from n at all [] h e l = tt
Reads-pack_from n at all (b ∷ bs) h e l =
    let first : get_or all at 0 ≡ b =
      sym (get_or-drop all at 0 at (omega arith)) ∙ ap (λ t. get_or t 0 0) e in
    let rest =
      Reads-pack_from n (at + 1) all bs h (sym (drop-drop at 1 (at + 1) all refl) ∙ ap (drop 1) e)
        (omega arith) in
    (bit-pack n at all h (omega arith) ∙ ap (λ x. some (x, at + 1)) first, rest)

-- The reader gives the bits that were packed.
pub Reads-pack : (n : ℕ) (bs : List ℕ) → All IsBit bs → length bs ≤ 8 * n → Reads (pack n bs) 0 bs
Reads-pack n bs h l = Reads-pack_from n 0 bs bs h refl (omega arith)

pub Reads-append :
    (src : Bytes) (at : ℕ) (xs ys : List ℕ)
    → Reads src at (xs ++ ys)
    → Reads src at xs × Reads src (at + length xs) ys
Reads-append src at [] ys h = (tt, subst (λ p. Reads src p ys) (omega arith) h)
Reads-append src at (x ∷ xs) ys h =
    let rest = Reads-append src (at + 1) xs ys h.1 in
    let there : at + 1 + length xs ≡ at + length (x ∷ xs) = omega arith in
    ((h.0, rest.0), subst (λ p. Reads src p ys) there rest.1)

IsBit-replicate : (n : ℕ) → All IsBit (replicate n 0)
IsBit-replicate zero = tt
IsBit-replicate (suc n) = (omega arith, IsBit-replicate n)

pub digits-IsBit : (z r : ℕ) → All IsBit (digits z r)
digits-IsBit zero r = tt
digits-IsBit (suc z) r =
    All-append IsBit (digits z (r / 2)) (r % 2 ∷ []) (digits-IsBit z (r / 2)) (omega arith, tt)

pub golomb-IsBit : (z r : ℕ) → All IsBit (golomb z r)
golomb-IsBit z r =
    All-append IsBit (replicate z 0) (1 ∷ digits z r) (IsBit-replicate z)
      (omega arith, digits-IsBit z r)
