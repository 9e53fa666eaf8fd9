-- ===== src/H264/Sps/Golomb.antt =====
-- `_BitReader.ue` of dvrbridge/h264.py against the definition of the codes.
use native.Mathlib.Nat.{pow-suc}
use dvrbridge.Base.{
  ℕ, zero, suc, ◌+◌, ◌-◌, ◌*◌, ◌/◌, ◌%◌, ◌^◌, ◌≤◌, ◌<◌, some, List, [], ◌∷◌, ◌++◌, Bytes, length,
  replicate, length-replicate, ◌≡◌, refl, sym, ap, ◌∙◌, subst, arith, length-append,
}
use dvrbridge.H264.Sps.{bit, bits, bits_from, leading_zeros, ue}

-- The bits that the reader gives from a position on.
abbrev pub Reads : Bytes → ℕ → List ℕ → Type 0
Reads src pos [] = Unit
Reads src pos (b ∷ bs) = (bit src pos ≡ some (b, pos + 1)) × Reads src (pos + 1) bs

-- `z` binary digits, the high ones first.
abbrev pub digits : ℕ → ℕ → List ℕ
digits zero r = []
digits (suc z) r = digits z (r / 2) ++ (r % 2 ∷ [])

-- The code of `2 ^ z - 1 + r`: `z` zeros, a one, and the `z` digits of `r`.
abbrev pub golomb : ℕ → ℕ → List ℕ
golomb z r = replicate z 0 ++ 1 ∷ digits z r

abbrev pub value : ℕ → List ℕ → ℕ
value v [] = v
value v (b ∷ bs) = value (v * 2 + b) bs

value-append : (v b : ℕ) (bs : List ℕ) → value v (bs ++ b ∷ []) ≡ value v bs * 2 + b
value-append v b [] = refl
value-append v b (x ∷ bs) = value-append (v * 2 + x) b bs

pub value-digits : (z r : ℕ) → r < 2 ^ z → value 0 (digits z r) ≡ r
value-digits zero r h = omega arith
value-digits (suc z) r h =
    value-append 0 (r % 2) (digits z (r / 2))
    ∙ omega (arith, value-digits z (r / 2) (omega (arith, h, pow-suc 2 z)))

pub digits-length : (z r : ℕ) → length (digits z r) ≡ z
digits-length zero r = refl
digits-length (suc z) r =
    omega (arith, length-append (digits z (r / 2)) (r % 2 ∷ []), digits-length z (r / 2))

pub bits_from-Reads :
    (src : Bytes) (bs : List ℕ) (v pos : ℕ)
    → Reads src pos bs
    → bits_from src v (length bs) pos ≡ some (value v bs, pos + length bs)
unfolding bits_from
bits_from-Reads src [] v pos h = ap (λ p. some (v, p)) (omega arith)
bits_from-Reads src (b ∷ bs) v pos h = rw h.0 (
    bits_from-Reads src bs (v * 2 + b) (pos + 1) h.1
    ∙ ap (λ p. some (value (v * 2 + b) bs, p)) (omega arith))

leading_zeros-Reads :
    (src : Bytes) (z k seen pos : ℕ) (bs : List ℕ)
    → z < k
    → Reads src pos (replicate z 0 ++ 1 ∷ bs)
    → (leading_zeros src k seen pos ≡ some (seen + z, pos + z + 1)) × Reads src (pos + z + 1) bs
unfolding leading_zeros
leading_zeros-Reads src z zero seen pos bs l h = absurd (omega arith)
leading_zeros-Reads src zero (suc k) seen pos bs l h =
    let here : pos + 1 ≡ pos + 0 + 1 = omega arith in
    let same : seen ≡ seen + 0 = omega arith in
    (
      rw h.0 (ap (λ n. some (n, pos + 1)) same ∙ ap (λ p. some (seen + 0, p)) here),
      subst (λ p. Reads src p bs) here h.1,
    )
leading_zeros-Reads src (suc z) (suc k) seen pos bs l h =
    let rest = leading_zeros-Reads src z k (seen + 1) (pos + 1) bs (omega arith) h.1 in
    let there : pos + 1 + z + 1 ≡ pos + suc z + 1 = omega arith in
    let count : seen + 1 + z ≡ seen + suc z = omega arith in
    (
      rw h.0 (
          rest.0
          ∙ ap (λ n. some (n, pos + 1 + z + 1)) count
          ∙ ap (λ p. some (seen + suc z, p)) there),
      subst (λ p. Reads src p bs) there rest.1,
    )

-- Where the bits from a position on begin with the Exp-Golomb code of `2 ^ z - 1 + r`, of at most 31 zeros,
-- `ue` reads that number, and goes past the code.
pub ue-golomb :
    (src : Bytes) (z r pos : ℕ)
    → z ≤ 31
    → r < 2 ^ z
    → Reads src pos (golomb z r)
    → ue src pos ≡ some (2 ^ z - 1 + r, pos + (2 * z + 1))
unfolding ue bits
ue-golomb src z r pos l h code =
    let lead = leading_zeros-Reads src z 32 0 pos (digits z r) (omega arith) code in
    let zs : leading_zeros src 32 0 pos ≡ some (z, pos + z + 1) =
      lead.0 ∙ ap (λ n. some (n, pos + z + 1)) (omega arith) in
    let tail : bits_from src 0 z (pos + z + 1) ≡ some (r, pos + (2 * z + 1)) =
      ap (λ n. bits_from src 0 n (pos + z + 1)) (sym (digits-length z r))
      ∙ bits_from-Reads src (digits z r) 0 (pos + z + 1) lead.1
      ∙ ap (λ v. some (v, pos + z + 1 + length (digits z r))) (value-digits z r h)
      ∙ ap (λ p. some (r, p)) (omega (arith, digits-length z r)) in
    rw (zs, tail)

pub golomb-length : (z r : ℕ) → length (golomb z r) ≡ 2 * z + 1
golomb-length z r = omega (
  arith,
  length-append (replicate z 0) (1 ∷ digits z r),
  length-replicate {A = ℕ} z 0,
  digits-length z r,
)
