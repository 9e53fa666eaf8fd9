-- ===== src/Rtsp/Answer/Decimal.antt =====
-- The decimal numbers in the answers of dvrbridge/rtsp/server.py.
use native.Mathlib.Nat.{pow-suc}
use dvrbridge.Base.{
  ℕ, zero, suc, ◌+◌, ◌-◌, ◌*◌, ◌/◌, ◌%◌, ◌^◌, ◌≤◌, ◌<◌, true, false, ◌&&◌, none, some, [], ◌∷◌,
  ◌++◌, ltb, leb, ◌==◌, Bytes, length, length-append, All, All-append, ◌≡◌, refl, ap, ◌∙◌, arith,
  Bool-cases, inl, inr, ◌⊎◌, pos,
}
use dvrbridge.Rtsp.Text.{
  is_blank_char, is_blank_byte, trim_left, trim_right, keep, strip, decimal, count_digits, natural,
  with_sign, int,
}
use dvrbridge.Rtsp.Answer.{decimal_from, str}

abbrev pub IsDigit : ℕ → Type 0
IsDigit c = (48 ≤ c) × (c ≤ 57)

-- The two cases of the next digit.
decimal_from-last : (k n : ℕ) → n < 10 → decimal_from (suc k) n ≡ (48 + n) ∷ []
unfolding decimal_from
decimal_from-last k n h = let e : ltb n 10 ≡ true = ground arith in rw (e, decimal_from) refl

decimal_from-more :
    (k n : ℕ) → 10 ≤ n → decimal_from (suc k) n ≡ decimal_from k (n / 10) ++ (48 + n % 10) ∷ []
unfolding decimal_from
decimal_from-more k n h = let e : ltb n 10 ≡ false = ground arith in rw (e, decimal_from) refl

below_ten : (n : ℕ) → (n < 10) ⊎ (10 ≤ n)
below_ten n = elim (Bool-cases (ltb n 10)) [
  | inl e ↦ inl (ground (arith, e))
  | inr e ↦ inr (ground (arith, e))
]

decimal_from-IsDigit : (k n : ℕ) → All IsDigit (decimal_from k n)
decimal_from-IsDigit zero n = unfold decimal_from in tt
decimal_from-IsDigit (suc k) n = elim (below_ten n) [
  | inl l ↦ rw (decimal_from-last k n l) (omega arith)
  | inr l ↦
      let last : IsDigit (48 + n % 10) = omega arith in
      rw (decimal_from-more k n l) (
        All-append IsDigit (decimal_from k (n / 10)) ((48 + n % 10) ∷ [])
          (decimal_from-IsDigit k (n / 10)) (last, tt))
]

-- The number that digits stand for, behind `acc`.
abbrev value : ℕ → Bytes → ℕ
value acc [] = acc
value acc (c ∷ s) = value (acc * 10 + (c - 48)) s

value-append : (acc c : ℕ) (s : Bytes) → value acc (s ++ c ∷ []) ≡ value acc s * 10 + (c - 48)
value-append acc c [] = refl
value-append acc c (x ∷ s) = value-append (acc * 10 + (x - 48)) c s

decimal-value : (acc : ℕ) (s : Bytes) → All IsDigit s → decimal acc true s ≡ some (value acc s)
unfolding decimal
decimal-value acc [] h = refl
decimal-value acc (c ∷ s) h =
    let digit : (leb 48 c && leb c 57) ≡ true = ground (arith, h.0) in
    rw (digit, decimal) (decimal-value (acc * 10 + (c - 48)) s h.1)

decimal-first : (s : Bytes) → All IsDigit s → 0 < length s → decimal 0 false s ≡ some (value 0 s)
unfolding decimal
decimal-first [] h l = absurd (omega arith)
decimal-first (c ∷ s) h l =
    let digit : (leb 48 c && leb c 57) ≡ true = ground (arith, h.0) in
    rw (digit, decimal) (decimal-value (0 * 10 + (c - 48)) s h.1)

decimal_from-value : (k n : ℕ) → n < k → value 0 (decimal_from k n) ≡ n
decimal_from-value zero n h = absurd (omega arith)
decimal_from-value (suc k) n h = elim (below_ten n) [
  | inl l ↦ rw (decimal_from-last k n l) (omega arith)
  | inr l ↦
      let rest = decimal_from-value k (n / 10) (omega arith) in
      rw (decimal_from-more k n l)
        (value-append 0 (48 + n % 10) (decimal_from k (n / 10)) ∙ omega (arith, rest))
]

decimal_from-positive : (k n : ℕ) → 0 < k → 0 < length (decimal_from k n)
decimal_from-positive zero n p = absurd (omega arith)
decimal_from-positive (suc k) n p = elim (below_ten n) [
  | inl l ↦ rw (decimal_from-last k n l) (omega arith)
  | inr l ↦
      rw (decimal_from-more k n l)
        (omega (arith, length-append {0} (decimal_from k (n / 10)) ((48 + n % 10) ∷ [])))
]

-- At most `d` digits below the power of ten.
decimal_from-length : (k n d : ℕ) → n < 10 ^ d → 0 < d → length (decimal_from k n) ≤ d
decimal_from-length zero n d h p = unfold decimal_from in omega arith
decimal_from-length (suc k) n zero h p = absurd (omega arith)
decimal_from-length (suc k) n (suc zero) h p =
    rw (decimal_from-last k n (omega (arith, h))) (omega arith)
decimal_from-length (suc k) n (suc (suc d)) h p = elim (below_ten n) [
  | inl l ↦ rw (decimal_from-last k n l) (omega arith)
  | inr l ↦
      let rest =
        decimal_from-length k (n / 10) (suc d) (omega (arith, h, pow-suc 10 (suc d)))
          (omega arith) in
      rw (decimal_from-more k n l)
        (omega (arith, rest, length-append {0} (decimal_from k (n / 10)) ((48 + n % 10) ∷ [])))
]

count_digits-length : (s : Bytes) → count_digits s ≤ length s
unfolding count_digits
count_digits-length [] = omega arith
count_digits-length (c ∷ s) = ground (arith, count_digits-length s)

is_blank_char-IsDigit : (c : ℕ) → IsDigit c → is_blank_char c ≡ false
unfolding is_blank_char is_blank_byte
is_blank_char-IsDigit c h = ground arith

trim_right-IsDigit : (s : Bytes) → All IsDigit s → trim_right is_blank_char s ≡ s
unfolding trim_right
trim_right-IsDigit [] h = refl
trim_right-IsDigit (c ∷ []) h = unfold keep in rw (is_blank_char-IsDigit c h.0) refl
trim_right-IsDigit (c ∷ x ∷ s) h =
    ap (keep is_blank_char c) (trim_right-IsDigit (x ∷ s) h.1) ∙ unfold keep in refl

-- Digits have nothing to strip.
pub strip-IsDigit : (s : Bytes) → All IsDigit s → strip is_blank_char s ≡ s
unfolding strip trim_left
strip-IsDigit [] h = unfold trim_right in refl
strip-IsDigit (c ∷ s) h = rw (is_blank_char-IsDigit c h.0, trim_left) (trim_right-IsDigit (c ∷ s) h)

natural-nil : natural [] ≡ none
unfolding natural decimal count_digits
natural-nil = refl

with_sign-IsDigit :
    (s : Bytes) (n : ℕ) → All IsDigit s → natural s ≡ some n → with_sign s ≡ some (pos n)
with_sign-IsDigit [] n h e = absurd (cc (e, natural-nil))
with_sign-IsDigit (c ∷ s) n h e =
    let minus : (c == 45) ≡ false = ground (arith, h.0) in
    let plus : (c == 43) ≡ false = ground (arith, h.0) in
    unfold with_sign in rw (minus, plus, e) refl

natural-value :
    (s : Bytes) → All IsDigit s → 0 < length s → length s ≤ 4300 → natural s ≡ some (value 0 s)
unfolding natural
natural-value s h p l =
    let few : leb (count_digits s) 4300 ≡ true = ground (arith, count_digits-length s, l) in
    rw (few, decimal-first s h p) refl

-- The number of bytes of a body is read as it was written.
pub int-str : (n : ℕ) → n < 10 ^ 5 → int (str n) ≡ some (pos n)
unfolding int str
int-str n h =
    let text = decimal_from (n + 1) n in
    let digits = decimal_from-IsDigit (n + 1) n in
    let few : length text ≤ 4300 = omega (arith, decimal_from-length (n + 1) n 5 h (omega arith)) in
    ap with_sign (strip-IsDigit text digits)
    ∙ with_sign-IsDigit text n digits (
        natural-value text digits (decimal_from-positive (n + 1) n (omega arith)) few
        ∙ ap some (decimal_from-value (n + 1) n (omega arith)))

pub str-IsDigit : (n : ℕ) → All IsDigit (str n)
unfolding str
str-IsDigit n = decimal_from-IsDigit (n + 1) n
