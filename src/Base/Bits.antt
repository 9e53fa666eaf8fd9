-- ===== src/Base/Bits.antt =====
-- `&` and `|` at variables: masks of ones are remainders; a table decides a law over a byte.
use Prim.Native.Nat.{
  ℕ, zero, suc, ◌+◌, ◌*◌, ◌/◌, ◌%◌, ◌^◌, ◌≤◌, ◌<◌, min, bit_and, digits, bit_and-bitwise,
}
use mathlib.Core.Path.{◌≡◌, sym, ◌∙◌, ap}
use mathlib.Core.Bool.{Bool, true, ◌&&◌}
use native.Mathlib.Omega.{arith}
use native.Mathlib.Nat.{mod-lt, mod-eq_of_lt, div-add-mod, add-mul-mod_self_right}
use dvrbridge.Base.Tests.{◌==◌, ==_iff}

-- `p` at every value below `n`.
unfoldable pub all_below : ℕ → (ℕ → Bool) → Bool
all_below zero p = true
all_below (suc k) p = p k && all_below k p

all_below_at : (p : ℕ → Bool) (k x : ℕ) → x < k → all_below k p ≡ true → p x ≡ true
unfolding all_below
all_below_at p zero x lt h = absurd (omega arith)
all_below_at p (suc k) x lt h = ground (arith, all_below_at p k x)

-- An equation of two numbers that holds at every value below `n`, by evaluation.
pub eq_by_table :
    (n : ℕ) (f g : ℕ → ℕ) (x : ℕ) → all_below n (λ k. f k == g k) ≡ true → x < n → f x ≡ g x
eq_by_table n f g x h lt = (==_iff (f x) (g x)).0 (all_below_at (λ k. f k == g k) n x lt h)

-- The mask of `k` ones.
abbrev pub ones : ℕ → ℕ
ones zero = 0
ones (suc k) = 2 * ones k + 1

abbrev pub pow2 : ℕ → ℕ
pow2 zero = 1
pow2 (suc k) = 2 * pow2 k

mod_double : (a p : ℕ) → 0 < p → a % (2 * p) ≡ ((a / 2) % p) * 2 + a % 2
mod_double a p h =
    ap (λ t. t % (2 * p)) regroup
    ∙ add-mul-mod_self_right (((a / 2) % p) * 2 + a % 2) (a / 2 / p) (2 * p)
    ∙ mod-eq_of_lt small
  where
    q_split : (a / 2) ≡ p * (a / 2 / p) + (a / 2) % p
    q_split = sym (div-add-mod (a / 2) p)

    regroup : a ≡ ((a / 2) % p) * 2 + a % 2 + (a / 2 / p) * (2 * p)
    regroup = omega (arith, q_split)

    small : ((a / 2) % p) * 2 + a % 2 < 2 * p
    small = omega (arith, mod-lt (a / 2) h)

pow2_pos : (k : ℕ) → 0 < pow2 k
pow2_pos zero = omega arith
pow2_pos (suc k) = omega (arith, pow2_pos k)

half_ones : (k : ℕ) → ones (suc k) / 2 ≡ ones k
half_ones k = omega arith

-- The digit recursion that `&` stands for, against a mask, with any fuel that lasts.
masked : (fuel a k : ℕ) → a ≤ fuel → digits (λ d. zero) min fuel a (ones k) ≡ a % pow2 k
masked zero zero k h = omega (arith, pow2_pos k)
masked zero (suc a) k h = absurd (omega arith)
masked (suc fuel) zero k h = omega (arith, pow2_pos k)
masked (suc fuel) (suc a) zero h = omega (arith, masked fuel (suc a / 2) zero (omega arith))
masked (suc fuel) (suc a) (suc k) h = omega (
  arith,
  ap (digits (λ d. zero) min fuel (suc a / 2)) (half_ones k),
  masked fuel (suc a / 2) k (omega arith),
  mod_double (suc a) (pow2 k) (pow2_pos k),
)

pub bit_and-ones : (k a : ℕ) → bit_and a (ones k) ≡ a % pow2 k
bit_and-ones k a = bit_and-bitwise a (ones k) ∙ masked a a k (omega arith)

pub bit_and-0xFFFF : (a : ℕ) → bit_and a 0xFFFF ≡ a % 2 ^ 16
bit_and-0xFFFF a = bit_and-ones 16 a

pub bit_and-0xFFFFFFFF : (a : ℕ) → bit_and a 0xFFFFFFFF ≡ a % 2 ^ 32
bit_and-0xFFFFFFFF a = bit_and-ones 32 a

pub bit_and-0x1F : (a : ℕ) → bit_and a 0x1F ≡ a % 32
bit_and-0x1F a = bit_and-ones 5 a

pub bit_and-0xFF : (a : ℕ) → bit_and a 0xFF ≡ a % 256
bit_and-0xFF a = bit_and-ones 8 a
