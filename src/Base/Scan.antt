-- ===== src/Base/Scan.antt =====
-- `bytes.find` and `bytes.startswith`, and how they fare when bytes are appended or dropped.
use Prim.Native.Nat.{ℕ, zero, suc, ◌+◌, ◌≤◌}
use mathlib.Core.Path.{◌≡◌, refl, ap, ◌∙◌, sym}
use mathlib.Core.Logic.{◌⊎◌, inl, inr}
use mathlib.Core.List.{List, [], ◌∷◌, ◌++◌}
use mathlib.Core.Bool.{Bool, true, false, ◌&&◌}
use mathlib.Core.Option.{Option, none, some, some-injective}
use native.Mathlib.Omega.{arith}
use dvrbridge.Base.Tests.{◌==◌, if◌then◌else◌, Bool-cases}
use dvrbridge.Base.Lists.{Bytes, length, drop, is_nil}

unfoldable pub starts_with : Bytes → Bytes → Bool
starts_with [] b = true
starts_with (x ∷ pat) [] = false
starts_with (x ∷ pat) (y ∷ b) = x == y && starts_with pat b

abbrev pub shift : ℕ → Option ℕ → Option ℕ
shift k none = none
shift k (some i) = some (k + i)

-- `b.find(pat)`; a start is an offset into what is left: `b.find(pat, k)` is `find` of `drop k b`.
unfoldable pub find : Bytes → Bytes → Option ℕ
unfolding starts_with
find pat [] = if is_nil pat then some 0 else none
find pat (x ∷ b) = if starts_with pat (x ∷ b) then some 0 else shift 1 (find pat b)

pub starts_with-append :
    (pat b e : Bytes) → length pat ≤ length b → starts_with pat (b ++ e) ≡ starts_with pat b
unfolding starts_with
starts_with-append [] b e h = refl
starts_with-append (x ∷ pat) [] e h = absurd (omega arith)
starts_with-append (x ∷ pat) (y ∷ b) e h =
    ap (λ t. x == y && t) (starts_with-append pat b e (omega arith))

pub starts_with-length : (pat b : Bytes) → starts_with pat b ≡ true → length pat ≤ length b
unfolding starts_with
starts_with-length [] b h = omega arith
starts_with-length (x ∷ pat) [] h = ground arith
starts_with-length (x ∷ pat) (y ∷ b) h = ground (arith, starts_with-length pat b)

-- How a match was found.
abbrev Found : Bytes → ℕ → Bytes → ℕ → Type 0
Found pat x b i =
    ((starts_with pat (x ∷ b) ≡ true) × (i ≡ 0))
    ⊎ ((starts_with pat (x ∷ b) ≡ false) × ((j : ℕ) × (i ≡ suc j) × (find pat b ≡ some j)))

Found-find : (pat : Bytes) (x : ℕ) (b : Bytes) (i : ℕ) → find pat (x ∷ b) ≡ some i → Found pat x b i
unfolding find
Found-find pat x b i h = elim (Bool-cases (starts_with pat (x ∷ b))) [
  | inl e ↦ inl (e, sym (some-injective _ _ (rw e at h)))
  | inr e ↦ inr (e, later (find pat b) refl (rw e at h))
]
  where
    later :
        (o : Option ℕ)
        → find pat b ≡ o
        → shift 1 o ≡ some i
        → (j : ℕ) × (i ≡ suc j) × (find pat b ≡ some j)
    later none p q = cc
    later (some j) p q = (j, omega (arith, some-injective _ _ q), p)

-- Where a match is found, the pattern stands, and there is room for it.
pub find-starts_with :
    (pat b : Bytes) (i : ℕ) → find pat b ≡ some i → starts_with pat (drop i b) ≡ true
find-starts_with [] [] i h = unfold starts_with in refl
find-starts_with (x ∷ pat) [] i h = unfold find in cc
find-starts_with pat (x ∷ b) i h = elim (Found-find pat x b i h) [
  | inl (e, z) ↦ rw z e
  | inr (e, (j, s, f)) ↦ rw s (find-starts_with pat b j f)
]

pub find-room : (pat b : Bytes) (i : ℕ) → find pat b ≡ some i → i + length pat ≤ length b
find-room [] [] i h = unfold find in omega (arith, some-injective _ _ h)
find-room (x ∷ pat) [] i h = unfold find in cc
find-room pat (x ∷ b) i h = elim (Found-find pat x b i h) [
  | inl (e, z) ↦ omega (arith, z, starts_with-length pat (x ∷ b) e)
  | inr (e, (j, s, f)) ↦ omega (arith, s, find-room pat b j f)
]

pub find_at_head : (pat b : Bytes) → starts_with pat b ≡ true → find pat b ≡ some 0
unfolding find
find_at_head [] [] h = refl
find_at_head (x ∷ pat) [] h = ground arith
find_at_head pat (x ∷ b) h = rw h

pub find-miss :
    (pat : Bytes) (x : ℕ) (b : Bytes)
    → starts_with pat (x ∷ b) ≡ false
    → find pat (x ∷ b) ≡ shift 1 (find pat b)
unfolding find
find-miss pat x b h = rw h

pub find-none-cons :
    (pat : Bytes) (x : ℕ) (b : Bytes)
    → find pat (x ∷ b) ≡ none
    → (starts_with pat (x ∷ b) ≡ false) × (find pat b ≡ none)
find-none-cons pat x b h = elim (Bool-cases (starts_with pat (x ∷ b))) [
  | inl e ↦ cc (sym (find_at_head pat (x ∷ b) e) ∙ h)
  | inr e ↦ (e, go (find pat b) (sym (find-miss pat x b e) ∙ h))
]
  where
    go : (o : Option ℕ) → shift 1 o ≡ none → o ≡ none
    go none q = refl
    go (some j) q = cc

shift-zero : (o : Option ℕ) → o ≡ shift 0 o
shift-zero none = refl
shift-zero (some i) = ap some (omega arith)

shift-shift : (k : ℕ) (o : Option ℕ) → shift 1 (shift k o) ≡ shift (suc k) o
shift-shift k none = refl
shift-shift k (some i) = ap some (omega arith)

-- A match stays the first when bytes are appended.
pub find-append : (pat b e : Bytes) (i : ℕ) → find pat b ≡ some i → find pat (b ++ e) ≡ some i
find-append [] [] e i h = find_at_head [] e (unfold starts_with in refl) ∙ unfold find in h
find-append (x ∷ pat) [] e i h = unfold find in cc
find-append pat (x ∷ b) e i h = elim (Found-find pat x b i h) [
  | inl (s, z) ↦ rw z (
      find_at_head pat (x ∷ (b ++ e))
        (starts_with-append pat (x ∷ b) e (starts_with-length pat (x ∷ b) s) ∙ s))
  | inr (s, (j, q, f)) ↦
      find-miss pat x (b ++ e)
        (starts_with-append pat (x ∷ b) e (omega (arith, find-room pat b j f)) ∙ s)
      ∙ ap (shift 1) (find-append pat b e j f)
      ∙ ap some (omega arith)
]

-- Bytes with no match, all but the tail that may hold a part of one, can be dropped.
pub find-drop :
    (pat b e : Bytes) (k : ℕ)
    → find pat b ≡ none
    → k + length pat ≤ length b + 1
    → find pat (b ++ e) ≡ shift k (find pat (drop k b ++ e))
find-drop pat b e zero h r = shift-zero (find pat (b ++ e))
find-drop [] [] e (suc k) h r = unfold find in cc
find-drop (x ∷ pat) [] e (suc k) h r = absurd (omega arith)
find-drop pat (x ∷ b) e (suc k) h r =
    let (miss, rest) = find-none-cons pat x b h in
    find-miss pat x (b ++ e) (starts_with-append pat (x ∷ b) e (omega arith) ∙ miss)
    ∙ ap (shift 1) (find-drop pat b e k rest (omega arith))
    ∙ shift-shift k (find pat (drop k b ++ e))

pub drop-append {ℓ} :
    {A : Type ℓ} (k : ℕ) (b e : List A) → k ≤ length b → drop k (b ++ e) ≡ drop k b ++ e
drop-append zero b e h = refl
drop-append (suc k) [] e h = absurd (omega arith)
drop-append (suc k) (x ∷ b) e h = drop-append k b e (omega arith)
