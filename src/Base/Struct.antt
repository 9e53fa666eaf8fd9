-- ===== src/Base/Struct.antt =====
-- The formats of Python's `struct` that the program uses: unsigned integers of one, two and four
-- bytes, in either order. A value out of range raises `struct.error`, which is `none`.
use dvrbridge.Base.{
  ℕ, ◌+◌, ◌*◌, ◌/◌, ◌%◌, ◌^◌, ◌≡◌, Option, none, some, [], ◌∷◌, arith, ltb, if◌then◌else◌, Bytes,
}

-- B
abbrev pub pack_u8 : ℕ → Option Bytes
pack_u8 x = if ltb x 256 then some (x ∷ []) else none

-- >H and >I, on a value in range
abbrev pub be16 : ℕ → Bytes
be16 x = x / 256 ∷ x % 256 ∷ []

abbrev pub be32 : ℕ → Bytes
be32 x = x / 2 ^ 24 ∷ x / 2 ^ 16 % 256 ∷ x / 256 % 256 ∷ x % 256 ∷ []

-- <H and <I, on a value in range
abbrev pub le16 : ℕ → Bytes
le16 x = x % 256 ∷ x / 256 ∷ []

abbrev pub le32 : ℕ → Bytes
le32 x = x % 256 ∷ x / 256 % 256 ∷ x / 2 ^ 16 % 256 ∷ x / 2 ^ 24 ∷ []

abbrev pub pack_be16 : ℕ → Option Bytes
pack_be16 x = if ltb x (2 ^ 16) then some (be16 x) else none

abbrev pub pack_be32 : ℕ → Option Bytes
pack_be32 x = if ltb x (2 ^ 32) then some (be32 x) else none

abbrev pub pack_le16 : ℕ → Option Bytes
pack_le16 x = if ltb x (2 ^ 16) then some (le16 x) else none

abbrev pub pack_le32 : ℕ → Option Bytes
pack_le32 x = if ltb x (2 ^ 32) then some (le32 x) else none

-- The integers read back, from single bytes.
abbrev pub of_be16 : ℕ → ℕ → ℕ
of_be16 a b = a * 256 + b

abbrev pub of_be32 : ℕ → ℕ → ℕ → ℕ → ℕ
of_be32 a b c d = a * 2 ^ 24 + b * 2 ^ 16 + c * 256 + d

abbrev pub of_le16 : ℕ → ℕ → ℕ
of_le16 a b = a + b * 256

abbrev pub of_le32 : ℕ → ℕ → ℕ → ℕ → ℕ
of_le32 a b c d = a + b * 256 + c * 2 ^ 16 + d * 2 ^ 24

pub of_be32-be32 : (x : ℕ) → of_be32 (x / 2 ^ 24) (x / 2 ^ 16 % 256) (x / 256 % 256) (x % 256) ≡ x
of_be32-be32 x = omega arith

pub of_le32-le32 : (x : ℕ) → of_le32 (x % 256) (x / 256 % 256) (x / 2 ^ 16 % 256) (x / 2 ^ 24) ≡ x
of_le32-le32 x = omega arith
