-- ===== src/Rtsp/Text.antt =====
-- The texts that dvrbridge/rtsp/server.py decodes, strips and splits, as lists of code points. What Python's
-- `int` takes of digits is ASCII here.
use dvrbridge.Base.{
  ℕ, zero, suc, ◌+◌, ◌-◌, ◌*◌, Bool, true, false, ◌&&◌, ◌||◌, Option, none, some, [], ◌∷◌, leb,
  ◌==◌, if◌then◌else◌, Bytes, ℤ, pos, negated,
}

-- The white space of `bytes.strip`.
unfoldable pub is_blank_byte : ℕ → Bool
is_blank_byte b = (b == 32) || (leb 9 b && leb b 13)

-- The white space of `str.strip` and `str.split`.
unfoldable pub is_blank_char : ℕ → Bool
unfolding is_blank_byte
is_blank_char c =
    is_blank_byte c
    || (leb 28 c && leb c 31)
    || (c == 0x85)
    || (c == 0xA0)
    || (c == 0x1680)
    || (leb 0x2000 c && leb c 0x200A)
    || (leb 0x2028 c && leb c 0x2029)
    || (c == 0x202F)
    || (c == 0x205F)
    || (c == 0x3000)

unfoldable pub trim_left : (ℕ → Bool) → Bytes → Bytes
trim_left blank [] = []
trim_left blank (c ∷ s) = elim (blank c) [ true ↦ trim_left blank s | false ↦ c ∷ s ]

-- One character in front of what was trimmed on the right.
unfoldable pub keep : (ℕ → Bool) → ℕ → Bytes → Bytes
keep blank c [] = if blank c then [] else c ∷ []
keep blank c (x ∷ s) = c ∷ x ∷ s

unfoldable pub trim_right : (ℕ → Bool) → Bytes → Bytes
unfolding keep
trim_right blank [] = []
trim_right blank (c ∷ s) = keep blank c (trim_right blank s)

-- `strip`
unfoldable pub strip : (ℕ → Bool) → Bytes → Bytes
unfolding trim_left trim_right
strip blank s = trim_right blank (trim_left blank s)

-- What a first byte of UTF-8 announces: the bytes that follow, its part of the code point, and the
-- bounds of the next byte.
unfoldable pub lead : ℕ → Option (ℕ × ℕ × ℕ × ℕ)
lead b =
    if leb b 0x7F
    then some (0, b, 0, 0)
    else if leb 0xC2 b && leb b 0xDF
    then some (1, b - 0xC0, 0x80, 0xBF)
    else if b == 0xE0
    then some (2, 0, 0xA0, 0xBF)
    else if b == 0xED
    then some (2, 0xD, 0x80, 0x9F)
    else if leb 0xE1 b && leb b 0xEF
    then some (2, b - 0xE0, 0x80, 0xBF)
    else if b == 0xF0
    then some (3, 0, 0x90, 0xBF)
    else if leb 0xF1 b && leb b 0xF3
    then some (3, b - 0xF0, 0x80, 0xBF)
    else if b == 0xF4
    then some (3, 4, 0x80, 0x8F)
    else none

abbrev onto : ℕ → Option Bytes → Option Bytes
onto c none = none
onto c (some s) = some (c ∷ s)

-- UTF-8 by its bytes, with the bytes that are still to come, the code point so far and the bounds.
unfoldable pub utf8 : ℕ → ℕ → ℕ → ℕ → Bytes → Option Bytes
unfolding lead
utf8 zero acc lo hi [] = some []
utf8 (suc n) acc lo hi [] = none
utf8 zero acc lo hi (b ∷ bs) = elim (lead b) [
  | none ↦ none
  | some l ↦ elim (l.0 == 0) [ true ↦ onto b (utf8 0 0 0 0 bs) | false ↦ utf8 l.0 l.1 l.2 l.3 bs ]
]
utf8 (suc n) acc lo hi (b ∷ bs) = elim (leb lo b && leb b hi) [
  | false ↦ none
  | true ↦ elim (n == 0) [
    | true ↦ onto (acc * 64 + (b - 0x80)) (utf8 0 0 0 0 bs)
    | false ↦ utf8 n (acc * 64 + (b - 0x80)) 0x80 0xBF bs
  ]
]

-- `bytes.decode()`; `none` is the `UnicodeDecodeError`
unfoldable pub decode : Bytes → Option Bytes
unfolding utf8
decode s = utf8 0 0 0 0 s

-- Digits and single underscores between them, with whether a digit stands before.
unfoldable pub decimal : ℕ → Bool → Bytes → Option ℕ
decimal acc digit [] = if digit then some acc else none
decimal acc digit (c ∷ s) = elim (leb 48 c && leb c 57) [
  | true ↦ decimal (acc * 10 + (c - 48)) true s
  | false ↦ elim ((c == 95) && digit) [ true ↦ decimal acc false s | false ↦ none ]
]

unfoldable pub count_digits : Bytes → ℕ
count_digits [] = 0
count_digits (c ∷ s) = (if c == 95 then 0 else 1) + count_digits s

-- A number of at most 4300 digits.
unfoldable pub natural : Bytes → Option ℕ
unfolding decimal count_digits
natural s = if leb (count_digits s) 4300 then decimal 0 false s else none

unfoldable pub with_sign : Bytes → Option ℤ
unfolding natural
with_sign s =
    let signed : (ℕ → ℤ) → Option ℕ → Option ℤ =
      λ f o. elim o [ none ↦ none | some n ↦ some (f n) ] in
    elim s [
      | [] ↦ none
      | c ∷ more ↦
          if c == 45
          then signed negated (natural more)
          else if c == 43
          then signed pos (natural more)
          else signed pos (natural (c ∷ more))
    ]

-- `int`; `none` is the `ValueError`
unfoldable pub int : Bytes → Option ℤ
unfolding with_sign
int s = with_sign (strip is_blank_char s)
