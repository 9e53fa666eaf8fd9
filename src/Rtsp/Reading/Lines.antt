-- ===== src/Rtsp/Reading/Lines.antt =====
-- Lines and texts of a request as dvrbridge/rtsp/server.py reads them, one by one.
use dvrbridge.Base.{
  ℕ, ◌+◌, ◌≤◌, ◌<◌, Bool, true, false, some, [], ◌∷◌, ◌++◌, leb, ◌==◌, Bytes, length, length-append,
  All, ◌≡◌, ◌≢◌, refl, ap, arith, Bool-cases, inl, inr,
}
use dvrbridge.Rtsp.Text.{trim_left, trim_right, keep, strip, lead, utf8, decode}
use dvrbridge.Rtsp.Reading.{line_limit, ok, split_line, read_line, split_colon}

abbrev pub crlf : Bytes
crlf = 13 ∷ 10 ∷ []

-- No newline.
abbrev pub IsLine : Bytes → Type 0
IsLine = All (λ b. b ≢ 10)

abbrev pub IsAscii : Bytes → Type 0
IsAscii = All (λ b. b < 128)

-- No colon.
abbrev pub IsKey : Bytes → Type 0
IsKey = All (λ b. b ≢ 58)

pub split_line-newline :
    (l rest : Bytes) → IsLine l → split_line (l ++ 10 ∷ rest) ≡ some (l ++ 10 ∷ [], rest)
unfolding split_line
split_line-newline [] rest h = refl
split_line-newline (b ∷ l) rest h =
    let other : (b == 10) ≡ false = ground (arith, h.0) in
    rw (other, split_line) (rw (split_line-newline l rest h.1) refl)

-- A line that is not too long is read, and what is behind it is left.
pub read_line-newline :
    (l rest : Bytes)
    → IsLine l
    → length l ≤ line_limit
    → read_line (l ++ 10 ∷ rest) ≡ ok (l ++ 10 ∷ [], rest)
unfolding read_line
read_line-newline l rest h n =
    let fits : leb (length (l ++ 10 ∷ [])) (line_limit + 1) ≡ true =
      ground (arith, length-append l (10 ∷ [])) in
    rw (split_line-newline l rest h, read_line) (rw fits refl)

pub split_colon-IsKey : (k v : Bytes) → IsKey k → split_colon (k ++ 58 ∷ v) ≡ some (k, v)
unfolding split_colon
split_colon-IsKey [] v h = refl
split_colon-IsKey (b ∷ k) v h =
    let other : (b == 58) ≡ false = ground (arith, h.0) in
    rw (other, split_colon) (rw (split_colon-IsKey k v h.1) refl)

utf8-IsAscii : (s : Bytes) → IsAscii s → utf8 0 0 0 0 s ≡ some s
unfolding utf8 lead
utf8-IsAscii [] h = refl
utf8-IsAscii (b ∷ s) h =
    let small : leb b 0x7F ≡ true = ground (arith, h.0) in
    rw (small, utf8) (rw (utf8-IsAscii s h.1) refl)

pub decode-IsAscii : (s : Bytes) → IsAscii s → decode s ≡ some s
unfolding decode
decode-IsAscii = utf8-IsAscii

module _ (blank : ℕ → Bool) where
  abbrev pub IsBlank : Bytes → Type 0
  IsBlank = All (λ b. blank b ≡ true)

  trim_left-IsBlank : (s : Bytes) → IsBlank s → trim_left blank s ≡ []
  unfolding trim_left
  trim_left-IsBlank [] h = refl
  trim_left-IsBlank (c ∷ s) h = rw (h.0, trim_left) (trim_left-IsBlank s h.1)

  trim_right-IsBlank : (s : Bytes) → IsBlank s → trim_right blank s ≡ []
  unfolding trim_right keep
  trim_right-IsBlank [] h = refl
  trim_right-IsBlank (c ∷ s) h = rw (trim_right-IsBlank s h.1) (rw (h.0) refl)

  trim_right-append : (t s : Bytes) → IsBlank s → trim_right blank (t ++ s) ≡ trim_right blank t
  unfolding trim_right
  trim_right-append [] s h = trim_right-IsBlank s h
  trim_right-append (c ∷ t) s h = ap (keep blank c) (trim_right-append t s h)

  -- What is blank behind a text is no part of it.
  pub strip-append : (t s : Bytes) → IsBlank s → strip blank (t ++ s) ≡ strip blank t
  unfolding strip trim_left
  strip-append [] s h = unfold trim_right in ap (trim_right blank) (trim_left-IsBlank s h)
  strip-append (c ∷ t) s h = elim (Bool-cases (blank c)) [
    | inl e ↦ rw (e, trim_left) (unfold strip in strip-append t s h)
    | inr e ↦ rw (e, trim_left) (trim_right-append (c ∷ t) s h)
  ]

  -- What is blank before a text is no part of it.
  pub strip-blank : (c : ℕ) (t : Bytes) → blank c ≡ true → strip blank (c ∷ t) ≡ strip blank t
  unfolding strip trim_left
  strip-blank c t h = rw (h, trim_left) refl
