-- ===== src/Rtsp/Reading/Flood.antt =====
-- The cap on the headers in `_read_request` of dvrbridge/rtsp/server.py.
use dvrbridge.Base.{
  ℕ, zero, suc, ◌+◌, ◌≤◌, ◌<◌, Bool, true, false, ◌||◌, Option, none, some, List, [], ◌∷◌, ◌++◌,
  ltb, leb, ◌==◌, Bytes, length, length-append, All, All-append, ◌≡◌, ◌≢◌, refl, ◌∙◌, arith,
  Bool-cases, inl, inr, is_nil,
}
use dvrbridge.Rtsp.Text.{is_blank_byte, is_blank_char, strip}
use dvrbridge.Rtsp.Dispatch.{lower}
use dvrbridge.Rtsp.Reading.{
  line_limit, max_header_bytes, max_headers, refused, ok, raised, Headers, set_header, split_colon,
  add_header, ends_headers, header_loop, read_line, read_text, read_request,
}
use dvrbridge.Rtsp.Reading.Lines.{IsLine, IsAscii, read_line-newline, decode-IsAscii}
use dvrbridge.Rtsp.Reading.Block.{ends_headers-length, header_loop-round}
use dvrbridge.Rtsp.Reading.RoundTrip.{strip-visible}

-- Two parts of ASCII, where there are two.
abbrev AreAscii : Option (Bytes × Bytes) → Type 0
AreAscii none = Unit
AreAscii (some p) = IsAscii p.0 × IsAscii p.1

split_colon-AreAscii : (l : Bytes) → IsAscii l → AreAscii (split_colon l)
unfolding split_colon
split_colon-AreAscii [] h = tt
split_colon-AreAscii (b ∷ l) h = elim (Bool-cases (b == 58)) [
  | inl e ↦ rw (e, split_colon) (tt, h.1)
  | inr e ↦ rw (e, split_colon) (go (split_colon l) (split_colon-AreAscii l h.1))
]
  where
    go :
        (o : Option (Bytes × Bytes))
        → AreAscii o
        → AreAscii (elim o [ none ↦ none | some p ↦ some (b ∷ p.0, p.1) ])
    go none a = tt
    go (some p) a = ((h.0, a.0), a.1)

-- A line of ASCII is no error.
add_header-IsAscii :
    (l : Bytes) (acc : Headers) → IsAscii l → (hs : Headers) × (add_header l acc ≡ ok hs)
add_header-IsAscii l acc h = go (split_colon l) refl (split_colon-AreAscii l h)
  where
    go :
        (o : Option (Bytes × Bytes))
        → split_colon l ≡ o
        → AreAscii o
        → (hs : Headers) × (add_header l acc ≡ ok hs)
    go none e a = (acc, unfold add_header in rw (e, add_header) refl)
    go (some p) e a = (
      set_header (lower (strip is_blank_char p.0)) (strip is_blank_char p.1) acc,
      unfold add_header in
          rw (e, add_header) (rw (decode-IsAscii p.0 a.0, decode-IsAscii p.1 a.1) refl),
    )

-- The text of a header line of ASCII, without its newline.
pub record IsHeaderLine (l : Bytes) : Type 0 where
  pub line : IsLine l
  pub ascii : IsAscii l
  pub long : 1 < length l
  pub fits : length l ≤ line_limit

abbrev pub lines : List Bytes → Bytes → Bytes
lines [] rest = rest
lines (l ∷ ls) rest = l ++ 10 ∷ lines ls rest

abbrev pub lines_size : List Bytes → ℕ
lines_size [] = 0
lines_size (l ∷ ls) = length l + 1 + lines_size ls

header_loop-over :
    (n : ℕ) (acc : Headers) (size : ℕ) (src l rest : Bytes)
    → read_line src ≡ ok (l, rest)
    → ends_headers l ≡ false
    → (ltb max_header_bytes (size + length l) || leb max_headers (length acc)) ≡ true
    → header_loop (suc n) acc size src ≡ raised (refused 431)
unfolding header_loop
header_loop-over n acc size src l rest line more over = ground (arith, line, more, over)

header_loop-flood :
    (n : ℕ) (acc : Headers) (size : ℕ) (ls : List Bytes) (rest : Bytes)
    → All IsHeaderLine ls
    → size ≤ max_header_bytes
    → max_header_bytes < size + lines_size ls
    → length ls ≤ n
    → header_loop n acc size (lines ls rest) ≡ raised (refused 431)
header_loop-flood n acc size [] rest k under over fuel = absurd (omega arith)
header_loop-flood zero acc size (l ∷ ls) rest k under over fuel = absurd (omega arith)
header_loop-flood (suc n) acc size (l ∷ ls) rest k under over fuel =
    go (header_loop-flood n) (read_line-newline l (lines ls rest) k.0.line k.0.fits)
      (ends_headers-length (l ++ 10 ∷ []) (omega (arith, k.0.long, long)))
  where
    long : length (l ++ 10 ∷ []) ≡ length l + 1
    long = length-append l (10 ∷ [])

    test : Bool
    test = ltb max_header_bytes (size + length (l ++ 10 ∷ [])) || leb max_headers (length acc)

    go :
        ((acc : Headers) (size : ℕ) (ls : List Bytes) (rest : Bytes)
          → All IsHeaderLine ls
          → size ≤ max_header_bytes
          → max_header_bytes < size + lines_size ls
          → length ls ≤ n
          → header_loop n acc size (lines ls rest) ≡ raised (refused 431))
        → read_line (l ++ 10 ∷ lines ls rest) ≡ ok (l ++ 10 ∷ [], lines ls rest)
        → ends_headers (l ++ 10 ∷ []) ≡ false
        → header_loop (suc n) acc size (l ++ 10 ∷ lines ls rest) ≡ raised (refused 431)
    go ih line more = elim (Bool-cases test) [
      | inl e ↦ header_loop-over n acc size _ (l ++ 10 ∷ []) (lines ls rest) line more e
      | inr e ↦
          let added =
            add_header-IsAscii (l ++ 10 ∷ []) acc
              (All-append _ l (10 ∷ []) k.0.ascii (omega arith)) in
          header_loop-round n acc added.0 size _ (l ++ 10 ∷ []) (lines ls rest) line more e added.1
          ∙ ih added.0 (size + length (l ++ 10 ∷ [])) ls rest k.1 (ground (arith, e))
              (omega (arith, long)) (omega arith)
    ]

lines-length : (ls : List Bytes) (rest : Bytes) → length ls ≤ length (lines ls rest)
lines-length [] rest = omega arith
lines-length (l ∷ ls) rest =
    omega (arith, length-append {0} l (10 ∷ lines ls rest), lines-length ls rest)

read_text-raised :
    (first code : ℕ) (src l more : Bytes)
    → read_line src ≡ ok (l, more)
    → is_nil (strip is_blank_byte (first ∷ l)) ≡ false
    → header_loop (suc (length more)) [] 0 more ≡ raised (refused code)
    → read_text first src ≡ raised (refused code)
unfolding read_text
read_text-raised first code src l more line full headers = ground (arith, line, full, headers)

-- A request whose header lines, of ASCII and none of them longer than the reader's limit, have more than 16 KiB together is
-- refused with 431, whatever comes behind them, the end of the headers or more of them; its line begins with neither a
-- blank nor a `$` and is within the limit.
pub read_request-flood :
    (first : ℕ) (more : Bytes) (ls : List Bytes) (rest : Bytes)
    → first ≢ 0x24
    → is_blank_byte first ≡ false
    → IsLine more
    → length more ≤ line_limit
    → All IsHeaderLine ls
    → max_header_bytes < lines_size ls
    → read_request (first ∷ (more ++ 10 ∷ lines ls rest)) ≡ raised (refused 431)
unfolding read_request
read_request-flood first more ls rest other visible line fits k over =
    let text : (first == 0x24) ≡ false = ground arith in
    rw text (
      read_text-raised first 431 (more ++ 10 ∷ lines ls rest) (more ++ 10 ∷ []) (lines ls rest)
        (read_line-newline more (lines ls rest) line fits)
        (strip-visible is_blank_byte first (more ++ 10 ∷ []) visible)
        (header_loop-flood (suc (length (lines ls rest))) [] 0 ls rest k (omega arith) (omega arith)
          (omega (arith, lines-length ls rest))))
