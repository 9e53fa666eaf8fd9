-- ===== src/Rtsp/Reading/Within.antt =====
-- The bounds of what one call of `_read_request` in dvrbridge/rtsp/server.py reads.
use dvrbridge.Base.{
  ℕ, zero, suc, ◌+◌, ◌≤◌, ◌<◌, ◌||◌, Option, none, some, [], ◌∷◌, ltb, leb, ◌==◌, if◌then◌else◌,
  Bytes, length, length-take, length-drop, ◌≡◌, refl, arith, Bool-cases, inl, inr, is_nil, take,
  drop, text_eq, codes, pos, negsuc, ℤ,
}
use dvrbridge.Rtsp.Text.{is_blank_byte, is_blank_char, strip, decode, int}
use dvrbridge.Rtsp.Dispatch.{lower}
use dvrbridge.Rtsp.Reading.Ensures.{
  Ensures, Ensures-ok, Ensures-raised, Ensures-test, Ensures-weaken, Ensures-option, Ensures-if,
  Ensures-bind, Ensures-Any, Any,
}
use dvrbridge.Rtsp.Reading.{
  line_limit, max_body, max_header_bytes, max_headers, max_interleaved, cut_off, crashed, refused,
  ok, raised, or_raise, Headers, set_header, get_header, split_colon, add_header, ends_headers,
  header_loop, body_length, split_line, read_line, read_exactly, packet_size, read_packet,
  read_text, read_request, Received, packet, empty, request,
}

-- The bytes of a line, and those behind it.
abbrev Splits : Bytes → Option (Bytes × Bytes) → Type 0
Splits src none = Unit
Splits src (some p) = (length p.0 + length p.1 ≡ length src) × (0 < length p.0)

split_line-Splits : (src : Bytes) → Splits src (split_line src)
unfolding split_line
split_line-Splits [] = tt
split_line-Splits (b ∷ src) = elim (Bool-cases (b == 10)) [
  | inl e ↦ rw (e, split_line) (omega arith)
  | inr e ↦ rw (e, split_line) (go (split_line src) (split_line-Splits src))
]
  where
    go :
        (o : Option (Bytes × Bytes))
        → Splits src o
        → Splits (b ∷ src) (elim o [ none ↦ none | some p ↦ some (b ∷ p.0, p.1) ])
    go none h = tt
    go (some p) h = omega (arith, h)

-- A step that leaves no more than it was given, and hands on something within these bounds.
abbrev Leaves : {A : Type 0} → (A → Type 0) → ℕ → A × Bytes → Type 0
Leaves P n r = P r.0 × (length r.1 ≤ n)

-- A line and what is behind it are what was there; it is empty at the end alone.
abbrev pub IsRead : Bytes → Bytes × Bytes → Type 0
IsRead src l = (length l.0 + length l.1 ≡ length src) × (0 < length src → 0 < length l.0)

pub read_line-IsRead : (src : Bytes) → Ensures (IsRead src) (read_line src)
read_line-IsRead src = go (split_line src) refl (split_line-Splits src)
  where
    go :
        (o : Option (Bytes × Bytes))
        → split_line src ≡ o
        → Splits src o
        → Ensures (IsRead src) (read_line src)
    go none e h =
        unfold read_line in
        rw (e, read_line)
          (Ensures-if (IsRead src) crashed (leb (length src) line_limit) (src, [])
            (omega arith, λ p. p))
    go (some l) e h =
        unfold read_line in
        rw (e, read_line)
          (Ensures-if (IsRead src) crashed (leb (length l.0) (line_limit + 1)) l (h.0, λ p. h.1))

set_header-length : (k v : Bytes) (hs : Headers) → length (set_header k v hs) ≤ length hs + 1
unfolding set_header
set_header-length k v [] = omega arith
set_header-length k v ((k', v') ∷ hs) = elim (Bool-cases (text_eq k k')) [
  | inl e ↦ rw (e, set_header) (omega arith)
  | inr e ↦ rw (e, set_header) (omega (arith, set_header-length k v hs))
]

add_header-length :
    (h : Bytes) (hs : Headers) → Ensures (λ hs'. length hs' ≤ length hs + 1) (add_header h hs)
add_header-length h hs = go (split_colon h) refl
  where
    go :
        (o : Option (Bytes × Bytes))
        → split_colon h ≡ o
        → Ensures (λ hs'. length hs' ≤ length hs + 1) (add_header h hs)
    go none e = unfold add_header in rw (e, add_header) (Ensures-ok _ hs (omega arith))
    go (some p) e =
        unfold add_header in
        rw (e, add_header)
          (Ensures-bind Any _ (or_raise crashed (decode p.0)) _ (Ensures-Any _) (λ k t.
            Ensures-bind Any _ (or_raise crashed (decode p.1)) _ (Ensures-Any _) (λ v u.
              Ensures-ok _ _
                (set_header-length (lower (strip is_blank_char k)) (strip is_blank_char v) hs))))

-- At most `max_headers` of them, and no more bytes behind than there were.
abbrev AreBounded : ℕ → Headers × Bytes → Type 0
AreBounded n r = (length r.0 ≤ max_headers) × (length r.1 ≤ n)

header_loop-AreBounded :
    (n : ℕ) (hs : Headers) (size : ℕ) (src : Bytes)
    → length hs ≤ max_headers
    → Ensures (AreBounded (length src)) (header_loop n hs size src)
unfolding header_loop
header_loop-AreBounded zero hs size src h = Ensures-raised _ cut_off
header_loop-AreBounded (suc n) hs size src h =
    Ensures-bind (IsRead src) (AreBounded (length src)) (read_line src) _ (read_line-IsRead src)
      (λ l read.
        Ensures-test (AreBounded (length src)) (ends_headers l.0) _ _
          (λ e. Ensures-ok _ (hs, l.1) (h, omega (arith, read.0)))
          (λ e.
            Ensures-test (AreBounded (length src))
              (ltb max_header_bytes (size + length l.0) || leb max_headers (length hs)) _ _
              (λ over. Ensures-raised _ (refused 431))
              (λ under.
                Ensures-bind (λ hs'. length hs' ≤ length hs + 1) (AreBounded (length src))
                  (add_header l.0 hs) _ (add_header-length l.0 hs)
                  (λ hs' more.
                    Ensures-weaken (AreBounded (length l.1)) (AreBounded (length src)) _
                      (header_loop-AreBounded n hs' (size + length l.0) l.1
                        (ground (arith, more, under)))
                      (λ r b. (b.0, omega (arith, b.1, read.0)))))))

of_sign-bound :
    (z : ℤ)
    → Ensures
        (λ n. n ≤ max_body)
        (elim z [
          | pos n ↦ if leb n max_body then ok n else raised (refused 413)
          | negsuc n ↦ raised (refused 413)
        ])
of_sign-bound (pos n) = elim (Bool-cases (leb n max_body)) [
  | inl e ↦ rw e (Ensures-ok _ n (ground (arith, e)))
  | inr e ↦ rw e (Ensures-raised _ (refused 413))
]
of_sign-bound (negsuc n) = Ensures-raised _ (refused 413)

body_length-bound : (hs : Headers) → Ensures (λ n. n ≤ max_body) (body_length hs)
unfolding body_length
body_length-bound hs =
    Ensures-option _ (get_header (codes "content-length") hs) _ _ (Ensures-ok _ 0 (omega arith))
      (λ t. Ensures-option _ (int t) _ _ (Ensures-raised _ (refused 400)) of_sign-bound)

read_exactly-IsRead :
    (n : ℕ) (src : Bytes)
    → Ensures (λ r. (length r.0 ≡ n) × (length r.1 + n ≡ length src)) (read_exactly n src)
unfolding read_exactly
read_exactly-IsRead n src = elim (Bool-cases (leb n (length src))) [
  | inl e ↦
      let fits : n ≤ length src = ground (arith, e) in
      rw e (
        Ensures-ok _ (take n src, drop n src)
          (omega (arith, length-take n src), omega (arith, length-drop n src)))
  | inr e ↦ rw e (Ensures-raised _ cut_off)
]

-- What one call hands on is within the limits.
abbrev pub Within : Received → Type 0
Within (packet body) = length body ≤ max_interleaved
Within empty = Unit
Within (request line hs body) = (length hs ≤ max_headers) × (length body ≤ max_body)

abbrev Handed : ℕ → Received × Bytes → Type 0
Handed n r = Within r.0 × (length r.1 ≤ n)

read_packet-Handed : (src : Bytes) → Ensures (Handed (length src)) (read_packet src)
unfolding read_packet
read_packet-Handed src =
    Ensures-bind _ _ (read_exactly 3 src) _ (read_exactly-IsRead 3 src) (λ hdr h.
      Ensures-test _ (ltb max_interleaved (packet_size hdr.0)) _ _
        (λ e. Ensures-raised _ (refused 400))
        (λ e.
          Ensures-bind _ _ (read_exactly (packet_size hdr.0) hdr.1) _
            (read_exactly-IsRead (packet_size hdr.0) hdr.1)
            (λ body b. Ensures-ok _ _ (ground (arith, b, e), omega (arith, b, h)))))

read_text-Handed : (first : ℕ) (src : Bytes) → Ensures (Handed (length src)) (read_text first src)
unfolding read_text
read_text-Handed first src = Ensures-bind _ _ (read_line src) _ (read_line-IsRead src) (λ l h.
    Ensures-test _ (is_nil (strip is_blank_byte (first ∷ l.0))) _ _
      (λ e. Ensures-ok _ _ (tt, omega (arith, h.0)))
      (λ e.
        Ensures-bind _ _ (header_loop (suc (length l.1)) [] 0 l.1) _
          (header_loop-AreBounded (suc (length l.1)) [] 0 l.1 (omega arith))
          (λ hs b. Ensures-bind _ _ (body_length hs.0) _ (body_length-bound hs.0) (λ n m.
            Ensures-bind _ _ (read_exactly n hs.1) _ (read_exactly-IsRead n hs.1)
              (λ body r. Ensures-ok _ _ ((b.0, omega (arith, r, m)), omega (arith, r, b, h.0)))))))

-- A request, and at least one byte less.
pub read_request-Within :
    (src : Bytes) → Ensures (λ r. Within r.0 × (length r.1 < length src)) (read_request src)
unfolding read_request
read_request-Within [] = Ensures-raised _ cut_off
read_request-Within (first ∷ src) = elim (Bool-cases (first == 0x24)) [
  | inl e ↦ rw e (Ensures-weaken _ _ _ (read_packet-Handed src) (λ r h. (h.0, omega (arith, h.1))))
  | inr e ↦
      rw e (Ensures-weaken _ _ _ (read_text-Handed first src) (λ r h. (h.0, omega (arith, h.1))))
]
