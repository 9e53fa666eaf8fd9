-- ===== src/Rtsp/Reading/Block.antt =====
-- The header lines of a request as a client writes them, and what `_read_request` of dvrbridge/rtsp/server.py makes of them.
use dvrbridge.Base.{
  ℕ, zero, suc, ◌+◌, ◌≤◌, ◌<◌, false, ◌||◌, none, [], ◌∷◌, ◌++◌, ltb, leb, Bytes, length,
  length-append, append_assoc, append-nil, All, All-append, ◌≡◌, ◌≢◌, refl, sym, ap, ◌∙◌, arith,
  text_eq, Bool-cases, inl, inr, eq_of_text_eq, is_nil,
}
use dvrbridge.Rtsp.Text.{is_blank_byte, is_blank_char, strip}
use dvrbridge.Rtsp.Dispatch.{lower}
use dvrbridge.Rtsp.Reading.{
  max_header_bytes, max_headers, ok, Headers, set_header, get_header, add_header, ends_headers,
  header_loop, read_line,
}
use dvrbridge.Rtsp.Reading.Lines.{
  crlf, IsLine, IsAscii, IsKey, read_line-newline, split_colon-IsKey, decode-IsAscii, strip-append,
  strip-blank,
}

-- A header line up to its newline.
abbrev pub header_text : Bytes × Bytes → Bytes
header_text h = h.0 ++ 58 ∷ 32 ∷ (h.1 ++ 13 ∷ [])

-- A name with no colon, and a value: ASCII, on one line, with nothing to strip.
pub record IsHeader (h : Bytes × Bytes) : Type 0 where
  pub key : IsKey h.0
  pub key_ascii : IsAscii h.0
  pub key_line : IsLine h.0
  pub key_strip : strip is_blank_char h.0 ≡ h.0
  pub value_ascii : IsAscii h.1
  pub value_line : IsLine h.1
  pub value_strip : strip is_blank_char h.1 ≡ h.1

-- The header lines, the empty line, and what is behind.
abbrev pub block : Headers → Bytes → Bytes
block [] rest = crlf ++ rest
block (h ∷ hs) rest = header_text h ++ 10 ∷ block hs rest

abbrev pub block_size : Headers → ℕ
block_size [] = 0
block_size (h ∷ hs) = length (header_text h) + 1 + block_size hs

-- What is stored of a header.
abbrev pub stored : Bytes × Bytes → Bytes × Bytes
stored h = (lower h.0, h.1)

abbrev pub all_stored : Headers → Headers
all_stored [] = []
all_stored (h ∷ hs) = stored h ∷ all_stored hs

-- No name comes twice, in any case, nor stands in `acc`.
abbrev pub AreNew : Headers → Headers → Type 0
AreNew acc [] = Unit
AreNew acc (h ∷ hs) = (get_header (lower h.0) acc ≡ none) × AreNew (acc ++ stored h ∷ []) hs

pub get_header-other :
    (k k' v' : Bytes) (hs : Headers)
    → text_eq k k' ≡ false
    → get_header k ((k', v') ∷ hs) ≡ get_header k hs
unfolding get_header
get_header-other k k' v' hs e = rw (e, get_header) refl

pub set_header-new :
    (k v : Bytes) (hs : Headers) → get_header k hs ≡ none → set_header k v hs ≡ hs ++ (k, v) ∷ []
unfolding set_header get_header
set_header-new k v [] h = refl
set_header-new k v ((k', v') ∷ hs) h = elim (Bool-cases (text_eq k k')) [
  | inl e ↦ cc (e, h)
  | inr e ↦
      rw (e, set_header)
        (ap (λ t. (k', v') ∷ t) (set_header-new k v hs (sym (get_header-other k k' v' hs e) ∙ h)))
]

-- What is behind the colon of a header line.
abbrev pub behind_colon : Bytes × Bytes → Bytes
behind_colon h = 32 ∷ ((h.1 ++ 13 ∷ []) ++ 10 ∷ [])

module _ (h : Bytes × Bytes) (k : IsHeader h) where
  pub header_text-parts : header_text h ++ 10 ∷ [] ≡ h.0 ++ 58 ∷ behind_colon h
  header_text-parts = append_assoc h.0 (58 ∷ 32 ∷ (h.1 ++ 13 ∷ [])) (10 ∷ [])

  pub behind_colon-IsAscii : IsAscii (behind_colon h)
  behind_colon-IsAscii = (
    omega arith,
    All-append _ (h.1 ++ 13 ∷ []) (10 ∷ []) (All-append _ h.1 (13 ∷ []) k.value_ascii (omega arith))
        (omega arith),
  )

  pub strip-behind_colon : strip is_blank_char (behind_colon h) ≡ h.1
  strip-behind_colon =
      strip-blank is_blank_char 32 _ (unfold is_blank_char is_blank_byte in refl)
      ∙ strip-append is_blank_char (h.1 ++ 13 ∷ []) (10 ∷ [])
          (unfold is_blank_char is_blank_byte in (refl, tt))
      ∙ strip-append is_blank_char h.1 (13 ∷ []) (unfold is_blank_char is_blank_byte in (refl, tt))
      ∙ k.value_strip

-- A header line adds its header.
add_header-IsHeader :
    (h : Bytes × Bytes) (acc : Headers)
    → IsHeader h
    → get_header (lower h.0) acc ≡ none
    → add_header (header_text h ++ 10 ∷ []) acc ≡ ok (acc ++ stored h ∷ [])
unfolding add_header
add_header-IsHeader h acc k new =
    ap (λ t. add_header t acc) (header_text-parts h k)
    ∙ rw (split_colon-IsKey h.0 (behind_colon h) k.key, add_header)
        (rw
          (
            decode-IsAscii h.0 k.key_ascii,
            decode-IsAscii (behind_colon h) (behind_colon-IsAscii h k),
            strip-behind_colon h k,
            k.key_strip,
            set_header-new (lower h.0) h.1 acc new,
          )
          refl)

pub header_text-IsLine : (h : Bytes × Bytes) → IsHeader h → IsLine (header_text h)
header_text-IsLine h k =
    All-append _ h.0 (58 ∷ 32 ∷ (h.1 ++ 13 ∷ [])) k.key_line
      (omega arith, (omega arith, All-append _ h.1 (13 ∷ []) k.value_line (omega arith)))

pub text_eq-length : (s t : Bytes) → length s ≢ length t → text_eq s t ≡ false
text_eq-length s t h = elim (Bool-cases (text_eq s t)) [
  | inl e ↦ absurd (h (ap length (eq_of_text_eq s t e)))
  | inr e ↦ e
]

pub is_nil-length : (s : Bytes) → 0 < length s → is_nil s ≡ false
is_nil-length [] h = absurd (omega arith)
is_nil-length (x ∷ s) h = refl

-- A line of three bytes or more does not end the headers.
pub ends_headers-length : (l : Bytes) → 2 < length l → ends_headers l ≡ false
unfolding ends_headers
ends_headers-length l h =
    rw
      (
        is_nil-length l (omega arith),
        text_eq-length l (10 ∷ []) (omega arith),
        text_eq-length l (13 ∷ 10 ∷ []) (omega arith),
      )
      refl

pub text_length : (h : Bytes × Bytes) → 2 < length (header_text h ++ 10 ∷ [])
text_length h = omega (
  arith,
  length-append {0} (header_text h) (10 ∷ []),
  length-append {0} h.0 (58 ∷ 32 ∷ (h.1 ++ 13 ∷ [])),
)

-- One round of the loop.
pub header_loop-round :
    (n : ℕ) (acc hs : Headers) (size : ℕ) (src l rest : Bytes)
    → read_line src ≡ ok (l, rest)
    → ends_headers l ≡ false
    → (ltb max_header_bytes (size + length l) || leb max_headers (length acc)) ≡ false
    → add_header l acc ≡ ok hs
    → header_loop (suc n) acc size src ≡ header_loop n hs (size + length l) rest
unfolding header_loop
header_loop-round n acc hs size src l rest line more under stored =
    ground (arith, line, more, under, stored)

header_loop-line :
    (n : ℕ) (acc : Headers) (size : ℕ) (h : Bytes × Bytes) (src : Bytes)
    → IsHeader h
    → get_header (lower h.0) acc ≡ none
    → size + length (header_text h ++ 10 ∷ []) ≤ max_header_bytes
    → length acc < max_headers
    → header_loop (suc n) acc size (header_text h ++ 10 ∷ src)
      ≡ header_loop n (acc ++ stored h ∷ []) (size + length (header_text h ++ 10 ∷ [])) src
header_loop-line n acc size h src k new fits room =
    header_loop-round n acc (acc ++ stored h ∷ []) size (header_text h ++ 10 ∷ src)
      (header_text h ++ 10 ∷ []) src
      (read_line-newline (header_text h) src (header_text-IsLine h k)
        (omega (arith, length-append {0} (header_text h) (10 ∷ []))))
      (ends_headers-length (header_text h ++ 10 ∷ []) (text_length h)) (ground arith)
      (add_header-IsHeader h acc k new)

-- The loop stops at the empty line.
header_loop-crlf :
    (n : ℕ) (acc : Headers) (size : ℕ) (rest : Bytes)
    → header_loop (suc n) acc size (crlf ++ rest) ≡ ok (acc, rest)
unfolding header_loop
header_loop-crlf n acc size rest =
    let line : read_line (crlf ++ rest) ≡ ok (crlf, rest) =
      read_line-newline (13 ∷ []) rest (omega arith) (omega arith) in
    rw (line, header_loop) (unfold ends_headers text_eq in refl)

pub header_loop-block :
    (n : ℕ) (acc hs : Headers) (size : ℕ) (rest : Bytes)
    → All IsHeader hs
    → AreNew acc hs
    → size + block_size hs ≤ max_header_bytes
    → length acc + length hs ≤ max_headers
    → length hs < n
    → header_loop n acc size (block hs rest) ≡ ok (acc ++ all_stored hs, rest)
header_loop-block zero acc hs size rest k new fits room fuel = absurd (omega arith)
header_loop-block (suc n) acc [] size rest k new fits room fuel =
    header_loop-crlf n acc size rest ∙ ap (λ t. ok (t, rest)) (sym (append-nil acc))
header_loop-block (suc n) acc (h ∷ hs) size rest k new fits room fuel =
    let long = length-append {0} (header_text h) (10 ∷ []) in
    header_loop-line n acc size h (block hs rest) k.0 new.0 (omega arith) (omega arith)
    ∙ header_loop-block n (acc ++ stored h ∷ []) hs (size + length (header_text h ++ 10 ∷ [])) rest
        k.1 new.1 (omega arith) (omega (arith, length-append {0} acc (stored h ∷ []))) (omega arith)
    ∙ ap (λ t. ok (t, rest)) (append_assoc acc (stored h ∷ []) (all_stored hs))
