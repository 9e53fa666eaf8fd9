-- ===== src/Rtsp/Reading.antt =====
-- `_read_request` of dvrbridge/rtsp/server.py, on what a client sends up to its end, and the loop of `run`. The
-- time limits are left out.
pub mod Lines
pub mod Block
pub mod RoundTrip
pub mod Flood
pub mod Ensures
pub mod Within
pub mod Loop
mod Fuel
mod Tests
use dvrbridge.Base.{
  ℕ, zero, suc, ◌+◌, ◌*◌, Bool, true, false, ◌&&◌, ◌||◌, Option, none, some, List, [], ◌∷◌, ◌++◌,
  ltb, leb, ◌==◌, if◌then◌else◌, Bytes, length, take, drop, is_nil, codes, text_eq, ℤ, pos, negsuc,
}
use dvrbridge.Base.Struct.{of_be16}
use dvrbridge.Rtsp.Text.{is_blank_byte, is_blank_char, strip, decode, int}
use dvrbridge.Rtsp.Dispatch.{lower}

-- `MAX_BODY`, `MAX_INTERLEAVED`, `MAX_HEADERS` and `MAX_HEADER_BYTES`
abbrev pub max_body : ℕ
max_body = 64 * 1024

abbrev pub max_interleaved : ℕ
max_interleaved = 64 * 1024

abbrev pub max_headers : ℕ
max_headers = 100

abbrev pub max_header_bytes : ℕ
max_header_bytes = 16 * 1024

-- The limit of a line of an `asyncio.StreamReader`.
abbrev pub line_limit : ℕ
line_limit = 64 * 1024

-- What ends the loop of `run`: the end of the connection; an exception that is only logged; an answer.
pub data Fault : Type 0 where
  cut_off crashed : Fault
  refused : ℕ → Fault

pub data Result {ℓ} (A : Type ℓ) : Type ℓ where
  ok : A → Result A
  raised : Fault → Result A

infixl 5 ◌>>=◌
abbrev pub ◌>>=◌ {ℓ κ} : {A : Type ℓ} {B : Type κ} → Result A → (A → Result B) → Result B
ok a >>= f = f a
raised e >>= f = raised e

-- An error that is an exception of the standard library.
abbrev pub or_raise {ℓ} : {A : Type ℓ} → Fault → Option A → Result A
or_raise e none = raised e
or_raise e (some a) = ok a

abbrev onto : ℕ → Option (Bytes × Bytes) → Option (Bytes × Bytes)
onto b none = none
onto b (some p) = some (b ∷ p.0, p.1)

-- A line with its newline, and what is behind.
unfoldable pub split_line : Bytes → Option (Bytes × Bytes)
split_line [] = none
split_line (b ∷ src) = elim (b == 10) [
  | true ↦ some (10 ∷ [], src)
  | false ↦ onto b (split_line src)
]

-- `readline`
unfoldable pub read_line : Bytes → Result (Bytes × Bytes)
unfolding split_line
read_line src = elim (split_line src) [
  | none ↦ if leb (length src) line_limit then ok (src, []) else raised crashed
  | some l ↦ if leb (length l.0) (line_limit + 1) then ok l else raised crashed
]

-- `readexactly`
unfoldable pub read_exactly : ℕ → Bytes → Result (Bytes × Bytes)
read_exactly n src = if leb n (length src) then ok (take n src, drop n src) else raised cut_off

abbrev pub Headers : Type 0
Headers = List (Bytes × Bytes)

-- `headers[k] = v`
unfoldable pub set_header : Bytes → Bytes → Headers → Headers
set_header k v [] = (k, v) ∷ []
set_header k v ((k', v') ∷ hs) = elim (text_eq k k') [
  | true ↦ (k', v) ∷ hs
  | false ↦ (k', v') ∷ set_header k v hs
]

-- `headers.get`
unfoldable pub get_header : Bytes → Headers → Option Bytes
get_header k [] = none
get_header k ((k', v') ∷ hs) = elim (text_eq k k') [ true ↦ some v' | false ↦ get_header k hs ]

-- `h.split(b":", 1)`, where there is one
unfoldable pub split_colon : Bytes → Option (Bytes × Bytes)
split_colon [] = none
split_colon (b ∷ s) = elim (b == 58) [ true ↦ some ([], s) | false ↦ onto b (split_colon s) ]

-- one header line
unfoldable pub add_header : Bytes → Headers → Result Headers
unfolding split_colon lower set_header
add_header h hs = elim (split_colon h) [
  | none ↦ ok hs
  | some kv ↦ do
    k ← or_raise crashed (decode kv.0)
    v ← or_raise crashed (decode kv.1)
    ok (set_header (lower (strip is_blank_char k)) (strip is_blank_char v) hs)
]

-- `h in (b"\r\n", b"\n", b"")`
unfoldable pub ends_headers : Bytes → Bool
ends_headers h = is_nil h || text_eq h (10 ∷ []) || text_eq h (13 ∷ 10 ∷ [])

-- the loop over the header lines, by the lines that may still come
unfoldable pub header_loop : ℕ → Headers → ℕ → Bytes → Result (Headers × Bytes)
unfolding read_line add_header ends_headers
header_loop zero hs size src = raised cut_off
header_loop (suc n) hs size src = do
  l ← read_line src
  elim (ends_headers l.0) [
    | true ↦ ok (hs, l.1)
    | false ↦ elim (ltb max_header_bytes (size + length l.0) || leb max_headers (length hs)) [
      | true ↦ raised (refused 431)
      | false ↦ do hs' ← add_header l.0 hs; header_loop n hs' (size + length l.0) l.1
    ]
  ]

-- `n` of a `content-length`
unfoldable pub body_length : Headers → Result ℕ
unfolding get_header
body_length hs = elim (get_header (codes "content-length") hs) [
  | none ↦ ok 0
  | some t ↦ elim (int t) [
    | none ↦ raised (refused 400)
    | some z ↦ elim z [
      | pos n ↦ if leb n max_body then ok n else raised (refused 413)
      | negsuc n ↦ raised (refused 413)
    ]
  ]
]

-- What one call reads: an interleaved packet, an empty line, or a request for `_dispatch`.
pub data Received : Type 0 where
  packet : Bytes → Received
  empty : Received
  request : Bytes → Headers → Bytes → Received

-- `int.from_bytes(hdr[1:3], "big")`
unfoldable pub packet_size : Bytes → ℕ
packet_size (ch ∷ hi ∷ lo ∷ []) = of_be16 hi lo
packet_size _ = 0

-- an interleaved packet, behind its `$`
unfoldable pub read_packet : Bytes → Result (Received × Bytes)
unfolding read_exactly packet_size
read_packet src = do
  hdr ← read_exactly 3 src
  let size = packet_size hdr.0
  elim (ltb max_interleaved size) [
    | true ↦ raised (refused 400)
    | false ↦ do body ← read_exactly size hdr.1; ok (packet body.0, body.1)
  ]

-- a request, behind its first byte
unfoldable pub read_text : ℕ → Bytes → Result (Received × Bytes)
unfolding header_loop body_length
read_text first src = do
  l ← read_line src
  elim (is_nil (strip is_blank_byte (first ∷ l.0))) [
    | true ↦ ok (empty, l.1)
    | false ↦ do
      hs ← header_loop (suc (length l.1)) [] 0 l.1
      n ← body_length hs.0
      body ← read_exactly n hs.1
      ok (request (strip is_blank_char (first ∷ l.0)) hs.0 body.0, body.1)
  ]

-- `_read_request`
unfoldable pub read_request : Bytes → Result (Received × Bytes)
unfolding read_packet read_text
read_request [] = raised cut_off
read_request (first ∷ src) = if first == 0x24 then read_packet src else read_text first src
