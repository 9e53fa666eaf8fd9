-- ===== src/Rtsp/Answer/Client.antt =====
-- The client of tests/tests_rtsp_client.py, `_read_response`, on what a server sends up to its end. The interleaved
-- frames before an answer are skipped; the queue that takes them is left out.
use dvrbridge.Base.{
  ℕ, zero, suc, true, false, Option, none, some, [], ◌∷◌, ◌==◌, if◌then◌else◌, Bytes, length,
  is_nil, starts_with, codes, ℤ, pos, negsuc,
}
use dvrbridge.Rtsp.Text.{is_blank_char, strip, trim_left, decode, int}
use dvrbridge.Rtsp.Dispatch.{lower}
use dvrbridge.Rtsp.Reading.{
  cut_off, crashed, Result, ok, raised, or_raise, ◌>>=◌, Headers, set_header, get_header,
  split_colon, ends_headers, read_line, read_exactly, packet_size,
}

-- `partition(":")`, the parts before and behind
unfoldable pub partition : Bytes → Bytes × Bytes
partition s = elim (split_colon s) [ none ↦ (s, []) | some kv ↦ kv ]

-- the loop over the header lines, by the lines that may still come
unfoldable pub response_headers : ℕ → Headers → Bytes → Result (Headers × Bytes)
unfolding partition
response_headers zero hs src = raised cut_off
response_headers (suc n) hs src = do
  l ← read_line src
  elim (ends_headers l.0) [
    | true ↦ ok (hs, l.1)
    | false ↦ do
      text ← or_raise crashed (decode l.0)
      let kv = partition text
      response_headers n
          (set_header (lower (strip is_blank_char kv.0)) (strip is_blank_char kv.1) hs) l.1
  ]

-- The characters up to the first white space, and those from there on.
unfoldable pub word : Bytes → Bytes
word [] = []
word (c ∷ s) = elim (is_blank_char c) [ true ↦ [] | false ↦ c ∷ word s ]

unfoldable pub skip_word : Bytes → Bytes
skip_word [] = []
skip_word (c ∷ s) = elim (is_blank_char c) [ true ↦ c ∷ s | false ↦ skip_word s ]

-- `split()[1]`; `none` is the `IndexError`
unfoldable pub second_word : Bytes → Option Bytes
unfolding word skip_word
second_word s =
    let w = word (trim_left is_blank_char (skip_word (trim_left is_blank_char s))) in
    if is_nil w then none else some w

-- `code`, behind the `assert`
unfoldable pub status_code : Bytes → Result ℤ
unfolding second_word
status_code text = elim (starts_with (codes "RTSP/1.0 ") text) [
  | false ↦ raised crashed
  | true ↦ do w ← or_raise crashed (second_word text); or_raise crashed (int w)
]

-- `body`; a negative length is a `ValueError`
unfoldable pub response_body : Headers → Bytes → Result (Bytes × Bytes)
response_body hs src = elim (get_header (codes "content-length") hs) [
  | none ↦ ok ([], src)
  | some t ↦ do
    z ← or_raise crashed (int t)
    elim z [ pos n ↦ read_exactly n src | negsuc n ↦ raised crashed ]
]

-- `_read_response`, by the rounds that may still come
unfoldable pub read_response : ℕ → Bytes → Result ((ℤ × Headers × Bytes) × Bytes)
unfolding status_code response_headers response_body
read_response zero src = raised cut_off
read_response (suc n) [] = raised cut_off
read_response (suc n) (first ∷ src) = elim (first == 0x24) [
  | true ↦ do
    hdr ← read_exactly 3 src
    body ← read_exactly (packet_size hdr.0) hdr.1
    read_response n body.1
  | false ↦ do
    l ← read_line src
    text ← or_raise crashed (decode (first ∷ l.0))
    elim (is_nil (strip is_blank_char text)) [
      | true ↦ read_response n l.1
      | false ↦ do
        code ← status_code text
        hs ← response_headers (suc (length l.1)) [] l.1
        body ← response_body hs.0 hs.1
        ok ((code, hs.0, body.0), body.1)
    ]
]
