-- ===== src/Rtsp/Reading/RoundTrip.antt =====
-- What `_read_request` of dvrbridge/rtsp/server.py makes of a request as a client writes it.
use dvrbridge.Base.{
  ℕ, suc, ◌≤◌, ◌<◌, Bool, true, false, [], ◌∷◌, ◌++◌, leb, ◌==◌, Bytes, length, length-append, All,
  All-append, ◌≡◌, ◌≢◌, refl, ap, ◌∙◌, arith, take-append_length, drop-append_length, is_nil,
}
use dvrbridge.Rtsp.Text.{is_blank_byte, is_blank_char, strip, trim_left, trim_right, keep}
use dvrbridge.Rtsp.Reading.{
  line_limit, max_header_bytes, max_headers, ok, Headers, header_loop, body_length, read_exactly,
  read_line, request, read_text, read_request,
}
use dvrbridge.Rtsp.Reading.Lines.{IsLine, read_line-newline, strip-append}
use dvrbridge.Rtsp.Reading.Block.{
  IsHeader, block, block_size, all_stored, AreNew, header_loop-block, is_nil-length,
}

-- A request by its first byte, what follows it on the request line, its headers and its body.
pub record Written : Type 0 where
  pub first : ℕ
  pub more : Bytes
  pub headers : Headers
  pub body : Bytes

-- Its bytes, and those behind it.
abbrev pub written : Written → Bytes → Bytes
written w rest = w.first ∷ ((w.more ++ 13 ∷ []) ++ 10 ∷ block w.headers (w.body ++ rest))

-- A request line with nothing to strip, that begins with no `$`, and headers with names that differ; all within the
-- limits, and the body as long as the headers say.
pub record IsWritten (w : Written) : Type 0 where
  pub no_packet : w.first ≢ 0x24
  pub visible : is_blank_byte w.first ≡ false
  pub line : IsLine w.more
  pub line_strip : strip is_blank_char (w.first ∷ w.more) ≡ w.first ∷ w.more
  pub line_fits : length w.more < line_limit
  pub headers : All IsHeader w.headers
  pub new : AreNew [] w.headers
  pub count : length w.headers ≤ max_headers
  pub size : block_size w.headers ≤ max_header_bytes
  pub body : body_length (all_stored w.headers) ≡ ok (length w.body)

pub block-length : (hs : Headers) (rest : Bytes) → length hs ≤ length (block hs rest)
block-length [] rest = omega arith
block-length (h ∷ hs) rest =
    let more = block-length hs rest in
    omega (arith, length-append {0} (h.0 ++ 58 ∷ 32 ∷ (h.1 ++ 13 ∷ [])) (10 ∷ block hs rest))

keep-positive :
    (blank : ℕ → Bool) (c : ℕ) (s : Bytes) → blank c ≡ false → 0 < length (keep blank c s)
unfolding keep
keep-positive blank c [] h = rw h (omega arith)
keep-positive blank c (x ∷ s) h = omega arith

-- A text whose first character is not blank is not stripped to nothing.
pub strip-visible :
    (blank : ℕ → Bool) (c : ℕ) (s : Bytes) → blank c ≡ false → is_nil (strip blank (c ∷ s)) ≡ false
unfolding strip trim_left trim_right
strip-visible blank c s h =
    rw (h, trim_left) (is_nil-length _ (keep-positive blank c (trim_right blank s) h))

pub read_exactly-append :
    (body rest : Bytes) → read_exactly (length body) (body ++ rest) ≡ ok (body, rest)
unfolding read_exactly
read_exactly-append body rest =
    let fits : leb (length body) (length (body ++ rest)) ≡ true =
      ground (arith, length-append body rest) in
    rw (fits, take-append_length body rest, drop-append_length body rest) refl

-- A request whose parts are read one behind the other.
read_text-parts :
    (first n : ℕ) (src l more after body rest : Bytes) (hs : Headers)
    → read_line src ≡ ok (l, more)
    → is_nil (strip is_blank_byte (first ∷ l)) ≡ false
    → header_loop (suc (length more)) [] 0 more ≡ ok (hs, after)
    → body_length hs ≡ ok n
    → read_exactly n after ≡ ok (body, rest)
    → read_text first src ≡ ok (request (strip is_blank_char (first ∷ l)) hs body, rest)
unfolding read_text
read_text-parts first n src l more after body rest hs line full headers size whole =
    ground (arith, line, full, headers, size, whole)

-- A request as a client writes it is read: its line, its headers by their names in lower case, and its body; what
-- is behind it is left. Its line begins with neither a blank nor a `$`, and there is nothing to strip from it;
-- the names of its headers differ, names and values are ASCII on one line with nothing to strip; all is within the
-- limits of the server, and the body is as long as the headers say.
pub read_request-written :
    (w : Written) (rest : Bytes)
    → IsWritten w
    → read_request (written w rest)
      ≡ ok (request (w.first ∷ w.more) (all_stored w.headers) w.body, rest)
unfolding read_request
read_request-written w rest k =
    let l = (w.more ++ 13 ∷ []) ++ 10 ∷ [] in
    let behind = block w.headers (w.body ++ rest) in
    let other : (w.first == 0x24) ≡ false = ground (arith, k.no_packet) in
    let stripped : strip is_blank_char (w.first ∷ l) ≡ w.first ∷ w.more =
      strip-append is_blank_char (w.first ∷ (w.more ++ 13 ∷ [])) (10 ∷ [])
        (unfold is_blank_char is_blank_byte in (refl, tt))
      ∙ strip-append is_blank_char (w.first ∷ w.more) (13 ∷ [])
          (unfold is_blank_char is_blank_byte in (refl, tt))
      ∙ k.line_strip in
    rw other (
      read_text-parts w.first (length w.body) ((w.more ++ 13 ∷ []) ++ 10 ∷ behind) l behind
        (w.body ++ rest) w.body rest (all_stored w.headers)
        (read_line-newline (w.more ++ 13 ∷ []) behind
          (All-append _ w.more (13 ∷ []) k.line (omega arith))
          (omega (arith, k.line_fits, length-append {0} w.more (13 ∷ []))))
        (strip-visible is_blank_byte w.first l k.visible)
        (header_loop-block (suc (length behind)) [] w.headers 0 (w.body ++ rest) k.headers k.new
          (omega (arith, k.size)) (omega (arith, k.count))
          (omega (arith, block-length w.headers (w.body ++ rest))))
        k.body (read_exactly-append w.body rest)
      ∙ ap (λ t. ok (request t (all_stored w.headers) w.body, rest)) stripped)
