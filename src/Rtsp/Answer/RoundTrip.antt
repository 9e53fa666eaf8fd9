-- ===== src/Rtsp/Answer/RoundTrip.antt =====
-- What the client of tests/tests_rtsp_client.py reads of an answer of `_respond` in dvrbridge/rtsp/server.py.
use dvrbridge.Base.{
  List, ◌==◌, ◌*◌, ◌/◌, ◌%◌, ◌^◌, ℕ, suc, zero, ◌+◌, ◌≤◌, ◌<◌, false, some, [], ◌∷◌, ◌++◌, Bytes,
  length, is_nil, length-append, append_assoc, All, All-append, ◌≡◌, ◌≢◌, refl, sym, ap, ◌∙◌, arith,
  codes, pos,
}
use dvrbridge.Base.Struct.{be16}
use dvrbridge.Rtsp.Text.{is_blank_byte, is_blank_char, strip, decode}
use dvrbridge.Rtsp.Reading.{line_limit, ok, Headers, read_exactly, read_line, packet_size}
use dvrbridge.Rtsp.Reading.Lines.{crlf, IsLine, IsAscii, read_line-newline, decode-IsAscii}
use dvrbridge.Rtsp.Reading.Block.{IsHeader, header_text, block, block_size, all_stored, AreNew}
use dvrbridge.Rtsp.Reading.RoundTrip.{block-length, read_exactly-append, strip-visible}
use dvrbridge.Rtsp.Answer.{
  str, sent_headers, name_value, name_values, status_line, join_lines, respond,
}
use dvrbridge.Rtsp.Answer.Decimal.{int-str}
use dvrbridge.Rtsp.Answer.Sent.{NoLength, all_sent, sent_headers-all_sent, get_header-all_sent}
use dvrbridge.Rtsp.Answer.Client.{response_headers, status_code, response_body, read_response}
use dvrbridge.Rtsp.Answer.Status.{status_code-status, status_rest, status_rest-of, All-status_rest}
use dvrbridge.Rtsp.Answer.HeaderLines.{response_headers-block}

-- Lines that are joined, and the empty line, are a block.
join_lines-block :
    (l : Bytes) (hs : Headers) (tail : Bytes)
    → join_lines (l ∷ name_values hs) ++ (crlf ++ (crlf ++ tail))
      ≡ (l ++ 13 ∷ []) ++ 10 ∷ block hs tail
unfolding join_lines
join_lines-block l [] tail = sym (append_assoc l (13 ∷ []) (10 ∷ crlf ++ tail))
join_lines-block l (h ∷ hs) tail =
    let behind : Bytes = crlf ++ (crlf ++ tail) in
    let rest = join_lines-block (name_value h) hs tail in
    let text : (name_value h ++ 13 ∷ []) ≡ header_text h =
      append_assoc h.0 (58 ∷ 32 ∷ h.1) (13 ∷ []) in
    append_assoc l (crlf ++ join_lines (name_value h ∷ name_values hs)) behind
    ∙ ap (λ t. l ++ 13 ∷ 10 ∷ t) (rest ∙ ap (λ t. t ++ 10 ∷ block hs tail) text)
    ∙ sym (append_assoc l (13 ∷ []) (10 ∷ block (h ∷ hs) tail))

respond-block :
    (server : Bytes) (code : ℕ) (reason : Bytes) (headers : Headers) (body rest : Bytes)
    → NoLength headers
    → respond server code reason headers body ++ rest
      ≡ (status_line code reason ++ 13 ∷ [])
        ++ 10 ∷ block (all_sent server headers body) (body ++ rest)
unfolding respond
respond-block server code reason headers body rest free =
    let sent = (codes "Server", server) ∷ sent_headers headers body in
    append_assoc (join_lines (status_line code reason ∷ name_values sent)) (crlf ++ (crlf ++ body))
      rest
    ∙ join_lines-block (status_line code reason) sent (body ++ rest)
    ∙ ap (λ hs. (status_line code reason ++ 13 ∷ []) ++ 10 ∷ block hs (body ++ rest))
        (sent_headers-all_sent server headers body free)

response_body-all_sent :
    (server : Bytes) (headers : Headers) (body rest : Bytes)
    → NoLength headers
    → length body < 10 ^ 5
    → response_body (all_stored (all_sent server headers body)) (body ++ rest) ≡ ok (body, rest)
unfolding response_body
response_body-all_sent server headers [] rest free small =
    rw (get_header-all_sent server headers [] free, response_body) refl
response_body-all_sent server headers (b ∷ body) rest free small =
    rw (get_header-all_sent server headers (b ∷ body) free, response_body)
      (rw (int-str (length (b ∷ body)) small) (read_exactly-append (b ∷ body) rest))

-- An interleaved frame.
abbrev pub frame : ℕ × Bytes → Bytes
frame f = 0x24 ∷ f.0 ∷ be16 (length f.1) ++ f.1

abbrev pub frames_text : List (ℕ × Bytes) → Bytes → Bytes
frames_text [] rest = rest
frames_text (f ∷ fs) rest = frame f ++ frames_text fs rest

read_response-skip :
    (n : ℕ) (src hdr more body rest : Bytes)
    → read_exactly 3 src ≡ ok (hdr, more)
    → read_exactly (packet_size hdr) more ≡ ok (body, rest)
    → read_response (suc n) (0x24 ∷ src) ≡ read_response n rest
unfolding read_response
read_response-skip n src hdr more body rest head tail = rw head (rw tail refl)

read_response-frame :
    (n ch : ℕ) (payload rest : Bytes)
    → length payload < 2 ^ 16
    → read_response (suc n) (frame (ch, payload) ++ rest) ≡ read_response n rest
unfolding packet_size
read_response-frame n ch payload rest small =
    let l = length payload in
    let size : l / 256 * 256 + l % 256 ≡ l = omega arith in
    read_response-skip n _ (ch ∷ be16 l) (payload ++ rest) payload rest
      (read_exactly-append (ch ∷ be16 l) (payload ++ rest))
      (ap (λ k. read_exactly k (payload ++ rest)) size ∙ read_exactly-append payload rest)

-- An answer: its reason is ASCII on one line, and its headers have names that differ, none of those given for the length of the
-- body; the status line is shorter than a line may be, the block of headers no longer, and the status and the body's length below 100000.
pub record IsAnswer (server : Bytes) (code : ℕ) (reason : Bytes) (headers : Headers) (body : Bytes)
    : Type 0 where
  pub reason_line : IsLine reason
  pub reason_ascii : IsAscii reason
  pub code_fits : code < 10 ^ 5
  pub line_fits : length (status_line code reason) < line_limit
  pub no_length : NoLength headers
  pub are_headers : All IsHeader (all_sent server headers body)
  pub new : AreNew [] (all_sent server headers body)
  pub size : block_size (all_sent server headers body) ≤ line_limit
  pub room : length body < 10 ^ 5

read_response-parts :
    (n first c : ℕ) (src l more text after body rest : Bytes) (hs : Headers)
    → (first == 0x24) ≡ false
    → read_line src ≡ ok (l, more)
    → decode (first ∷ l) ≡ some text
    → is_nil (strip is_blank_char text) ≡ false
    → status_code text ≡ ok (pos c)
    → response_headers (suc (length more)) [] more ≡ ok (hs, after)
    → response_body hs after ≡ ok (body, rest)
    → read_response (suc n) (first ∷ src) ≡ ok ((pos c, hs, body), rest)
unfolding read_response
read_response-parts n first c src l more text after body rest hs other line whole shown status
      headers found =
    ground (arith, other, line, whole, shown, status, headers, found)

read_response-answer :
    (n : ℕ) (server : Bytes) (code : ℕ) (reason : Bytes) (headers : Headers) (body rest : Bytes)
    → IsAnswer server code reason headers body
    → read_response (suc n) (respond server code reason headers body ++ rest)
      ≡ ok ((pos code, all_stored (all_sent server headers body), body), rest)
read_response-answer n server code reason headers body rest k =
    let sent = all_sent server headers body in
    let line = status_rest code reason in
    let text = 82 ∷ (line ++ 10 ∷ []) in
    ap (read_response (suc n)) (
      respond-block server code reason headers body rest k.no_length
      ∙ status_rest-of code reason (10 ∷ block sent (body ++ rest)))
    ∙ read_response-parts n 82 code (line ++ 10 ∷ block sent (body ++ rest)) (line ++ 10 ∷ [])
        (block sent (body ++ rest)) text (body ++ rest) body rest (all_stored sent) refl
        (read_line-newline line (block sent (body ++ rest))
          (All-status_rest code reason (λ b. b ≢ 10) (omega arith) (λ c d. omega (arith, d))
            (omega arith) k.reason_line (omega arith))
          (omega (
            arith,
            k.line_fits,
            length-append {0} (str code) (32 ∷ reason),
            length-append {0} (str code) (32 ∷ (reason ++ 13 ∷ [])),
            length-append {0} reason (13 ∷ []),
          )))
        (decode-IsAscii text (
          omega arith,
          All-append _ line (10 ∷ [])
              (All-status_rest code reason (λ b. b < 128) (omega arith) (λ c d. omega (arith, d))
                (omega arith) k.reason_ascii (omega arith))
              (omega arith),
        ))
        (strip-visible is_blank_char 82 (line ++ 10 ∷ [])
          (unfold is_blank_char is_blank_byte in refl))
        (ap (λ t. status_code (codes "RTSP/1.0 " ++ t))
            (append_assoc (str code) (32 ∷ (reason ++ 13 ∷ [])) (10 ∷ []))
          ∙ status_code-status code ((reason ++ 13 ∷ []) ++ 10 ∷ []) k.code_fits)
        (response_headers-block (suc (length (block sent (body ++ rest)))) [] sent (body ++ rest)
          k.are_headers k.new k.size (omega (arith, block-length sent (body ++ rest))))
        (response_body-all_sent server headers body rest k.no_length k.room)

-- The client of the tests reads from an answer, behind any interleaved frames of less than 64 KiB that it skips, and in any number of
-- rounds that is more than these frames, the status, the headers and the body, and leaves what is behind the
-- answer. The headers are the name of the server, those given, a `CSeq` of 0 where none is given under this
-- very name, and the length of a body that is not empty, in this order with their names in lower case. The
-- status and the length of the body are below 100000; the reason is ASCII on one line; the headers are ASCII, each on one line,
-- with no colon in the name and nothing to strip; their names differ in any case, and none of those given is for
-- the length; the status line is shorter than a line may be, and the block of headers is no longer.
pub read_response-respond :
    (n : ℕ) (frames : List (ℕ × Bytes)) (server : Bytes) (code : ℕ) (reason : Bytes)
    (headers : Headers) (body rest : Bytes)
    → length frames < n
    → All (λ (f : ℕ × Bytes). length f.1 < 2 ^ 16) frames
    → IsAnswer server code reason headers body
    → read_response n (frames_text frames (respond server code reason headers body ++ rest))
      ≡ ok ((pos code, all_stored (all_sent server headers body), body), rest)
read_response-respond zero frames server code reason headers body rest more small k =
    absurd (omega arith)
read_response-respond (suc n) [] server code reason headers body rest more small k =
    read_response-answer n server code reason headers body rest k
read_response-respond (suc n) (f ∷ fs) server code reason headers body rest more small k =
    read_response-frame n f.0 f.1 (frames_text fs (respond server code reason headers body ++ rest))
      small.0
    ∙ read_response-respond n fs server code reason headers body rest (omega arith) small.1 k
