-- ===== src/Rtsp/Answer/HeaderLines.antt =====
-- The header lines of an answer, as `_read_response` of tests/tests_rtsp_client.py reads them.
use dvrbridge.Base.{
  ℕ, suc, zero, ◌≤◌, ◌<◌, false, some, [], ◌∷◌, ◌++◌, Bytes, length, append_assoc, append-nil, All,
  All-append, ◌≡◌, refl, sym, ap, ◌∙◌, arith, text_eq, subst,
}
use dvrbridge.Rtsp.Text.{is_blank_char, strip, decode}
use dvrbridge.Rtsp.Dispatch.{lower}
use dvrbridge.Rtsp.Reading.{
  line_limit, ok, Headers, set_header, read_line, split_colon, ends_headers,
}
use dvrbridge.Rtsp.Reading.Lines.{
  crlf, IsAscii, read_line-newline, split_colon-IsKey, decode-IsAscii,
}
use dvrbridge.Rtsp.Reading.Block.{
  IsHeader, header_text, block, block_size, stored, all_stored, AreNew, set_header-new,
  behind_colon, header_text-parts, behind_colon-IsAscii, strip-behind_colon, header_text-IsLine,
  ends_headers-length, text_length,
}
use dvrbridge.Rtsp.Answer.Client.{partition, response_headers}

-- One round of the client's loop.
response_headers-round :
    (n : ℕ) (acc hs : Headers) (src l rest text : Bytes) (kv : Bytes × Bytes)
    → read_line src ≡ ok (l, rest)
    → ends_headers l ≡ false
    → decode l ≡ some text
    → partition text ≡ kv
    → set_header (lower (strip is_blank_char kv.0)) (strip is_blank_char kv.1) acc ≡ hs
    → response_headers (suc n) acc src ≡ response_headers n hs rest
unfolding response_headers
response_headers-round n acc hs src l rest text kv line more whole parts set =
    ground (arith, line, more, whole, parts, set)

partition-IsKey : (k v : Bytes) (s : Bytes) → split_colon s ≡ some (k, v) → partition s ≡ (k, v)
unfolding partition
partition-IsKey k v s e = rw (e, partition) refl

-- The loop stops at the empty line.
response_headers-crlf :
    (n : ℕ) (acc : Headers) (rest : Bytes)
    → response_headers (suc n) acc (crlf ++ rest) ≡ ok (acc, rest)
unfolding response_headers
response_headers-crlf n acc rest =
    let line : read_line (crlf ++ rest) ≡ ok (crlf, rest) =
      read_line-newline (13 ∷ []) rest (omega arith) (omega arith) in
    rw (line, response_headers) (unfold ends_headers text_eq in refl)

pub response_headers-block :
    (n : ℕ) (acc hs : Headers) (rest : Bytes)
    → All IsHeader hs
    → AreNew acc hs
    → block_size hs ≤ line_limit
    → length hs < n
    → response_headers n acc (block hs rest) ≡ ok (acc ++ all_stored hs, rest)
response_headers-block zero acc hs rest k new fits fuel = absurd (omega arith)
response_headers-block (suc n) acc [] rest k new fits fuel =
    response_headers-crlf n acc rest ∙ ap (λ t. ok (t, rest)) (sym (append-nil acc))
response_headers-block (suc n) acc (h ∷ hs) rest k new fits fuel =
    response_headers-round n acc (acc ++ stored h ∷ []) _ (header_text h ++ 10 ∷ []) (block hs rest)
      (header_text h ++ 10 ∷ []) (h.0, behind_colon h)
      (read_line-newline (header_text h) (block hs rest) (header_text-IsLine h k.0)
        (omega (arith, fits)))
      (ends_headers-length (header_text h ++ 10 ∷ []) (text_length h))
      (decode-IsAscii (header_text h ++ 10 ∷ []) (
        subst IsAscii (sym (header_text-parts h k.0)) (
          All-append _ h.0 (58 ∷ behind_colon h) k.0.key_ascii
            (omega arith, behind_colon-IsAscii h k.0))))
      (partition-IsKey h.0 (behind_colon h) (header_text h ++ 10 ∷ [])
        (ap split_colon (header_text-parts h k.0) ∙ split_colon-IsKey h.0 (behind_colon h) k.0.key))
      (ap (λ t. set_header (lower t) (strip is_blank_char (behind_colon h)) acc) k.0.key_strip
        ∙ ap (λ t. set_header (lower h.0) t acc) (strip-behind_colon h k.0)
        ∙ set_header-new (lower h.0) h.1 acc new.0)
    ∙ response_headers-block n (acc ++ stored h ∷ []) hs rest k.1 new.1 (omega (arith, fits))
        (omega arith)
    ∙ ap (λ t. ok (t, rest)) (append_assoc acc (stored h ∷ []) (all_stored hs))
