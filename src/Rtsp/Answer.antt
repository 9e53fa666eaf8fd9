-- ===== src/Rtsp/Answer.antt =====
-- `ClientConnection._respond` of dvrbridge/rtsp/server.py, on encoded texts; the name of the server is an argument.
pub mod Decimal
pub mod Sent
pub mod Client
pub mod Status
pub mod HeaderLines
pub mod RoundTrip
mod Tests
use dvrbridge.Base.{
  ℕ, zero, suc, ◌+◌, ◌/◌, ◌%◌, Bool, true, false, Option, none, some, List, [], ◌∷◌, ◌++◌, ltb,
  if◌then◌else◌, Bytes, length, is_nil, codes,
}
use dvrbridge.Rtsp.Reading.{Headers, get_header, set_header}
use dvrbridge.Rtsp.Reading.Lines.{crlf}

-- Decimal digits, by the digits that may still come.
unfoldable pub decimal_from : ℕ → ℕ → Bytes
decimal_from zero n = []
decimal_from (suc k) n = elim (ltb n 10) [
  | true ↦ (48 + n) ∷ []
  | false ↦ decimal_from k (n / 10) ++ (48 + n % 10) ∷ []
]

-- `str` of a natural
unfoldable pub str : ℕ → Bytes
unfolding decimal_from
str n = decimal_from (n + 1) n

-- `headers.setdefault(k, v)`
unfoldable pub set_default : Bytes → Bytes → Headers → Headers
set_default k v hs = elim (get_header k hs) [ none ↦ set_header k v hs | some old ↦ hs ]

-- `headers`, as they are sent
unfoldable pub sent_headers : Headers → Bytes → Headers
unfolding set_default str
sent_headers headers body =
    let hs = set_default (codes "CSeq") (codes "0") headers in
    if is_nil body then hs else set_header (codes "Content-Length") (str (length body)) hs

abbrev pub name_value : Bytes × Bytes → Bytes
name_value h = h.0 ++ 58 ∷ 32 ∷ h.1

abbrev pub name_values : Headers → List Bytes
name_values [] = []
name_values (h ∷ hs) = name_value h ∷ name_values hs

abbrev pub status_line : ℕ → Bytes → Bytes
status_line code reason = codes "RTSP/1.0 " ++ (str code ++ 32 ∷ reason)

-- `"\r\n".join`
unfoldable pub join_lines : List Bytes → Bytes
join_lines [] = []
join_lines (l ∷ []) = l
join_lines (l ∷ m ∷ ls) = l ++ (crlf ++ join_lines (m ∷ ls))

-- `_respond`: what it writes
unfoldable pub respond : Bytes → ℕ → Bytes → Headers → Bytes → Bytes
unfolding sent_headers join_lines
respond server code reason headers body =
    join_lines (
      status_line code reason
      ∷ (codes "Server: " ++ server)
      ∷ name_values (sent_headers headers body))
    ++ (crlf ++ (crlf ++ body))
