-- ===== src/Rtsp/Reading/Tests.antt =====
-- Requests read by the model of dvrbridge/rtsp/server.py, and the theorems on them at concrete inputs.
use dvrbridge.Base.{
  if◌then◌else◌, ◌+◌, leb, ℕ, zero, suc, ◌*◌, some, none, [], ◌∷◌, ◌++◌, Bytes, codes, replicate,
  All, ◌<◌, ◌≡◌, ◌≢◌, refl, arith, text_eq, pos,
}
use dvrbridge.Rtsp.Text.{
  is_blank_byte, is_blank_char, strip, trim_left, trim_right, keep, lead, utf8, decode, int,
  with_sign, natural, decimal, count_digits,
}
use dvrbridge.Rtsp.Dispatch.{lower, lower_code}
use dvrbridge.Rtsp.Reading.{
  crashed, refused, ok, raised, get_header, body_length, read_request, request,
}
use dvrbridge.Rtsp.Reading.Block.{all_stored}
use dvrbridge.Rtsp.Reading.RoundTrip.{Written, IsWritten, written, read_request-written}
use dvrbridge.Rtsp.Reading.Flood.{IsHeaderLine, lines, lines_size, read_request-flood}
use dvrbridge.Rtsp.Reading.Loop.{Dispatcher}

abbrev set_parameter : Written
set_parameter = record {
  first = 83;
  more = codes "ET_PARAMETER rtsp://h/cam RTSP/1.0";
  headers = (codes "CSeq", codes "7") ∷ (codes "Content-Length", codes "3") ∷ [];
  body = codes "a=b";
}

texts_of_int : int (codes " 1_000 ") ≡ some (pos 1000)
unfolding int with_sign natural decimal count_digits strip trim_left trim_right keep is_blank_char
    is_blank_byte
texts_of_int = refl

not_ints : int (codes "1__0") ≡ none
unfolding int with_sign natural decimal count_digits strip trim_left trim_right keep is_blank_char
    is_blank_byte
not_ints = refl

-- "é", a euro sign, and a first byte that stands alone.
utf8_texts : decode (0xC3 ∷ 0xA9 ∷ 0xE2 ∷ 0x82 ∷ 0xAC ∷ []) ≡ some (0xE9 ∷ 0x20AC ∷ [])
unfolding decode utf8 lead
utf8_texts = refl

not_utf8 : decode (0xC3 ∷ 65 ∷ []) ≡ none
unfolding decode utf8 lead
not_utf8 = refl

set_parameter-IsWritten : IsWritten set_parameter
unfolding is_blank_byte is_blank_char strip trim_left trim_right keep lower lower_code get_header
    text_eq body_length int with_sign natural decimal count_digits
set_parameter-IsWritten = record {
  no_packet = omega arith;
  visible = refl;
  line = omega arith;
  line_strip = refl;
  line_fits = omega arith;
  headers = (
    record {
      key = omega arith;
      key_ascii = omega arith;
      key_line = omega arith;
      key_strip = refl;
      value_ascii = omega arith;
      value_line = omega arith;
      value_strip = refl;
    },
    (
      record {
        key = omega arith;
        key_ascii = omega arith;
        key_line = omega arith;
        key_strip = refl;
        value_ascii = omega arith;
        value_line = omega arith;
        value_strip = refl;
      },
      tt,
    ),
  );
  new = (refl, (refl, tt));
  count = omega arith;
  size = omega arith;
  body = refl;
}

read_request-written_example :
    read_request (written set_parameter (codes "$"))
    ≡ ok (
      request
          (set_parameter.first ∷ set_parameter.more)
          (all_stored set_parameter.headers)
          set_parameter.body,
      codes "$",
    )
read_request-written_example =
    read_request-written set_parameter (codes "$") set_parameter-IsWritten

-- Two requests, and a dispatch that raises at the second.
abbrev two_requests : Bytes
two_requests = codes "OPTIONS * RTSP/1.0\r\n\r\n" ++ codes "PLAY rtsp://[ RTSP/1.0\r\n\r\n$"

abbrev raises_later : Dispatcher ℕ
raises_later k line hs body = if leb 1 k then raised crashed else ok (k + 1)

All-replicate : (P : ℕ → Type 0) (n x : ℕ) → P x → All P (replicate n x)
All-replicate P zero x p = tt
All-replicate P (suc n) x p = (p, All-replicate P n x p)

-- A line of 100 letters.
abbrev letters : Bytes
letters = replicate 100 65

letters-IsHeaderLine : IsHeaderLine letters
letters-IsHeaderLine = record {
  line = All-replicate (λ b. b ≢ 10) 100 65 (omega arith);
  ascii = All-replicate (λ b. b < 128) 100 65 (omega arith);
  long = omega arith;
  fits = omega arith;
}

many-IsHeaderLine : (n : ℕ) → All IsHeaderLine (replicate n letters)
many-IsHeaderLine zero = tt
many-IsHeaderLine (suc n) = (letters-IsHeaderLine, many-IsHeaderLine n)

many-size : (n : ℕ) → lines_size (replicate n letters) ≡ n * 101
many-size zero = omega arith
many-size (suc n) = omega (arith, many-size n)

read_request-flood_example :
    read_request (65 ∷ (66 ∷ [] ++ 10 ∷ lines (replicate 200 letters) [])) ≡ raised (refused 431)
read_request-flood_example =
    read_request-flood 65 (66 ∷ []) (replicate 200 letters) [] (omega arith)
      (unfold is_blank_byte in refl) (omega arith) (omega arith) (many-IsHeaderLine 200)
      (omega (arith, many-size 200))
