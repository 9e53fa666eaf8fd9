-- ===== src/Rtsp/Answer/Tests.antt =====
-- Answers written by the model of dvrbridge/rtsp/server.py, and the theorem on them at a concrete one.
use dvrbridge.Base.{[], ◌∷◌, ◌++◌, Bytes, codes, pos, text_eq, ◌≡◌, refl, arith}
use dvrbridge.Rtsp.Text.{is_blank_byte, is_blank_char, strip, trim_left, trim_right, keep}
use dvrbridge.Rtsp.Dispatch.{lower, lower_code}
use dvrbridge.Rtsp.Reading.{ok, Headers, get_header, set_header}
use dvrbridge.Rtsp.Reading.Block.{all_stored}
use dvrbridge.Rtsp.Answer.{str, decimal_from, set_default, sent_headers, join_lines, respond}
use dvrbridge.Rtsp.Answer.Sent.{all_sent}
use dvrbridge.Rtsp.Answer.Client.{read_response}
use dvrbridge.Rtsp.Answer.RoundTrip.{frames_text, IsAnswer, read_response-respond}

refusal :
    respond (codes "x") 401 (codes "Unauthorized") ((codes "A", codes "b") ∷ []) []
    ≡ codes "RTSP/1.0 401 Unauthorized\r\nServer: x\r\nA: b\r\nCSeq: 0\r\n\r\n"
unfolding respond sent_headers set_default set_header get_header str decimal_from join_lines text_eq
refusal = refl

abbrev server : Bytes
server = codes "dvrbridge/0.1.0"

abbrev given : Headers
given = (codes "CSeq", codes "3") ∷ (codes "Content-Type", codes "application/sdp") ∷ []

described : IsAnswer server 200 (codes "OK") given (codes "v=0")
unfolding sent_headers set_default set_header get_header str decimal_from text_eq lower lower_code
    strip trim_left trim_right keep is_blank_char is_blank_byte
described = record {
  reason_line = omega arith;
  reason_ascii = omega arith;
  code_fits = omega arith;
  line_fits = omega arith;
  no_length = (refl, (refl, tt));
  are_headers = (
    record {
      key = omega arith;
      key_ascii = omega arith;
      key_line = omega arith;
      key_strip = refl;
      value_ascii = omega arith;
      value_line = omega arith;
      value_strip = refl;
    },
    (
      record {
        key = omega arith;
        key_ascii = omega arith;
        key_line = omega arith;
        key_strip = refl;
        value_ascii = omega arith;
        value_line = omega arith;
        value_strip = refl;
      },
      (
        record {
          key = omega arith;
          key_ascii = omega arith;
          key_line = omega arith;
          key_strip = refl;
          value_ascii = omega arith;
          value_line = omega arith;
          value_strip = refl;
        },
        (
          record {
            key = omega arith;
            key_ascii = omega arith;
            key_line = omega arith;
            key_strip = refl;
            value_ascii = omega arith;
            value_line = omega arith;
            value_strip = refl;
          },
          tt,
        ),
      ),
    ),
  );
  new = (refl, (refl, (refl, (refl, tt))));
  size = omega arith;
  room = omega arith;
}

-- A frame on channel 0 before the answer, and one behind it.
read_response-respond_example :
    read_response 2 (
      frames_text
        ((0, 128 ∷ 96 ∷ []) ∷ [])
        (respond server 200 (codes "OK") given (codes "v=0") ++ codes "$"))
    ≡ ok ((pos 200, all_stored (all_sent server given (codes "v=0")), codes "v=0"), codes "$")
read_response-respond_example =
    read_response-respond 2 ((0, 128 ∷ 96 ∷ []) ∷ []) server 200 (codes "OK") given (codes "v=0")
      (codes "$") (omega arith) (omega arith, tt) described
