-- ===== src/Rtsp/Answer/Status.antt =====
-- The status line of an answer of `_respond` in dvrbridge/rtsp/server.py, as `_read_response` of tests/tests_rtsp_client.py reads it.
use dvrbridge.Base.{
  starts_with, ◌^◌, ℕ, ◌<◌, false, Option, none, some, [], ◌∷◌, ◌++◌, Bytes, length, if◌then◌else◌,
  is_nil, append_assoc, All, All-append, All-imply, ◌≡◌, refl, ap, ◌∙◌, arith, codes, pos,
}
use dvrbridge.Rtsp.Text.{is_blank_byte, int, is_blank_char, strip, trim_left, trim_right, with_sign}
use dvrbridge.Rtsp.Reading.{ok}
use dvrbridge.Rtsp.Answer.{str, status_line}
use dvrbridge.Rtsp.Answer.Decimal.{IsDigit, int-str, str-IsDigit}
use dvrbridge.Rtsp.Answer.Client.{word, skip_word, second_word, status_code}

-- A status line up to its number.
digit_visible : (c : ℕ) → IsDigit c → is_blank_char c ≡ false
unfolding is_blank_char is_blank_byte
digit_visible c h = ground (arith, h)

word-digits : (s more : Bytes) → All IsDigit s → word (s ++ 32 ∷ more) ≡ s
unfolding word
word-digits [] more h = unfold is_blank_char is_blank_byte in refl
word-digits (c ∷ s) more h =
    rw (digit_visible c h.0, word) (ap (λ t. c ∷ t) (word-digits s more h.1))

trim_left-digits :
    (s more : Bytes)
    → All IsDigit s
    → 0 < length s
    → trim_left is_blank_char (s ++ more) ≡ s ++ more
unfolding trim_left
trim_left-digits [] more h long = absurd (omega arith)
trim_left-digits (c ∷ s) more h long = rw (digit_visible c h.0, trim_left) refl

some-digits :
    (s : Bytes) → 0 < length s → ◌≡◌ {A = Option Bytes} (if is_nil s then none else some s) (some s)
some-digits [] long = absurd (omega arith)
some-digits (c ∷ s) long = refl

second_word-status :
    (digits more : Bytes)
    → All IsDigit digits
    → 0 < length digits
    → second_word (codes "RTSP/1.0 " ++ (digits ++ 32 ∷ more)) ≡ some digits
unfolding second_word trim_left skip_word is_blank_char is_blank_byte
second_word-status digits more h long =
    let read : word (trim_left is_blank_char (digits ++ 32 ∷ more)) ≡ digits =
      ap word (trim_left-digits digits (32 ∷ more) h long) ∙ word-digits digits more h in
    ap (λ w. if is_nil w then none else some w) read ∙ some-digits digits long

int-nil : int [] ≡ none
unfolding int with_sign strip trim_left trim_right
int-nil = refl

length-str : (n : ℕ) → n < 10 ^ 5 → 0 < length (str n)
length-str n small = go (str n) (int-str n small)
  where
    go : (s : Bytes) → int s ≡ some (pos n) → 0 < length s
    go [] e = absurd (cc (e, int-nil))
    go (c ∷ s) e = omega arith

pub status_code-status :
    (code : ℕ) (more : Bytes)
    → code < 10 ^ 5
    → status_code (codes "RTSP/1.0 " ++ (str code ++ 32 ∷ more)) ≡ ok (pos code)
unfolding status_code starts_with
status_code-status code more small =
    rw (second_word-status (str code) more (str-IsDigit code) (length-str code small))
      (rw (int-str code small) refl)

-- A text of a status line but its first character, up to its newline.
abbrev pub status_rest : ℕ → Bytes → Bytes
status_rest code reason = codes "TSP/1.0 " ++ (str code ++ 32 ∷ (reason ++ 13 ∷ []))

pub status_rest-of :
    (code : ℕ) (reason more : Bytes)
    → (status_line code reason ++ 13 ∷ []) ++ more ≡ 82 ∷ (status_rest code reason ++ more)
status_rest-of code reason more =
    ap (λ t. (codes "RTSP/1.0 " ++ t) ++ more) (append_assoc (str code) (32 ∷ reason) (13 ∷ []))

module _ (code : ℕ) (reason : Bytes) where
  pub All-status_rest :
      (P : ℕ → Type 0)
      → All P (codes "TSP/1.0 ")
      → ((c : ℕ) → IsDigit c → P c)
      → P 32
      → All P reason
      → P 13
      → All P (status_rest code reason)
  All-status_rest P front digit blank text end =
      All-append P (codes "TSP/1.0 ") (str code ++ 32 ∷ (reason ++ 13 ∷ [])) front (
        All-append P (str code) (32 ∷ (reason ++ 13 ∷ []))
          (All-imply IsDigit P digit (str code) (str-IsDigit code))
          (blank, All-append P reason (13 ∷ []) text (end, tt)))
