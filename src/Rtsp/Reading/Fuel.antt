-- ===== src/Rtsp/Reading/Fuel.antt =====
-- The rounds that the loop over the header lines in `_read_request` of dvrbridge/rtsp/server.py may take.
use dvrbridge.Base.{
  ℕ, zero, suc, ◌+◌, ◌<◌, true, false, ◌||◌, [], ◌∷◌, ltb, leb, Bytes, length, ◌≡◌, refl, arith,
  Bool-cases, inl, inr,
}
use dvrbridge.Rtsp.Reading.{
  max_header_bytes, max_headers, Result, ok, raised, Headers, add_header, ends_headers, header_loop,
  read_line,
}
use dvrbridge.Rtsp.Reading.Ensures.{Ensures}
use dvrbridge.Rtsp.Reading.Within.{IsRead, read_line-IsRead}

-- One round, on a line: its end, or what it goes on with.
header_loop-read :
    (n m : ℕ) (hs : Headers) (size : ℕ) (src l rest : Bytes)
    → read_line src ≡ ok (l, rest)
    → (ends_headers l ≡ false
        → (hs' : Headers)
        → header_loop n hs' (size + length l) rest ≡ header_loop m hs' (size + length l) rest)
    → header_loop (suc n) hs size src ≡ header_loop (suc m) hs size src
unfolding header_loop
header_loop-read n m hs size src l rest line ih = elim (Bool-cases (ends_headers l)) [
  | inl e ↦ ground (arith, line, e)
  | inr e ↦
      elim (Bool-cases (ltb max_header_bytes (size + length l) || leb max_headers (length hs))) [
        | inl over ↦ ground (arith, line, e, over)
        | inr under ↦ go (add_header l hs) refl e under
      ]
]
  where
    go :
        (r : Result Headers)
        → add_header l hs ≡ r
        → ends_headers l ≡ false
        → (ltb max_header_bytes (size + length l) || leb max_headers (length hs)) ≡ false
        → header_loop (suc n) hs size src ≡ header_loop (suc m) hs size src
    go (raised f) is e under = ground (arith, line, e, under, is)
    go (ok hs') is e under = ground (arith, line, e, under, is, ih e hs')

-- An empty line ends the headers.
ends_headers-nil : ends_headers [] ≡ true
unfolding ends_headers
ends_headers-nil = refl

shorter :
    (l rest src : Bytes) (n : ℕ)
    → IsRead src (l, rest)
    → length src < suc n
    → ends_headers l ≡ false
    → length rest < n
shorter [] rest src n read h e = absurd (cc (e, ends_headers-nil))
shorter (x ∷ l) rest src n read h e = omega (arith, read.0)

-- With a round for each byte and one more, a further round changes nothing.
pub header_loop-suc :
    (n : ℕ) (hs : Headers) (size : ℕ) (src : Bytes)
    → length src < n
    → header_loop n hs size src ≡ header_loop (suc n) hs size src
header_loop-suc zero hs size src h = absurd (omega arith)
header_loop-suc (suc n) hs size src h =
    go (header_loop-suc n) (read_line src) refl (read_line-IsRead src)
  where
    go :
        ((hs : Headers) (size : ℕ) (src : Bytes)
          → length src < n
          → header_loop n hs size src ≡ header_loop (suc n) hs size src)
        → (r : Result (Bytes × Bytes)) → read_line src ≡ r
        → Ensures (IsRead src) r
        → header_loop (suc n) hs size src ≡ header_loop (suc (suc n)) hs size src
    go ih (raised f) is k = unfold header_loop in ground (arith, is)
    go ih (ok (l, rest)) is k =
        let read = k.holds (l, rest) refl in
        header_loop-read n (suc n) hs size src l rest is
          (λ e hs'. ih hs' (size + length l) rest (shorter l rest src n read h e))
