-- ===== src/Rtsp/Reading/Loop.antt =====
-- The loop of `ClientConnection.run` in dvrbridge/rtsp/server.py over what a client sends: what it hands on, and its end.
use dvrbridge.Base.{ℕ, zero, suc, List, [], ◌∷◌, Bytes, ◌≡◌}
use dvrbridge.Rtsp.Reading.Ensures.{Ensures}
use dvrbridge.Rtsp.Reading.{
  Fault, cut_off, Result, ok, raised, Headers, read_request, Received, packet, empty, request,
}
use dvrbridge.Rtsp.Reading.Within.{Within}

-- `_dispatch` on a state of the connection: the state behind it, or what it does not catch
abbrev pub Dispatcher : Type 0 → Type 0
Dispatcher S = S → Bytes → Headers → Bytes → Result S

-- what is done with what was read: a request is dispatched
unfoldable pub hand_on : {S : Type 0} → Dispatcher S → S → Received → Result S
hand_on dispatch s (packet body) = ok s
hand_on dispatch s empty = ok s
hand_on dispatch s (request line hs body) = dispatch s line hs body

-- the loop of `run`, by the rounds that may still come: what was read, and the exception that ends it
unfoldable pub serve : {S : Type 0} → Dispatcher S → ℕ → S → Bytes → List Received × Fault
unfolding read_request hand_on
serve dispatch zero s src = ([], cut_off)
serve dispatch (suc n) s src = elim (read_request src) [
  | raised e ↦ ([], e)
  | ok r ↦ elim (hand_on dispatch s r.0) [
    | raised e ↦ (r.0 ∷ [], e)
    | ok s' ↦ let more = serve dispatch n s' r.1 in (r.0 ∷ more.0, more.1)
  ]
]

-- What becomes of what was read: a request alone is dispatched, and the rest changes nothing.
abbrev pub Handled : {S : Type 0} → Dispatcher S → S → Received → Result S → Type 0
Handled dispatch s (packet body) m = ok s ≡ m
Handled dispatch s empty m = ok s ≡ m
Handled dispatch s (request line hs body) m = dispatch s line hs body ≡ m

-- The loop by the bytes: each round reads what is within the limits and hands it on, and the last raises, in the
-- reading or in the dispatch of what it read.
pub data Serves {S : Type 0} (dispatch : Dispatcher S)
    : S → Bytes → List Received → Fault → Type 0 where
  ends :
      (s : S) (src : Bytes) (e : Fault) → read_request src ≡ raised e → Serves dispatch s src [] e
  breaks :
      (s : S) (src rest : Bytes) (r : Received) (e : Fault)
      → read_request src ≡ ok (r, rest)
      → Within r
      → Handled dispatch s r (raised e)
      → Serves dispatch s src (r ∷ []) e
  hands :
      (s s' : S) (src rest : Bytes) (r : Received) (rs : List Received) (e : Fault)
      → read_request src ≡ ok (r, rest)
      → Within r
      → Handled dispatch s r (ok s')
      → Serves dispatch s' rest rs e
      → Serves dispatch s src (r ∷ rs) e
