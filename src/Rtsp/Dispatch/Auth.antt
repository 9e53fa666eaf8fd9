-- ===== src/Rtsp/Dispatch/Auth.antt =====
-- Authentication in `_dispatch` of dvrbridge/rtsp/server.py, and the spelling of a method.
use dvrbridge.Base.{ℕ, ◌==◌, text_eq, false, none, some, [], ◌∷◌, Bytes, ◌≡◌, refl, ap, ◌∙◌, arith}
use dvrbridge.Rtsp.{Connection}
use dvrbridge.Rtsp.Requests.{Moment, Request}
use dvrbridge.Rtsp.Dispatch.{dispatch, handle, is_denied, is_guarded, lower, lower_code}

lower_code_idem : (b : ℕ) → lower_code (lower_code b) ≡ lower_code b
unfolding lower_code
lower_code_idem b = ground arith

lower_idem : (m : Bytes) → lower (lower m) ≡ lower m
unfolding lower
lower_idem [] = refl
lower_idem (b ∷ m) =
    ap (λ x. x ∷ lower (lower m)) (lower_code_idem b) ∙ ap (λ t. lower_code b ∷ t) (lower_idem m)

-- No capital of these is the lower case of anything.
lower_code-capital :
    (b : ℕ)
    → ((lower_code b == 68) ≡ false)
      × ((lower_code b == 83) ≡ false)
      × ((lower_code b == 80) ≡ false)
unfolding lower_code
lower_code-capital b = ground arith

is_guarded-lower : (m : Bytes) → is_guarded (lower m) ≡ false
unfolding is_guarded lower text_eq
is_guarded-lower [] = refl
is_guarded-lower (b ∷ m) = let (d, s, p) = lower_code-capital b in rw (d, s, p)

is_denied-lower :
    (expect : Bytes) (r : Request)
    → is_denied (some expect) (record r { method = lower r.method }) ≡ some false
unfolding is_denied
is_denied-lower expect r = rw (is_guarded-lower r.method) refl

-- A method spelled in lower case is handled with no authentication: whatever credentials the server
-- wants and the client gives, the answer and the new state are those of a server that wants none.
pub dispatch-lower :
    (expect : Bytes) (m : Moment) (r : Request) (c : Connection)
    → dispatch (some expect) m (record r { method = lower r.method }) c ≡ dispatch none m r c
unfolding dispatch is_denied
dispatch-lower expect m r c =
    rw (is_denied-lower expect r, dispatch) (rw (lower_idem r.method) (other m r c))
  where
    other :
        (m : Moment) (r : Request) (c : Connection)
        → handle m (record r { method = lower r.method }) (lower r.method) c
          ≡ handle m r (lower r.method) c
    other m r c = unfold handle in refl
