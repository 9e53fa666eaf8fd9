-- ===== src/H264/Join.antt =====
-- NALs written with start codes, as `split_access_units` of dvrbridge/testing.py and the devices
-- write an access unit, and `iter_nals` of dvrbridge/h264.py on them.
use dvrbridge.Base.{
  ℕ, ◌+◌, none, some, List, [], ◌∷◌, ◌++◌, ◌≡◌, ◌≢◌, refl, ◌∙◌, ap, Bytes, length, take, drop, find,
  find-miss, find-none-cons, arith, All, get_or, starts_with, take-append_length, shift, append-nil,
}
use native.Mathlib.Numerals.{add-one}
use native.Mathlib.Nat.{zero-add, suc-add, add_assoc}
use dvrbridge.H264.{start3, trim_end, yield_nal, iter_nals}
use dvrbridge.H264.Nals.{nals_from, iter_nals-some, nals_from-none, nals_from-some}

-- `b"".join(b"\x00\x00\x00\x01" + n for n in nals)`
unfoldable pub join : List Bytes → Bytes
join [] = []
join (nal ∷ nals) = 0 ∷ 0 ∷ 0 ∷ 1 ∷ (nal ++ join nals)

abbrev pub EndsNonzero : Bytes → Type 0
EndsNonzero [] = ⊥
EndsNonzero (x ∷ []) = x ≢ 0
EndsNonzero (x ∷ y ∷ r) = EndsNonzero (y ∷ r)

-- A NAL as encoders make it: no start code inside, and a last byte other than zero.
pub record IsClean (nal : Bytes) : Type 0 where
  pub no_start : find start3 nal ≡ none
  pub ends : EndsNonzero nal

-- The first start code behind a clean NAL is the one that was written there.
find-clean :
    (nal r : Bytes)
    → find start3 nal ≡ none
    → EndsNonzero nal
    → find start3 (nal ++ (0 ∷ 0 ∷ 0 ∷ 1 ∷ r)) ≡ some (length nal + 1)
find-clean [] r h e = absurd e
find-clean (x ∷ []) r h e = unfold find in ground arith
find-clean (x ∷ y ∷ []) r h e =
    find-miss start3 x (y ∷ 0 ∷ 0 ∷ 0 ∷ 1 ∷ r) (unfold starts_with in ground arith)
    ∙ ap (shift 1) (find-clean (y ∷ []) r (find-none-cons start3 x (y ∷ []) h).1 e)
    ∙ ap some (omega arith)
find-clean (x ∷ y ∷ z ∷ n) r h e =
    let (miss, rest) = find-none-cons start3 x (y ∷ z ∷ n) h in
    find-miss start3 x (y ∷ z ∷ (n ++ (0 ∷ 0 ∷ 0 ∷ 1 ∷ r))) (unfold starts_with in miss)
    ∙ ap (shift 1) (find-clean (y ∷ z ∷ n) r rest e)
    ∙ ap some (omega arith)

get_or-last :
    (x : ℕ) (nal e : Bytes) → EndsNonzero (x ∷ nal) → get_or (x ∷ (nal ++ e)) (length nal) 0 ≢ 0
get_or-last x [] e h = h
get_or-last x (y ∷ nal) e h = get_or-last y nal e h

get_or-zero : (nal r : Bytes) → get_or (nal ++ (0 ∷ r)) (length nal) 0 ≡ 0
get_or-zero [] r = refl
get_or-zero (x ∷ nal) r = get_or-zero nal r

-- The zero of a four-byte start code is trimmed, and nothing of the NAL.
trim_end-clean :
    (nal r : Bytes) → EndsNonzero nal → trim_end (nal ++ (0 ∷ r)) (length nal + 1) ≡ length nal
trim_end-clean [] r h = absurd h
trim_end-clean (x ∷ nal) r h =
    rw add-one (unfold trim_end in ground (arith, get_or-zero nal r, get_or-last x nal (0 ∷ r) h))

yield_nal-clean :
    (nal : Bytes) (more : List Bytes) → EndsNonzero nal → yield_nal nal more ≡ nal ∷ more
unfolding yield_nal
yield_nal-clean [] more h = absurd h
yield_nal-clean (x ∷ nal) more h = refl

drop-length_add : (nal r : Bytes) (k : ℕ) → drop (length nal + k) (nal ++ r) ≡ drop k r
drop-length_add [] r k = rw zero-add
drop-length_add (x ∷ nal) r k = rw suc-add (drop-length_add nal r k)

nals_from-join :
    (nal : Bytes) (nals : List Bytes)
    → IsClean nal
    → All IsClean nals
    → nals_from (nal ++ join nals) ≡ nal ∷ nals
nals_from-join nal [] c cs =
    unfold join in rw append-nil (nals_from-none nal c.no_start ∙ yield_nal-clean nal [] c.ends)
nals_from-join nal (next ∷ nals) c cs =
    let buf = nal ++ join (next ∷ nals) in
    nals_from-some buf (length nal + 1) (unfold join in find-clean nal _ c.no_start c.ends)
    ∙ ap (λ t. yield_nal t (nals_from (drop (length nal + 1 + 3) buf))) taken
    ∙ yield_nal-clean nal _ c.ends
    ∙ ap (◌∷◌ nal) (ap nals_from dropped ∙ nals_from-join next nals cs.0 cs.1)
  where
    taken :
        take (trim_end (nal ++ join (next ∷ nals)) (length nal + 1)) (nal ++ join (next ∷ nals))
        ≡ nal
    taken =
        unfold join in
        rw (trim_end-clean nal (0 ∷ 0 ∷ 1 ∷ (next ++ join nals)) c.ends)
          (take-append_length nal (0 ∷ 0 ∷ 0 ∷ 1 ∷ (next ++ join nals)))

    dropped : drop (length nal + 1 + 3) (nal ++ join (next ∷ nals)) ≡ next ++ join nals
    dropped =
        unfold join in rw add_assoc (drop-length_add nal (0 ∷ 0 ∷ 0 ∷ 1 ∷ (next ++ join nals)) 4)

-- Splitting NALs that hold no start code and do not end with a zero byte, joined with start codes,
-- gives them back, in order and byte for byte.
pub iter_nals-join : (nals : List Bytes) → All IsClean nals → iter_nals (join nals) ≡ nals
iter_nals-join [] cs = unfold join iter_nals in refl
iter_nals-join (nal ∷ nals) cs =
    iter_nals-some (join (nal ∷ nals)) 1 (unfold join find in refl)
    ∙ unfold join in nals_from-join nal nals cs.0 cs.1
