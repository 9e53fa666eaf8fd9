-- ===== src/H264/Sps/Escape.antt =====
-- `strip_emulation_prevention` of dvrbridge/h264.py, against an encoder's prevention.
use dvrbridge.Base.{
  ℕ, zero, suc, false, ◌&&◌, [], ◌∷◌, ◌==◌, leb, if◌then◌else◌, Bytes, ◌≡◌, refl, ap, ◌∙◌, arith,
  Bool-cases, inl, inr,
}
use dvrbridge.H264.Sps.{strip_emulation_prevention}

-- An encoder's prevention, with the number of zeros behind: a 3 before a byte of at most 3 that
-- follows two zeros.
abbrev pub escape : ℕ → Bytes → Bytes
escape z [] = []
escape z (b ∷ bs) =
    let again = if b == 0 then escape 1 bs else escape 0 bs in
    if leb 2 z
    then (if leb b 3 then 3 ∷ b ∷ again else b ∷ again)
    else (if b == 0 then b ∷ escape (suc z) bs else b ∷ escape 0 bs)

skip :
    (x y : ℕ) (bs : Bytes)
    → (x == 0) && (y == 0) ≡ false
    → strip_emulation_prevention (x ∷ y ∷ bs) ≡ x ∷ strip_emulation_prevention (y ∷ bs)
unfolding strip_emulation_prevention
skip x y [] h = refl
skip x y (z ∷ bs) h =
    let none : (x == 0) && (y == 0) && (z == 3) ≡ false = ground arith in
    rw (none, strip_emulation_prevention)

skip_one :
    (x : ℕ) (bs : Bytes)
    → (x == 0) ≡ false
    → strip_emulation_prevention (x ∷ bs) ≡ x ∷ strip_emulation_prevention bs
unfolding strip_emulation_prevention
skip_one x [] h = refl
skip_one x (y ∷ bs) h = skip x y bs (ground arith)

-- A third byte that is no 3.
skip_two :
    (z : ℕ) (bs : Bytes)
    → (z == 3) ≡ false
    → (z == 0) ≡ false
    → strip_emulation_prevention (0 ∷ 0 ∷ z ∷ bs) ≡ 0 ∷ 0 ∷ z ∷ strip_emulation_prevention bs
unfolding strip_emulation_prevention
skip_two z bs h k =
    let none : (z == 3) ≡ false = h in
    rw (none, strip_emulation_prevention)
      (ap (λ t. 0 ∷ t) (skip 0 z bs (ground arith) ∙ ap (λ t. 0 ∷ t) (skip_one z bs k)))

-- Behind none, one or two zeros.
abbrev Strips : Bytes → Type 0
Strips bs =
    (strip_emulation_prevention (escape 0 bs) ≡ bs)
    × (strip_emulation_prevention (0 ∷ escape 1 bs) ≡ 0 ∷ bs)
    × (strip_emulation_prevention (0 ∷ 0 ∷ escape 2 bs) ≡ 0 ∷ 0 ∷ bs)

third :
    (bs : Bytes)
    → strip_emulation_prevention (0 ∷ 0 ∷ 3 ∷ bs) ≡ 0 ∷ 0 ∷ strip_emulation_prevention bs
unfolding strip_emulation_prevention
third bs = refl

escape-Strips : (bs : Bytes) → Strips bs
escape-Strips [] = unfold strip_emulation_prevention in (refl, refl, refl)
escape-Strips (zero ∷ bs) =
    let ih = escape-Strips bs in (ih.1, ih.2, third (0 ∷ escape 1 bs) ∙ ap (λ t. 0 ∷ 0 ∷ t) ih.1)
escape-Strips (suc b ∷ bs) =
    let ih = escape-Strips bs in
    let plain = skip_one (suc b) (escape 0 bs) (ground arith) ∙ ap (λ t. suc b ∷ t) ih.0 in
    let positive : (suc b == 0) ≡ false = ground arith in
    (
      rw positive plain,
      rw positive (skip 0 (suc b) (escape 0 bs) (ground arith) ∙ ap (λ t. 0 ∷ t) plain),
      elim (Bool-cases (leb (suc b) 3)) [
        | inl e ↦ rw (e, positive) (third (suc b ∷ escape 0 bs) ∙ ap (λ t. 0 ∷ 0 ∷ t) plain)
        | inr e ↦
            rw (e, positive)
              (skip_two (suc b) (escape 0 bs) (ground arith) (ground arith)
                ∙ ap (λ t. 0 ∷ 0 ∷ suc b ∷ t) ih.0)
      ],
    )

-- What an encoder escaped is stripped to what it was.
pub strip_emulation_prevention-escape : (bs : Bytes) → strip_emulation_prevention (escape 0 bs) ≡ bs
strip_emulation_prevention-escape bs = (escape-Strips bs).0
