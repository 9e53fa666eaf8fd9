-- ===== src/H264/Sps/Parts.antt =====
-- The parts of a sequence parameter set as an encoder writes them, and how the parser of dvrbridge/h264.py reads
-- each of them.
use mathlib.Core.List.{flatten, map}
use dvrbridge.Base.{
  ℕ, ◌+◌, Bool, true, false, Option, none, some, List, [], ◌∷◌, length, ◌==◌, if◌then◌else◌, ◌≡◌,
  sym, subst, arith, All, All-append,
}
use dvrbridge.H264.Sps.{bit}
use dvrbridge.H264.Sps.Packed.{IsBit, golomb-IsBit}
use dvrbridge.H264.Sps.Parse.{pure, high_fields, skip_se, order_fields, cropping}
use dvrbridge.H264.Sps.Encoder.{
  Code, number, code, IsCode, code_0, code_1, code_2, flag, Takes, Parses, Takes-pure, Parses-pure,
  Parses-bind, Takes-bit, Takes-ue, Takes-se,
}

-- The fields of a high profile, with no scaling matrix.
pub record High : Type 0 where
  pub chroma : Code
  pub separate : Bool
  pub luma : Code
  pub depth : Code
  pub bypass : Bool

pub record IsHigh (h : High) : Type 0 where
  pub chroma : IsCode h.chroma
  pub luma : IsCode h.luma
  pub depth : IsCode h.depth

abbrev pub high_segments : High → List (List ℕ)
high_segments h =
    code h.chroma
    ∷ (if number h.chroma == 3 then flag h.separate ∷ [] else [])
    ∷ code h.luma
    ∷ code h.depth
    ∷ (flag h.bypass ∷ [])
    ∷ (0 ∷ [])
    ∷ []
    ∷ []

-- A bit that is there by a test.
pub Takes-bit_if :
    (b : Bool) (x : ℕ)
    → Takes (if b then bit else pure 0) (if b then x ∷ [] else []) (if b then x else 0)
Takes-bit_if true x = Takes-bit x
Takes-bit_if false x = Takes-pure 0

pub high_fields-Parses :
    (h : High) → IsHigh h → Takes high_fields (flatten (high_segments h)) (number h.chroma)
unfolding high_fields
high_fields-Parses h k = Parses-bind _ _ _ _ _ _ (Takes-ue h.chroma k.chroma) (
    Parses-bind _ _ _ _ _ _ (Takes-bit_if (number h.chroma == 3) (flag h.separate)) (
      Parses-bind _ _ _ _ _ _ (Takes-ue h.luma k.luma) (
        Parses-bind _ _ _ _ _ _ (Takes-ue h.depth k.depth) (
          Parses-bind _ _ _ _ _ _ (Takes-bit (flag h.bypass)) (
            Parses-bind _ _ _ _ _ _ (Takes-bit 0)
              (Parses-bind _ _ _ _ _ _ (Takes-pure tt) (Parses-pure (number h.chroma))))))))

-- The picture order count: of type 0, of type 1 with its offsets and the code of their number, or of type 2.
pub data Order : Type 0 where
  by_frame : Code → Order
  by_cycle : Bool → Code → Code → Code → List Code → Order
  by_output : Order

abbrev pub poc_code : Order → Code
poc_code (by_frame c) = code_0
poc_code (by_cycle b c d n cs) = code_1
poc_code by_output = code_2

pub poc_code-IsCode : (o : Order) → IsCode (poc_code o)
poc_code-IsCode (by_frame c) = record { short = omega arith; fits = omega arith }
poc_code-IsCode (by_cycle b c d n cs) = record { short = omega arith; fits = omega arith }
poc_code-IsCode by_output = record { short = omega arith; fits = omega arith }

abbrev pub order_segments : Order → List (List ℕ)
order_segments (by_frame c) = code c ∷ []
order_segments (by_cycle b c d n cs) = (flag b ∷ []) ∷ code c ∷ code d ∷ code n ∷ map code cs
order_segments by_output = []

abbrev pub IsOrder : Order → Type 0
IsOrder (by_frame c) = IsCode c
IsOrder (by_cycle b c d n cs) =
    IsCode c × IsCode d × IsCode n × All IsCode cs × (number n ≡ length cs)
IsOrder by_output = Unit

skip_se-Parses : (cs : List Code) → All IsCode cs → Parses (skip_se (length cs)) (map code cs) tt
unfolding skip_se
skip_se-Parses [] k = Parses-pure tt
skip_se-Parses (c ∷ cs) k = Parses-bind _ _ _ _ _ _ (Takes-se c k.0) (skip_se-Parses cs k.1)

pub order_fields-Parses :
    (o : Order)
    → IsOrder o
    → Takes (order_fields (number (poc_code o))) (flatten (order_segments o)) tt
unfolding order_fields
order_fields-Parses (by_frame c) k = Parses-bind _ _ _ _ _ _ (Takes-ue c k) (Parses-pure tt)
order_fields-Parses (by_cycle b c d n cs) k = Parses-bind _ _ _ _ _ _ (Takes-bit (flag b)) (
    Parses-bind _ _ _ _ _ _ (Takes-se c k.0) (
      Parses-bind _ _ _ _ _ _ (Takes-se d k.1) (
        Parses-bind _ _ _ _ _ _ (Takes-ue n k.2)
          (subst (λ m. Parses (skip_se m) (map code cs) tt) (sym k.4) (skip_se-Parses cs k.3)))))
order_fields-Parses by_output k = Parses-pure tt

-- The cropping of the picture, in units, or none.
pub record Crop : Type 0 where
  pub left : Code
  pub right : Code
  pub top : Code
  pub bottom : Code

abbrev pub crop_segments : Option Crop → List (List ℕ)
crop_segments none = []
crop_segments (some c) = code c.left ∷ code c.right ∷ code c.top ∷ code c.bottom ∷ []

abbrev pub IsCrop : Option Crop → Type 0
IsCrop none = Unit
IsCrop (some c) = IsCode c.left × IsCode c.right × IsCode c.top × IsCode c.bottom

abbrev pub is_cropped : Option Crop → Bool
is_cropped none = false
is_cropped (some c) = true

-- What is cut off in the width and in the height, in units.
abbrev pub cut : Option Crop → ℕ × ℕ
cut none = (0, 0)
cut (some c) = (number c.left + number c.right, number c.top + number c.bottom)

pub cropping-Parses :
    (c : Option Crop)
    → IsCrop c
    → Takes (cropping (flag (is_cropped c))) (flatten (crop_segments c)) (cut c)
unfolding cropping
cropping-Parses none k = Parses-pure (0, 0)
cropping-Parses (some c) k = Parses-bind _ _ _ _ _ _ (Takes-ue c.left k.0) (
    Parses-bind _ _ _ _ _ _ (Takes-ue c.right k.1) (
      Parses-bind _ _ _ _ _ _ (Takes-ue c.top k.2)
        (Parses-bind _ _ _ _ _ _ (Takes-ue c.bottom k.3) (Parses-pure (cut (some c))))))

pub code-IsBit : (c : Code) → All IsBit (code c)
code-IsBit c = golomb-IsBit c.zs c.tail

pub flag-IsBit : (b : Bool) → All IsBit (flag b ∷ [])
flag-IsBit true = omega arith
flag-IsBit false = omega arith

pub IsBit-if : (seg : List ℕ) (b : Bool) → All IsBit seg → All IsBit (if b then seg else [])
IsBit-if seg true h = h
IsBit-if seg false h = tt

pub flatten-IsBit : (segs : List (List ℕ)) → All (All IsBit) segs → All IsBit (flatten segs)
unfolding flatten
flatten-IsBit [] h = tt
flatten-IsBit (seg ∷ segs) h = All-append IsBit seg (flatten segs) h.0 (flatten-IsBit segs h.1)

codes-IsBit : (cs : List Code) → All (All IsBit) (map code cs)
codes-IsBit [] = tt
codes-IsBit (c ∷ cs) = (code-IsBit c, codes-IsBit cs)

pub high_segments-IsBit : (h : High) → All IsBit (flatten (high_segments h))
high_segments-IsBit h = flatten-IsBit (high_segments h) (
  code-IsBit h.chroma,
  (
    IsBit-if _ (number h.chroma == 3) (flag-IsBit h.separate),
    (code-IsBit h.luma, (code-IsBit h.depth, (flag-IsBit h.bypass, (flag-IsBit false, (tt, tt))))),
  ),
)

pub order_segments-IsBit : (o : Order) → All IsBit (flatten (order_segments o))
order_segments-IsBit (by_frame c) = flatten-IsBit (order_segments (by_frame c)) (code-IsBit c, tt)
order_segments-IsBit (by_cycle b c d n cs) =
    flatten-IsBit (order_segments (by_cycle b c d n cs))
      (flag-IsBit b, (code-IsBit c, (code-IsBit d, (code-IsBit n, codes-IsBit cs))))
order_segments-IsBit by_output = flatten-IsBit [] tt

pub crop_segments-IsBit : (c : Option Crop) → All IsBit (flatten (crop_segments c))
crop_segments-IsBit none = flatten-IsBit [] tt
crop_segments-IsBit (some c) =
    flatten-IsBit (crop_segments (some c))
      (code-IsBit c.left, (code-IsBit c.right, (code-IsBit c.top, (code-IsBit c.bottom, tt))))
