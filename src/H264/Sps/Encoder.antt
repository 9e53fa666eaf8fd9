-- ===== src/H264/Sps/Encoder.antt =====
-- An encoder of sequence parameter sets, by segments of bits, and the steps of the parser of dvrbridge/h264.py on them.
use mathlib.Core.List.{flatten}
use dvrbridge.Base.{
  ℕ, ◌+◌, ◌-◌, ◌^◌, ◌≤◌, ◌<◌, Bool, some, List, [], ◌∷◌, ◌++◌, Bytes, length, if◌then◌else◌, ◌≡◌,
  refl, sym, ap, ◌∙◌, arith, length-append,
}
use dvrbridge.H264.Sps.{bit, bits, bits_from, ue}
use dvrbridge.H264.Sps.Golomb.{
  Reads, golomb, digits, digits-length, value-digits, bits_from-Reads, ue-golomb, golomb-length,
}
use dvrbridge.H264.Sps.Packed.{Reads-append}
use dvrbridge.H264.Sps.Parse.{Reader, ◌>>=◌, pure, bits_of, se, signed}

-- The Exp-Golomb code of `2 ^ zs - 1 + tail`.
pub record Code : Type 0 where
  pub zs : ℕ
  pub tail : ℕ

abbrev pub number : Code → ℕ
number c = 2 ^ c.zs - 1 + c.tail

-- The codes of 0, 1 and 2.
abbrev pub code_0 : Code
code_0 = record { zs = 0; tail = 0 }

abbrev pub code_1 : Code
code_1 = record { zs = 1; tail = 0 }

abbrev pub code_2 : Code
code_2 = record { zs = 1; tail = 1 }

-- Such a code has at most 31 leading zeros.
pub record IsCode (c : Code) : Type 0 where
  pub short : c.zs ≤ 31
  pub fits : c.tail < 2 ^ c.zs

abbrev pub code : Code → List ℕ
code c = golomb c.zs c.tail

abbrev pub flag : Bool → ℕ
flag b = if b then 1 else 0

-- A step that takes these bits, and gives `a`.
pub record Takes {A : Type 0} (m : Reader A) (seg : List ℕ) (a : A) : Type 0 where
  pub runs : (src : Bytes) (at : ℕ) → Reads src at seg → m src at ≡ some (a, at + length seg)

-- A step that takes these segments, one behind the other.
abbrev pub Parses : {A : Type 0} → Reader A → List (List ℕ) → A → Type 0
Parses m segs a = Takes m (flatten segs) a

pub Takes-pure : {A : Type 0} (a : A) → Takes (pure a) [] a
unfolding pure
Takes-pure a = record { runs = λ src at h. ap (λ p. some (a, p)) (omega arith) }

pub Parses-pure : {A : Type 0} (a : A) → Parses (pure a) [] a
unfolding flatten
Parses-pure a = Takes-pure a

pub bind_runs :
    {A B : Type 0} (m : Reader A) (f : A → Reader B) (src : Bytes) (at next : ℕ) (a : A)
    → m src at ≡ some (a, next)
    → (m >>= f) src at ≡ f a src next
unfolding ◌>>=◌
bind_runs m f src at next a e = rw (e, ◌>>=◌) refl

-- The first segment, and the others.
pub Parses-bind :
    {A B : Type 0} (m : Reader A) (f : A → Reader B) (seg : List ℕ) (segs : List (List ℕ)) (a : A)
    (b : B)
    → Takes m seg a
    → Parses (f a) segs b
    → Parses (m >>= f) (seg ∷ segs) b
unfolding flatten
Parses-bind m f seg segs a b p q = record {
  runs = λ src at h.
      let parts = Reads-append src at seg (flatten segs) h in
      let there : at + length seg + length (flatten segs) ≡ at + length (seg ++ flatten segs) =
        omega (arith, length-append seg (flatten segs)) in
      bind_runs m f src at (at + length seg) a (p.runs src at parts.0)
      ∙ q.runs src (at + length seg) parts.1
      ∙ ap (λ t. some (b, t)) there;
}

-- A step that ends by what it gives.
pub Takes-last :
    {A B : Type 0} (m : Reader A) (f : A → B) (seg : List ℕ) (a : A)
    → Takes m seg a
    → Takes (m >>= (λ x. pure (f x))) seg (f a)
unfolding pure
Takes-last m f seg a p = record {
  runs = λ src at h. bind_runs m (λ x. pure (f x)) src at (at + length seg) a (p.runs src at h);
}

pub Takes-bit : (b : ℕ) → Takes bit (b ∷ []) b
Takes-bit b = record { runs = λ src at h. h.0 }

pub Takes-bits : (n r : ℕ) → r < 2 ^ n → Takes (bits_of n) (digits n r) r
unfolding bits_of bits
Takes-bits n r l = record {
  runs = λ src at h.
      ap (λ k. bits_from src 0 k at) (sym (digits-length n r))
      ∙ bits_from-Reads src (digits n r) 0 at h
      ∙ ap (λ v. some (v, at + length (digits n r))) (value-digits n r l);
}

pub Takes-ue : (c : Code) → IsCode c → Takes ue (code c) (number c)
Takes-ue c k = record {
  runs = λ src at h.
      ue-golomb src c.zs c.tail at k.short k.fits h
      ∙ ap (λ p. some (number c, p)) (omega (arith, golomb-length c.zs c.tail));
}

pub Takes-se : (c : Code) → IsCode c → Takes se (code c) (signed (number c))
unfolding se
Takes-se c k = Takes-last ue signed (code c) (number c) (Takes-ue c k)
