-- ===== src/Rtsp/Reading/Ensures.antt =====
-- What a step of `_read_request` in dvrbridge/rtsp/server.py ensures where it does not raise.
use dvrbridge.Base.{if◌then◌else◌, Option, none, some, Bool, true, false, ◌≡◌, refl, ap, subst}
use dvrbridge.Rtsp.Reading.{Fault, Result, ok, raised, ◌>>=◌}

-- A result, if there is one, has the property.
pub record Ensures {A : Type 0} (P : A → Type 0) (r : Result A) : Type 0 where
  pub holds : (a : A) → r ≡ ok a → P a

module _ {A : Type 0} where
  ok-injective : (a b : A) → ok a ≡ ok b → a ≡ b
  ok-injective a b e = ap (λ r. elim r [ ok x ↦ x | raised f ↦ a ]) e

  pub Ensures-ok : (P : A → Type 0) (a : A) → P a → Ensures P (ok a)
  Ensures-ok P a p = record { holds = λ b e. subst P (ok-injective a b e) p }

  pub Ensures-raised : (P : A → Type 0) (e : Fault) → Ensures P (raised e)
  Ensures-raised P e = record { holds = λ a h. absurd (cc h) }

  pub Ensures-test :
      (P : A → Type 0) (b : Bool) (x y : Result A)
      → (b ≡ true → Ensures P x)
      → (b ≡ false → Ensures P y)
      → Ensures P (elim b [ true ↦ x | false ↦ y ])
  Ensures-test P true x y h k = h refl
  Ensures-test P false x y h k = k refl

  pub Ensures-option :
      {B : Type 0} (P : A → Type 0) (o : Option B) (x : Result A) (f : B → Result A)
      → Ensures P x
      → ((b : B) → Ensures P (f b))
      → Ensures P (elim o [ none ↦ x | some b ↦ f b ])
  Ensures-option P none x f h k = h
  Ensures-option P (some b) x f h k = k b

  pub Ensures-weaken :
      (P Q : A → Type 0) (r : Result A) → Ensures P r → ((a : A) → P a → Q a) → Ensures Q r
  Ensures-weaken P Q r p f = record { holds = λ a e. f a (p.holds a e) }

  -- One value, or an error.
  pub Ensures-if :
      (P : A → Type 0) (e : Fault) (b : Bool) (a : A)
      → P a
      → Ensures P (if b then ok a else raised e)
  Ensures-if P e true a p = Ensures-ok P a p
  Ensures-if P e false a p = Ensures-raised P e

  pub Ensures-bind :
      {B : Type 0} (P : A → Type 0) (Q : B → Type 0) (m : Result A) (f : A → Result B)
      → Ensures P m
      → ((a : A) → P a → Ensures Q (f a))
      → Ensures Q (m >>= f)
  Ensures-bind P Q (ok a) f p k = k a (p.holds a refl)
  Ensures-bind P Q (raised e) f p k = record { holds = λ b h. absurd (cc h) }

abbrev pub Any : {A : Type 0} → A → Type 0
Any a = Unit {0}

pub Ensures-Any : {A : Type 0} (r : Result A) → Ensures Any r
Ensures-Any r = record { holds = λ a e. tt }
