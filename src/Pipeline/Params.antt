-- ===== src/Pipeline/Params.antt =====
-- The parameter sets that `Stream._on_frame` of dvrbridge/hub.py holds and puts before keyframes, by the last ones that came.
use dvrbridge.Base.{
  ℕ, if◌then◌else◌, Bool, true, false, not, ◌&&◌, Option, none, some, List, [], ◌∷◌, ◌++◌, Bytes,
  All, All-append, ◌≡◌, refl, sym, ap, ◌∙◌, subst, arith, Bool-cases, inl, inr,
}
use dvrbridge.H264.{nal_type, nal_sps, nal_pps}
use dvrbridge.Hub.{
  Stream, truthy, has_type, cache_param, cache_params, any_sps, prepend, with_params,
}
use dvrbridge.Rtp.RoundTrip.{IsPlain}
use dvrbridge.Pipeline.{last_of, before_key, IsPlainParam, HasPlain}

cache_param-HasPlain :
    (n : Bytes) (s : Stream) → IsPlain n → HasPlain s → HasPlain (cache_param n s)
unfolding cache_param
cache_param-HasPlain n s p h = elim (Bool-cases (has_type nal_sps n)) [
  | inl e ↦ rw e (p, h.1)
  | inr e ↦ elim (Bool-cases (has_type nal_pps n)) [
    | inl e' ↦ rw (e, e') (h.0, p)
    | inr e' ↦ rw (e, e') h
  ]
]

pub cache_params-HasPlain :
    (ns : List Bytes) (s : Stream) → All IsPlain ns → HasPlain s → HasPlain (cache_params ns s)
unfolding cache_params
cache_params-HasPlain [] s p h = h
cache_params-HasPlain (n ∷ ns) s p h =
    cache_params-HasPlain ns (cache_param n s) p.1 (cache_param-HasPlain n s p.0 h)

-- The cached sets are the last ones.
cache_param-last :
    (n : Bytes) (s : Stream)
    → ((cache_param n s).sps ≡ (if has_type 7 n then some n else s.sps))
      × ((cache_param n s).pps ≡ (if has_type 8 n then some n else s.pps))
unfolding cache_param
cache_param-last n s = go (nal_type n) refl
  where
    go :
        (o : Option ℕ)
        → nal_type n ≡ o
        → ((cache_param n s).sps ≡ (if has_type 7 n then some n else s.sps))
          × ((cache_param n s).pps ≡ (if has_type 8 n then some n else s.pps))
    go none e = unfold has_type in rw (e, has_type) (refl, refl)
    go (some t) e = unfold has_type in rw (e, has_type) (ground arith)

pub cache_params-last :
    (ns : List Bytes) (s : Stream)
    → ((cache_params ns s).sps ≡ last_of 7 s.sps ns)
      × ((cache_params ns s).pps ≡ last_of 8 s.pps ns)
unfolding cache_params
cache_params-last [] s = (refl, refl)
cache_params-last (n ∷ ns) s =
    let rest = cache_params-last ns (cache_param n s) in
    let now = cache_param-last n s in
    (rest.0 ∙ ap (λ held. last_of 7 held ns) now.0, rest.1 ∙ ap (λ held. last_of 8 held ns) now.1)

last_of-some : (ns : List Bytes) (a : Bytes) → (n : Bytes) × (last_of 7 (some a) ns ≡ some n)
last_of-some [] a = (a, refl)
last_of-some (n ∷ ns) a = elim (Bool-cases (has_type 7 n)) [
  | inl e ↦ rw e (last_of-some ns n)
  | inr e ↦ rw e (last_of-some ns a)
]

-- Whether the NALs hold an SPS, by the last one.
pub data Own (b : Bool) (own : Option Bytes) : Type 0 where
  own_sps : (n : Bytes) → b ≡ true → own ≡ some n → Own b own
  no_sps : b ≡ false → own ≡ none → Own b own

any_sps-Own : (ns : List Bytes) → Own (any_sps ns) (last_of 7 none ns)
unfolding any_sps
any_sps-Own [] = no_sps refl refl
any_sps-Own (n ∷ ns) = elim (Bool-cases (has_type 7 n)) [
  | inl e ↦ let last = last_of-some ns n in rw e (own_sps last.0 refl last.1)
  | inr e ↦ rw e (any_sps-Own ns)
]

before_key-prepend :
    (b : Bool) (own sps pps : Option Bytes) (nals : List Bytes)
    → Own b own
    → (if truthy sps && truthy pps && not b then prepend sps pps nals else nals)
      ≡ before_key own sps pps ++ nals
unfolding truthy
before_key-prepend b own sps pps nals (own_sps n is e) = rw (is, e) (ground arith)
before_key-prepend b own none pps nals (no_sps is e) = rw e refl
before_key-prepend b own (some []) pps nals (no_sps is e) = rw e refl
before_key-prepend b own (some (x ∷ a)) none nals (no_sps is e) = rw e refl
before_key-prepend b own (some (x ∷ a)) (some []) nals (no_sps is e) = rw e refl
before_key-prepend b own (some (x ∷ a)) (some (y ∷ c)) nals (no_sps is e) = rw (is, e) refl

pub with_params-before :
    (key : Bool) (s : Stream) (nals : List Bytes)
    → with_params key s nals
      ≡ (if key then before_key (last_of 7 none nals) s.sps s.pps else []) ++ nals
unfolding with_params
with_params-before false s nals = refl
with_params-before true s nals =
    before_key-prepend (any_sps nals) (last_of 7 none nals) s.sps s.pps nals (any_sps-Own nals)

-- What stands before a keyframe's NALs is no fragment.
before_key-IsPlain :
    (own sps pps : Option Bytes)
    → IsPlainParam sps
    → IsPlainParam pps
    → All IsPlain (before_key own sps pps)
before_key-IsPlain (some n) sps pps p q = tt
before_key-IsPlain none none pps p q = tt
before_key-IsPlain none (some []) pps p q = tt
before_key-IsPlain none (some (x ∷ a)) none p q = tt
before_key-IsPlain none (some (x ∷ a)) (some []) p q = tt
before_key-IsPlain none (some (x ∷ a)) (some (y ∷ c)) p q = (p, (q, tt))

pub with_params-IsPlain :
    (key : Bool) (s : Stream) (nals : List Bytes)
    → HasPlain s
    → All IsPlain nals
    → All IsPlain (with_params key s nals)
with_params-IsPlain key s nals h p = subst (All IsPlain) (sym (with_params-before key s nals)) (
    All-append IsPlain (if key then before_key (last_of 7 none nals) s.sps s.pps else []) nals
      (before key) p)
  where
    before :
        (k : Bool) → All IsPlain (if k then before_key (last_of 7 none nals) s.sps s.pps else [])
    before true = before_key-IsPlain (last_of 7 none nals) s.sps s.pps h.0 h.1
    before false = tt
