-- ===== src/Hub/Params.antt =====
-- The parameter sets that `Stream._on_frame` of dvrbridge/hub.py caches, and those that it puts in
-- front of a keyframe.
use dvrbridge.Base.{
  ℕ, Bool, true, not, Option, none, some, List, [], ◌∷◌, ◌++◌, map, ◌≡◌, ◌≢◌, refl, sym, ap, ◌∙◌,
  subst, arith, Bytes, is_nil, All, Bool-cases, inl, inr, ◌⊎◌,
}
use mathlib.Core.Option.{some-injective}
use dvrbridge.H264.{nal_type, nal_sps, nal_pps, iter_nals}
use dvrbridge.H264.Nals.{IsPayload, iter_nals-IsPayload}
use dvrbridge.Hub.{
  HubFrame, Stream, truthy, has_type, non_empty, cache_param, cache_params, any_sps, with_params,
  offer, relay, on_frame,
}

has_type-is_nil : (t : ℕ) (n : Bytes) → has_type t n ≡ true → not (is_nil n) ≡ true
unfolding has_type nal_type
has_type-is_nil t [] h = h
has_type-is_nil t (b ∷ n) h = refl

-- The cached SPS is one, and so is the PPS.
pub record AreParams (sps pps : Option Bytes) : Type 0 where
  pub sps_type : (n : Bytes) → sps ≡ some n → has_type nal_sps n ≡ true
  pub pps_type : (n : Bytes) → pps ≡ some n → has_type nal_pps n ≡ true

-- What caching leaves alone.
pub record SameBut (s s' : Stream) : Type 0 where
  pub task : s'.task ≡ s.task
  pub subs : s'.subs ≡ s.subs
  pub ready : s'.ready ≡ s.ready
  pub always_on : s'.always_on ≡ s.always_on
  pub linger : s'.linger ≡ s.linger
  pub last_activity : s'.last_activity ≡ s.last_activity

cache_param-SameBut : (n : Bytes) (s : Stream) → SameBut s (cache_param n s)
unfolding cache_param
cache_param-SameBut n s = ground arith

pub cache_params-SameBut : (ns : List Bytes) (s : Stream) → SameBut s (cache_params ns s)
unfolding cache_params
cache_params-SameBut [] s = ground arith
cache_params-SameBut (n ∷ ns) s =
    ground (arith, cache_param-SameBut n s, cache_params-SameBut ns (cache_param n s))

cache_param-AreParams :
    (n : Bytes) (s : Stream)
    → AreParams s.sps s.pps
    → AreParams (cache_param n s).sps (cache_param n s).pps
unfolding cache_param
cache_param-AreParams n s a = elim (Bool-cases (has_type nal_sps n)) [
  | inl e ↦ rw e (record {
    sps_type = λ m p. subst (λ t. has_type nal_sps t ≡ true) (some-injective _ _ p) e;
    pps_type = a.pps_type;
  })
  | inr e ↦ elim (Bool-cases (has_type nal_pps n)) [
    | inl f ↦
        rw (e, f)
          (record {
            sps_type = a.sps_type;
            pps_type = λ m p. subst (λ t. has_type nal_pps t ≡ true) (some-injective _ _ p) f;
          })
    | inr f ↦ rw (e, f) a
  ]
]

pub cache_params-AreParams :
    (ns : List Bytes) (s : Stream)
    → AreParams s.sps s.pps
    → AreParams (cache_params ns s).sps (cache_params ns s).pps
unfolding cache_params
cache_params-AreParams [] s a = a
cache_params-AreParams (n ∷ ns) s a =
    cache_params-AreParams ns (cache_param n s) (cache_param-AreParams n s a)

cache_param-truthy :
    (n : Bytes) (s : Stream)
    → (truthy s.sps ≡ true → truthy (cache_param n s).sps ≡ true)
      × (truthy s.pps ≡ true → truthy (cache_param n s).pps ≡ true)
unfolding cache_param truthy
cache_param-truthy n s = ground (arith, has_type-is_nil nal_sps n, has_type-is_nil nal_pps n)

-- What is cached stays cached.
pub cache_params-truthy :
    (ns : List Bytes) (s : Stream)
    → (truthy s.sps ≡ true → truthy (cache_params ns s).sps ≡ true)
      × (truthy s.pps ≡ true → truthy (cache_params ns s).pps ≡ true)
unfolding cache_params
cache_params-truthy [] s = (λ h. h, λ h. h)
cache_params-truthy (n ∷ ns) s =
    let first = cache_param-truthy n s in
    let rest = cache_params-truthy ns (cache_param n s) in
    (λ h. rest.0 (first.0 h), λ h. rest.1 (first.1 h))

-- `iter_nals` yields no empty NAL, so the filter keeps all.
pub non_empty_all : (ns : List Bytes) → All IsPayload ns → non_empty ns ≡ ns
unfolding non_empty
non_empty_all [] h = refl
non_empty_all ([] ∷ ns) h = absurd (h.0.0 refl)
non_empty_all ((b ∷ n) ∷ ns) h = ap (◌∷◌ (b ∷ n)) (non_empty_all ns h.1)

-- A payload with no NAL changes nothing; any other is relayed.
pub on_frame-cases :
    (payload : Bytes) (ts : ℕ) (key : Bool) (s : Stream)
    → (on_frame payload ts key s ≡ s)
      ⊎ (on_frame payload ts key s ≡ relay (iter_nals payload) ts key s)
unfolding on_frame
on_frame-cases payload ts key s =
    rw (non_empty_all (iter_nals payload) (iter_nals-IsPayload payload))
      (elim (Bool-cases (is_nil (iter_nals payload))) [
        | inl e ↦ rw e (inl refl)
        | inr e ↦ rw e (inr refl)
      ])

pub on_frame-relay :
    (payload : Bytes) (ts : ℕ) (key : Bool) (s : Stream)
    → iter_nals payload ≢ []
    → on_frame payload ts key s ≡ relay (iter_nals payload) ts key s
unfolding on_frame
on_frame-relay payload ts key s h =
    rw (non_empty_all (iter_nals payload) (iter_nals-IsPayload payload)) (ground arith)

-- With both parameter sets cached, what is sent for a keyframe holds an SPS, and ends with the
-- NALs of the payload.
pub record Complete (nals sent : List Bytes) : Type 0 where
  pub has_sps : any_sps sent ≡ true
  pub before : List Bytes
  pub ends : sent ≡ before ++ nals

with_params-Complete :
    (s : Stream) (nals : List Bytes)
    → AreParams s.sps s.pps
    → truthy s.sps ≡ true
    → truthy s.pps ≡ true
    → Complete nals (with_params true s nals)
with_params-Complete s nals a hs hp = go s.sps s.pps refl refl hs hp
  where
    go :
        (o q : Option Bytes)
        → s.sps ≡ o
        → s.pps ≡ q
        → truthy s.sps ≡ true
        → truthy s.pps ≡ true
        → Complete nals (with_params true s nals)
    go none q e f hs hp = absurd (unfold truthy in cc (sym hs ∙ ap truthy e))
    go (some x) none e f hs hp = absurd (unfold truthy in cc (sym hp ∙ ap truthy f))
    go (some x) (some y) e f hs hp = elim (Bool-cases (any_sps nals)) [
      | inl present ↦ record {
        has_sps = unfold with_params in rw (hs, hp, present) present;
        before = [];
        ends = unfold with_params in rw (hs, hp, present);
      }
      | inr absent ↦ record {
        has_sps = unfold with_params in rw (hs, hp, absent, e, f, a.sps_type x e);
        before = x ∷ y ∷ [];
        ends = unfold with_params in rw (hs, hp, absent, e, f);
      }
    ]

-- With both parameter sets cached, each of its own type, every subscriber is offered one and the same
-- frame for a keyframe payload that holds a NAL: its NALs hold an SPS and end with those of the payload, and its time is the given one.
pub on_frame-Complete :
    (payload : Bytes) (ts : ℕ) (s : Stream)
    → AreParams s.sps s.pps
    → truthy s.sps ≡ true
    → truthy s.pps ≡ true
    → iter_nals payload ≢ []
    → (item : HubFrame) × ((on_frame payload ts true s).subs ≡ map (offer item) s.subs)
      × (item.keyframe ≡ true)
      × (item.ts90k ≡ ts)
      × Complete (iter_nals payload) item.nals
on_frame-Complete payload ts s a hs hp ne = (
  record { nals = with_params true cached nals; ts90k = ts; keyframe = true },
  ap (λ t. t.subs) (on_frame-relay payload ts true s ne) ∙ unfold relay in ap (map _) same.subs,
  refl,
  refl,
  with_params-Complete cached nals (cache_params-AreParams nals s a) (kept.0 hs) (kept.1 hp),
)
  where
    nals : List Bytes
    nals = iter_nals payload

    cached : Stream
    cached = cache_params nals s

    same : SameBut s cached
    same = cache_params-SameBut nals s

    kept :
        (truthy s.sps ≡ true → truthy cached.sps ≡ true)
        × (truthy s.pps ≡ true → truthy cached.pps ≡ true)
    kept = cache_params-truthy nals s
