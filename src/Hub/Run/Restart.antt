-- ===== src/Hub/Run/Restart.antt =====
-- The parameter sets of a stream of dvrbridge/hub.py over an idle disconnect and the next connection.
use dvrbridge.Base.{
  ℕ, Bool, true, false, ◌&&◌, ◌||◌, Option, List, [], ◌∷◌, ◌≡◌, ◌≢◌, refl, sym, ap, ◌∙◌, subst,
  arith, Bytes, All,
}
use dvrbridge.H264.{nal_sps, nal_pps, iter_nals}
use dvrbridge.Hub.{
  starting, streaming, closing, StreamInfo, Stream, on_frame, relay, cache_param, cache_params,
  has_type, truthy,
}
use dvrbridge.Hub.Params.{on_frame-relay}
use dvrbridge.Hub.Run.{
  touched, begun, frame, closed, backoff_start, task_event, step, run, enter, received, returned,
  idle_expired, ensured, touch,
}

-- A NAL that is no parameter set.
abbrev pub IsNoParam : Bytes → Type 0
IsNoParam n = (has_type nal_sps n ≡ false) × (has_type nal_pps n ≡ false)

cache_params-eq : (ns : List Bytes) (s : Stream) → All IsNoParam ns → cache_params ns s ≡ s
unfolding cache_params
cache_params-eq [] s h = refl
cache_params-eq (n ∷ ns) s h = ap (cache_params ns) (same n s h.0) ∙ cache_params-eq ns s h.1
  where
    same : (n : Bytes) (s : Stream) → IsNoParam n → cache_param n s ≡ s
    same n s h = unfold cache_param in rw (h.0, h.1)

-- An idle stream is closed, touched by a DESCRIBE, and connects again.
abbrev reconnected : ℕ → Stream → Stream
reconnected now s = record s {
  ready = false;
  last_activity = now;
  task = streaming now backoff_start;
}

fresh-idle_expired : (now : ℕ) (s : Stream) → s.last_activity ≡ now → idle_expired now s ≡ false
unfolding idle_expired
fresh-idle_expired now s e = ground arith

enter_fresh :
    (now : ℕ) (s : Stream)
    → s.last_activity ≡ now
    → enter now backoff_start s ≡ record s { task = streaming now backoff_start }
unfolding enter
enter_fresh now s e = rw (fresh-idle_expired now s e)

reconnects-closing :
    (now : ℕ) (s : Stream)
    → s.task ≡ closing
    → run (closed ∷ touched now ∷ begun now ∷ []) s ≡ reconnected now s
unfolding run step touch returned ensured
reconnects-closing now s q =
    rw (q, task_event)
      (enter_fresh now (record s { ready = false; task = starting; last_activity = now }) refl)

or_true : (r a b : Bool) → a ≡ true → b ≡ true → (r || (a && b)) ≡ true
or_true r a b h k = ground arith

abbrev Holds : Option Bytes → Option Bytes → Stream → Type 0
Holds sps pps t = (t.ready ≡ true) × (t.sps ≡ sps) × (t.pps ≡ pps)

received-Holds :
    (now : ℕ) (info : StreamInfo) (payload : Bytes) (ts : ℕ) (key : Bool) (s : Stream)
    → truthy s.sps ≡ true
    → truthy s.pps ≡ true
    → iter_nals payload ≢ []
    → All IsNoParam (iter_nals payload)
    → Holds s.sps s.pps (received now info payload ts key s)
received-Holds now info payload ts key s hs hp ne none_new =
    go (idle_expired now s') refl (subst (Holds s.sps s.pps) (sym relayed) held)
  where
    s0 : Stream
    s0 = record s { info = info }

    s' : Stream
    s' = on_frame payload ts key s0

    relayed : s' ≡ relay (iter_nals payload) ts key s0
    relayed = on_frame-relay payload ts key s0 ne

    held : Holds s.sps s.pps (relay (iter_nals payload) ts key s0)
    held =
        unfold relay in
        rw (cache_params-eq (iter_nals payload) s0 none_new)
          (or_true s.ready (truthy s.sps) (truthy s.pps) hs hp, refl, refl)

    go :
        (b : Bool)
        → idle_expired now s' ≡ b
        → Holds s.sps s.pps s'
        → Holds s.sps s.pps (received now info payload ts key s)
    go true e h = unfold received in rw e h
    go false e h = unfold received in rw e h

-- Stale parameter sets: when a stream that cached both disconnects for idleness and connects again, and its first
-- frame has NALs but no parameter set, that frame makes it ready, with the sets of the old connection.
pub run-stale_params :
    (now later : ℕ) (info : StreamInfo) (payload : Bytes) (ts : ℕ) (key : Bool) (s : Stream)
    → s.task ≡ closing
    → truthy s.sps ≡ true
    → truthy s.pps ≡ true
    → iter_nals payload ≢ []
    → All IsNoParam (iter_nals payload)
    → ((run (closed ∷ touched now ∷ begun now ∷ frame later info payload ts key ∷ []) s).ready
        ≡ true)
      × ((run (closed ∷ touched now ∷ begun now ∷ frame later info payload ts key ∷ []) s).sps
          ≡ s.sps)
      × ((run (closed ∷ touched now ∷ begun now ∷ frame later info payload ts key ∷ []) s).pps
          ≡ s.pps)
run-stale_params now later info payload ts key s q hs hp ne none_new =
    subst (Holds s.sps s.pps) (sym same)
      (received-Holds later info payload ts key (reconnected now s) hs hp ne none_new)
  where
    same :
        run (closed ∷ touched now ∷ begun now ∷ frame later info payload ts key ∷ []) s
        ≡ received later info payload ts key (reconnected now s)
    same =
        unfold run in
        ap (step (frame later info payload ts key)) (reconnects-closing now s q)
        ∙ unfold step task_event in refl
