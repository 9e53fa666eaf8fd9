-- ===== src/Hub/Run/Invariant.antt =====
-- Invariants of a stream of dvrbridge/hub.py over every sequence of events.
use Prim.Native.String.{String}
use dvrbridge.Base.{
  ℕ, ◌-◌, ltb, ◌≤◌, Bool, true, false, ◌&&◌, ◌||◌, Option, List, [], ◌∷◌, if◌then◌else◌, ◌≡◌, refl,
  sym, ap, ◌∙◌, subst, arith, Bytes, is_nil, Bool-cases, inl, inr,
}
use dvrbridge.H264.{iter_nals}
use dvrbridge.Hub.{
  Task, idle, starting, streaming, closing, waiting, StreamInfo, Stream, truthy, cache_params,
  relay, on_frame, new_stream,
}
use dvrbridge.Hub.Params.{
  AreParams, cache_params-SameBut, cache_params-AreParams, cache_params-truthy, on_frame-cases,
}
use dvrbridge.Hub.Run.{
  backoff_start, backoff_cap, stable_reset, Event, touched, subscribed, unsubscribed, begun, frame,
  closed, driver_ended, resumed, crashed, cancelled, task_event, step, run, enter, received,
  disconnected, exit, returned, idle_expired, ensured, ensure_running, next_backoff,
}

-- A connection is up, or is being closed.
abbrev pub is_live : Task → Bool
is_live idle = false
is_live starting = false
is_live (streaming started backoff) = true
is_live closing = true
is_live (waiting backoff) = false

abbrev pub BackoffInRange : Task → Type 0
BackoffInRange idle = Unit
BackoffInRange starting = Unit
BackoffInRange (streaming started b) = (backoff_start ≤ b) × (b ≤ backoff_cap)
BackoffInRange closing = Unit
BackoffInRange (waiting b) = (backoff_start ≤ b) × (b ≤ backoff_cap)

-- `_ready` is set only while a connection is up, and only with both parameter sets cached, each of
-- its own type; and the backoff keeps its bounds.
pub record Consistent (sps pps : Option Bytes) (ready : Bool) (task : Task) : Type 0 where
  pub params : AreParams sps pps
  pub ready_sps : ready ≡ true → truthy sps ≡ true
  pub ready_pps : ready ≡ true → truthy pps ≡ true
  pub ready_live : ready ≡ true → is_live task ≡ true
  pub in_range : BackoffInRange task

abbrev pub IsConsistent : Stream → Type 0
IsConsistent s = Consistent s.sps s.pps s.ready s.task

module _ {sps pps : Option Bytes} where
  Consistent-down : (t : Task) → AreParams sps pps → BackoffInRange t → Consistent sps pps false t
  Consistent-down t a b = record {
    params = a;
    ready_sps = λ e. cc e;
    ready_pps = λ e. cc e;
    ready_live = λ e. cc e;
    in_range = b;
  }

  -- A task that is not connected is not ready.
  down_ready : {r : Bool} (t : Task) → Consistent sps pps r t → is_live t ≡ false → r ≡ false
  down_ready {r = true} t c e = cc (sym (c.ready_live refl) ∙ e)
  down_ready {r = false} t c e = refl

  Consistent-ensure_running :
      {r : Bool} (t : Task) → Consistent sps pps r t → Consistent sps pps r (ensured t)
  unfolding ensured
  Consistent-ensure_running idle c =
      subst (λ b. Consistent sps pps b starting) (sym (down_ready idle c refl))
        (Consistent-down starting c.params tt)
  Consistent-ensure_running starting c = c
  Consistent-ensure_running (streaming n b) c = c
  Consistent-ensure_running closing c = c
  Consistent-ensure_running (waiting b) c = c

exit-IsConsistent : (s : Stream) → AreParams s.sps s.pps → IsConsistent (exit s)
unfolding exit ensure_running
exit-IsConsistent s a = elim (Bool-cases (is_nil s.subs)) [
  | inl e ↦ rw e (Consistent-down idle a tt)
  | inr e ↦ rw e (Consistent-down starting a tt)
]

enter-IsConsistent :
    (now b : ℕ) (s : Stream)
    → (backoff_start ≤ b) × (b ≤ backoff_cap)
    → AreParams s.sps s.pps
    → s.ready ≡ false
    → IsConsistent (enter now b s)
unfolding enter
enter-IsConsistent now b s hb a r = elim (Bool-cases (idle_expired now s)) [
  | inl e ↦ rw e (exit-IsConsistent s a)
  | inr e ↦ rw e (
      subst (λ x. Consistent s.sps s.pps x (streaming now b)) (sym r)
        (Consistent-down (streaming now b) a hb))
]

disconnected-IsConsistent :
    (now started b : ℕ) (s : Stream)
    → (backoff_start ≤ b) × (b ≤ backoff_cap)
    → AreParams s.sps s.pps
    → IsConsistent (disconnected now started b s)
unfolding disconnected
disconnected-IsConsistent now started b s hb a = elim (Bool-cases (idle_expired now s)) [
  | inl e ↦ rw e (unfold returned in Consistent-down idle a tt)
  | inr e ↦ rw e (
      Consistent-down (waiting (if ltb stable_reset (now - started) then backoff_start else b))
        (record { sps_type = λ n p. cc p; pps_type = λ n p. cc p }) (ground arith))
]

both_cached :
    (r r' a b : Bool)
    → r' ≡ r
    → (r ≡ true → a ≡ true)
    → (r ≡ true → b ≡ true)
    → (r' || (a && b)) ≡ true
    → (a ≡ true) × (b ≡ true)
both_cached r r' a b e f g h = ground arith

relay-IsConsistent :
    (ns : List Bytes) (ts : ℕ) (key : Bool) (s : Stream)
    → is_live s.task ≡ true
    → IsConsistent s
    → IsConsistent (relay ns ts key s)
unfolding relay
relay-IsConsistent ns ts key s live c =
    let kept = cache_params-truthy ns s in
    let same = cache_params-SameBut ns s in
    let both =
      both_cached s.ready (cache_params ns s).ready (truthy (cache_params ns s).sps)
        (truthy (cache_params ns s).pps) same.ready (λ e. kept.0 (c.ready_sps e))
        (λ e. kept.1 (c.ready_pps e)) in
    record {
      params = cache_params-AreParams ns s c.params;
      ready_sps = λ e. (both e).0;
      ready_pps = λ e. (both e).1;
      ready_live = λ _. ap is_live same.task ∙ live;
      in_range = subst BackoffInRange (sym same.task) c.in_range;
    }

on_frame-IsConsistent :
    (payload : Bytes) (ts : ℕ) (key : Bool) (s : Stream)
    → is_live s.task ≡ true
    → IsConsistent s
    → IsConsistent (on_frame payload ts key s)
on_frame-IsConsistent payload ts key s live c = elim (on_frame-cases payload ts key s) [
  | inl e ↦ rw e c
  | inr e ↦ rw e (relay-IsConsistent (iter_nals payload) ts key s live c)
]

closing-IsConsistent : (s : Stream) → IsConsistent s → IsConsistent (record s { task = closing })
closing-IsConsistent s c = record {
  params = c.params;
  ready_sps = c.ready_sps;
  ready_pps = c.ready_pps;
  ready_live = λ _. refl;
  in_range = tt;
}

received-IsConsistent :
    (now : ℕ) (info : StreamInfo) (payload : Bytes) (ts : ℕ) (key : Bool) (s : Stream)
    → is_live s.task ≡ true
    → IsConsistent s
    → IsConsistent (received now info payload ts key s)
unfolding received
received-IsConsistent now info payload ts key s live c =
    let c' = on_frame-IsConsistent payload ts key (record s { info = info }) live c in
    elim (Bool-cases (idle_expired now (on_frame payload ts key (record s { info = info })))) [
      | inl e ↦ rw e (closing-IsConsistent (on_frame payload ts key (record s { info = info })) c')
      | inr e ↦ rw e c'
    ]

returned-IsConsistent : (s : Stream) → IsConsistent s → IsConsistent (returned s)
unfolding returned
returned-IsConsistent s c = Consistent-down idle c.params tt

next_backoff_range :
    (b : ℕ)
    → (backoff_start ≤ b) × (b ≤ backoff_cap)
    → (backoff_start ≤ next_backoff b) × (next_backoff b ≤ backoff_cap)
unfolding next_backoff
next_backoff_range b h = omega arith

module _ (s : Stream) (c : IsConsistent s) where
  in_range_at : {t : Task} → s.task ≡ t → BackoffInRange t
  in_range_at q = subst BackoffInRange q c.in_range

  task_event-IsConsistent : (e : Event) (t : Task) → s.task ≡ t → IsConsistent (task_event e t s)
  unfolding task_event
  task_event-IsConsistent (begun now) starting q =
      enter-IsConsistent now backoff_start s (omega arith) c.params
        (down_ready s.task c (ap is_live q))
  task_event-IsConsistent (frame now info payload ts key) (streaming started b) q =
      received-IsConsistent now info payload ts key s (ap is_live q) c
  task_event-IsConsistent closed closing q = returned-IsConsistent s c
  task_event-IsConsistent (driver_ended now) (streaming started b) q =
      disconnected-IsConsistent now started b s (in_range_at q) c.params
  task_event-IsConsistent (resumed now) (waiting b) q =
      enter-IsConsistent now (next_backoff b) s (next_backoff_range b (in_range_at q)) c.params
        (down_ready s.task c (ap is_live q))
  task_event-IsConsistent crashed idle q = c
  task_event-IsConsistent crashed t q = returned-IsConsistent s c
  task_event-IsConsistent cancelled idle q = c
  task_event-IsConsistent cancelled t q = returned-IsConsistent s c
  task_event-IsConsistent _ _ q = c

  -- Every event keeps a stream consistent.
  pub step-IsConsistent : (e : Event) → IsConsistent (step e s)
  unfolding step ensure_running
  step-IsConsistent (touched now) = Consistent-ensure_running s.task c
  step-IsConsistent (subscribed i now) = Consistent-ensure_running s.task c
  step-IsConsistent (unsubscribed i now) = c
  step-IsConsistent e = task_event-IsConsistent e s.task refl

new_stream-IsConsistent :
    (name : String) (always_on : Bool) (linger now : ℕ)
    → IsConsistent (new_stream name always_on linger now)
unfolding new_stream
new_stream-IsConsistent name always_on linger now =
    Consistent-down idle (record { sps_type = λ n p. cc p; pps_type = λ n p. cc p }) tt

run-IsConsistent : (es : List Event) (s : Stream) → IsConsistent s → IsConsistent (run es s)
unfolding run
run-IsConsistent [] s c = c
run-IsConsistent (e ∷ es) s c = run-IsConsistent es (step e s) (step-IsConsistent s c e)

-- From a new stream, whatever happens in whatever order: `_ready` is set only while a connection is
-- up and only with an SPS and a PPS cached, each of its own type, and the backoff is between its
-- bounds.
pub run-new_stream :
    (name : String) (always_on : Bool) (linger now : ℕ) (es : List Event)
    → IsConsistent (run es (new_stream name always_on linger now))
run-new_stream name always_on linger now es =
    run-IsConsistent es _ (new_stream-IsConsistent name always_on linger now)
