-- ===== src/Hub/Run/Attended.antt =====
-- Whether a stream of dvrbridge/hub.py with subscribers has a task that serves them.
use dvrbridge.Base.{
  ℕ, Bool, true, false, List, [], ◌∷◌, ◌++◌, map, ◌≡◌, ◌≢◌, refl, sym, ap, ◌∙◌, arith, Bytes,
  is_nil, All, Bool-cases, inl, inr,
}
use dvrbridge.H264.{iter_nals}
use dvrbridge.Hub.{
  Subscriber, new_subscriber, Task, idle, starting, streaming, closing, waiting, StreamInfo, Stream,
  on_frame, relay,
}
use dvrbridge.Hub.Params.{cache_params-SameBut, on_frame-cases}
use dvrbridge.Hub.Run.{
  Event, touched, subscribed, unsubscribed, begun, frame, closed, driver_ended, resumed, crashed,
  cancelled, backoff_start, task_event, step, run, enter, received, disconnected, exit, returned,
  idle_expired, ensured, ensure_running, discard, next_backoff,
}

-- The task will come to deliver frames.
abbrev pub serves : Task → Bool
serves idle = false
serves starting = true
serves (streaming started backoff) = true
serves closing = false
serves (waiting backoff) = true

abbrev pub IsAttended : Stream → Type 0
IsAttended s = is_nil s.subs ≡ false → serves s.task ≡ true

-- No cancellation, no foreign exception, and no subscription while the generator is being closed.
abbrev pub IsRegular : Event → Stream → Type 0
IsRegular (subscribed i now) s = s.task ≢ closing
IsRegular crashed s = ⊥
IsRegular cancelled s = ⊥
IsRegular _ s = Unit

abbrev pub AreRegular : List Event → Stream → Type 0
AreRegular [] s = Unit
AreRegular (e ∷ es) s = IsRegular e s × AreRegular es (step e s)

idle_expired-is_nil : (now : ℕ) (s : Stream) → idle_expired now s ≡ true → is_nil s.subs ≡ true
unfolding idle_expired
idle_expired-is_nil now s h = ground arith

serves-ensured : (t : Task) → t ≢ closing → serves (ensured t) ≡ true
unfolding ensured
serves-ensured closing h = absurd (h refl)
serves-ensured idle h = refl
serves-ensured starting h = refl
serves-ensured (streaming n b) h = refl
serves-ensured (waiting b) h = refl

serves-ensured_kept : (t : Task) → serves t ≡ true → serves (ensured t) ≡ true
unfolding ensured
serves-ensured_kept closing h = h
serves-ensured_kept idle h = refl
serves-ensured_kept starting h = refl
serves-ensured_kept (streaming n b) h = refl
serves-ensured_kept (waiting b) h = refl

discard-is_nil :
    (i : ℕ) (subs : List Subscriber) → is_nil (discard i subs) ≡ false → is_nil subs ≡ false
unfolding discard
discard-is_nil i [] h = h
discard-is_nil i (sub ∷ subs) h = refl

map-is_nil :
    (f : Subscriber → Subscriber) (subs : List Subscriber) → is_nil (map f subs) ≡ is_nil subs
map-is_nil f [] = refl
map-is_nil f (sub ∷ subs) = refl

exit-IsAttended : (s : Stream) → IsAttended (exit s)
unfolding exit ensure_running ensured
exit-IsAttended s = ground arith

enter-IsAttended : (now b : ℕ) (s : Stream) → IsAttended (enter now b s)
unfolding enter
enter-IsAttended now b s = elim (Bool-cases (idle_expired now s)) [
  | inl e ↦ rw e (exit-IsAttended s)
  | inr e ↦ rw e (λ _. refl)
]

disconnected-IsAttended :
    (now started b : ℕ) (s : Stream) → IsAttended (disconnected now started b s)
unfolding disconnected returned
disconnected-IsAttended now started b s = elim (Bool-cases (idle_expired now s)) [
  | inl e ↦ rw e (λ h. cc (sym (idle_expired-is_nil now s e) ∙ h))
  | inr e ↦ rw e (λ _. refl)
]

-- What a frame leaves alone.
on_frame-kept :
    (payload : Bytes) (ts : ℕ) (key : Bool) (s : Stream)
    → ((on_frame payload ts key s).task ≡ s.task)
      × (is_nil (on_frame payload ts key s).subs ≡ is_nil s.subs)
on_frame-kept payload ts key s = elim (on_frame-cases payload ts key s) [
  | inl e ↦ rw e (refl, refl)
  | inr e ↦
      let same = cache_params-SameBut (iter_nals payload) s in
      rw e (unfold relay in (same.task, map-is_nil _ _ ∙ ap is_nil same.subs))
]

received-IsAttended :
    (now : ℕ) (info : StreamInfo) (payload : Bytes) (ts : ℕ) (key : Bool) (s : Stream)
    → serves s.task ≡ true
    → IsAttended (received now info payload ts key s)
unfolding received
received-IsAttended now info payload ts key s live =
    let kept = on_frame-kept payload ts key (record s { info = info }) in
    elim (Bool-cases (idle_expired now (on_frame payload ts key (record s { info = info })))) [
      | inl e ↦ rw e (λ h. cc (
          sym (idle_expired-is_nil now (on_frame payload ts key (record s { info = info })) e) ∙ h))
      | inr e ↦ rw e (λ _. ap serves kept.0 ∙ live)
    ]

module _ (s : Stream) (a : IsAttended s) where
  task_event-IsAttended :
      (e : Event) (t : Task) → s.task ≡ t → IsRegular e s → IsAttended (task_event e t s)
  unfolding task_event
  task_event-IsAttended (begun now) starting q r = enter-IsAttended now backoff_start s
  task_event-IsAttended (frame now info payload ts key) (streaming started b) q r =
      received-IsAttended now info payload ts key s (ap serves q)
  task_event-IsAttended closed closing q r = λ h. unfold returned in cc (sym (a h) ∙ ap serves q)
  task_event-IsAttended (driver_ended now) (streaming started b) q r =
      disconnected-IsAttended now started b s
  task_event-IsAttended (resumed now) (waiting b) q r = enter-IsAttended now (next_backoff b) s
  task_event-IsAttended crashed idle q r = absurd r
  task_event-IsAttended crashed t q r = absurd r
  task_event-IsAttended cancelled idle q r = absurd r
  task_event-IsAttended cancelled t q r = absurd r
  task_event-IsAttended _ _ q r = a

  step-IsAttended : (e : Event) → IsRegular e s → IsAttended (step e s)
  unfolding step ensure_running
  step-IsAttended (touched now) r = λ h. serves-ensured_kept s.task (a h)
  step-IsAttended (subscribed i now) r = λ h. serves-ensured s.task r
  step-IsAttended (unsubscribed i now) r = λ h. a (discard-is_nil i s.subs h)
  step-IsAttended e r = task_event-IsAttended e s.task refl r

-- Through events with no cancellation, no uncaught exception and no subscription while the generator is
-- being closed, a stream that has subscribers has a task that starts, streams or waits to reconnect,
-- if it was so before.
pub run-IsAttended :
    (es : List Event) (s : Stream) → AreRegular es s → IsAttended s → IsAttended (run es s)
unfolding run
run-IsAttended [] s r a = a
run-IsAttended (e ∷ es) s r a = run-IsAttended es (step e s) r.1 (step-IsAttended s a e r.0)

-- The events of the task itself.
abbrev pub IsOwn : Event → Type 0
IsOwn (touched now) = ⊥
IsOwn (subscribed i now) = ⊥
IsOwn (unsubscribed i now) = ⊥
IsOwn _ = Unit

task_event-idle : (e : Event) (s : Stream) → task_event e idle s ≡ s
unfolding task_event
task_event-idle crashed s = refl
task_event-idle _ s = refl

step-idle : (e : Event) (s : Stream) → IsOwn e → s.task ≡ idle → step e s ≡ s
unfolding step
step-idle (touched now) s o q = absurd o
step-idle (subscribed i now) s o q = absurd o
step-idle (unsubscribed i now) s o q = absurd o
step-idle e s o q = ap (λ t. task_event e t s) q ∙ task_event-idle e s

run-idle : (es : List Event) (s : Stream) → All IsOwn es → s.task ≡ idle → run es s ≡ s
unfolding run
run-idle [] s o q = refl
run-idle (e ∷ es) s o q = ap (run es) (step-idle e s o.0 q) ∙ run-idle es s o.1 q

concat-is_nil : (subs : List Subscriber) (sub : Subscriber) → is_nil (subs ++ sub ∷ []) ≡ false
concat-is_nil [] sub = refl
concat-is_nil (x ∷ subs) sub = refl

closing_step :
    (i now : ℕ) (s : Stream)
    → s.task ≡ closing
    → (step closed (step (subscribed i now) s)).task ≡ idle
unfolding step ensured returned
closing_step i now s q = rw (q, task_event)

closing_subs :
    (i now : ℕ) (s : Stream)
    → s.task ≡ closing
    → is_nil (step closed (step (subscribed i now) s)).subs ≡ false
unfolding step ensured returned
closing_subs i now s q = rw (q, task_event) (concat-is_nil s.subs (new_subscriber i))

-- A subscriber that joins while the generator of an idle stream is being closed is left with no
-- task, and none comes by anything that the stream does by itself.
pub run-subscribed_closed :
    (i now : ℕ) (s : Stream) (es : List Event)
    → s.task ≡ closing
    → All IsOwn es
    → ((run (subscribed i now ∷ closed ∷ es) s).task ≡ idle)
      × (is_nil (run (subscribed i now ∷ closed ∷ es) s).subs ≡ false)
unfolding run
run-subscribed_closed i now s es q o =
    let stays = run-idle es (step closed (step (subscribed i now) s)) o (closing_step i now s q) in
    (
      ap (λ t. t.task) stays ∙ closing_step i now s q,
      ap (λ t. is_nil t.subs) stays ∙ closing_subs i now s q,
    )
