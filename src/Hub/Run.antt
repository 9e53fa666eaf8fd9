-- ===== src/Hub/Run.antt =====
-- The supervision of a driver in dvrbridge/hub.py: `Stream._run`, cut at the points where it waits,
-- and the methods that other tasks call. What closing a driver's generator waits for is not
-- modelled: the time of an event is the time after that.
pub mod Invariant
pub mod Backoff
pub mod Attended
pub mod Restart
use dvrbridge.Base.{
  ℕ, zero, suc, ◌+◌, ◌-◌, ◌*◌, min, Bool, true, false, not, ◌&&◌, Option, none, some, List, [], ◌∷◌,
  ◌++◌, ltb, leb, ◌==◌, if◌then◌else◌, Bytes, length, is_nil,
}
use dvrbridge.Hub.{
  Subscriber, new_subscriber, Task, idle, starting, streaming, closing, waiting, StreamInfo, Stream,
  on_frame,
}

abbrev pub backoff_start : ℕ
backoff_start = 1000

abbrev pub backoff_cap : ℕ
backoff_cap = 15000

abbrev pub stable_reset : ℕ
stable_reset = 30000

-- `_ensure_running`
unfoldable pub ensured : Task → Task
ensured idle = starting
ensured t = t

unfoldable pub ensure_running : Stream → Stream
unfolding ensured
ensure_running s = record s { task = ensured s.task }

-- `touch`
unfoldable pub touch : ℕ → Stream → Stream
unfolding ensure_running
touch now s = ensure_running (record s { last_activity = now })

-- `subscribe`, with the number of the new subscriber
unfoldable pub subscribe : ℕ → ℕ → Stream → Stream
unfolding touch
subscribe i now s = touch now (record s { subs = s.subs ++ new_subscriber i ∷ []; wake = true })

-- `self._subs.discard(sub)`
unfoldable pub discard : ℕ → List Subscriber → List Subscriber
discard i [] = []
discard i (sub ∷ subs) = if sub.id == i then subs else sub ∷ discard i subs

-- `unsubscribe`
unfoldable pub unsubscribe : ℕ → ℕ → Stream → Stream
unfolding discard
unsubscribe i now s = record s { subs = discard i s.subs; last_activity = now }

-- `_idle_expired`
unfoldable pub idle_expired : ℕ → Stream → Bool
idle_expired now s = not s.always_on && is_nil s.subs && ltb s.linger (now - s.last_activity)

-- a `return` in the loop: the `finally` runs, the code behind it does not
unfoldable pub returned : Stream → Stream
returned s = record s { ready = false; task = idle }

-- the end of the loop by its test: the `finally`, and the code behind it
unfoldable pub exit : Stream → Stream
unfolding ensure_running
exit s =
    let ended = record s { ready = false; task = idle } in
    if is_nil s.subs then ended else ensure_running ended

-- the test of the outer loop, and the start of a connection
unfoldable pub enter : ℕ → ℕ → Stream → Stream
unfolding idle_expired exit
enter now backoff s =
    if idle_expired now s then exit s else record s { task = streaming now backoff }

-- the driver's generator is closed: what follows the `try` up to the wait
unfoldable pub disconnected : ℕ → ℕ → ℕ → Stream → Stream
unfolding idle_expired returned
disconnected now started backoff s =
    let backoff' = if ltb stable_reset (now - started) then backoff_start else backoff in
    if idle_expired now s then returned s else record s {
      reconnects = s.reconnects + 1;
      ready = false;
      sps = none;
      pps = none;
      wake = false;
      task = waiting backoff';
    }

-- the delay behind a wait
unfoldable pub next_backoff : ℕ → ℕ
next_backoff backoff = min (backoff * 2) backoff_cap

-- a frame in the `async for`; the idle test behind it leads to the `return`
unfoldable pub received : ℕ → StreamInfo → Bytes → ℕ → Bool → Stream → Stream
unfolding on_frame idle_expired
received now info payload ts90k keyframe s =
    let s' = on_frame payload ts90k keyframe (record s { info = info }) in
    if idle_expired now s' then record s' { task = closing } else s'

-- `cancelled` is the cancellation of `stop`, `crashed` an exception that `_run` does not catch.
pub data Event : Type 0 where
  touched : ℕ → Event
  subscribed : ℕ → ℕ → Event
  unsubscribed : ℕ → ℕ → Event
  begun : ℕ → Event
  frame : ℕ → StreamInfo → Bytes → ℕ → Bool → Event
  closed : Event
  driver_ended : ℕ → Event
  resumed : ℕ → Event
  crashed : Event
  cancelled : Event

-- What the task does, by where it stands; an event that cannot occur there changes nothing.
unfoldable pub task_event : Event → Task → Stream → Stream
unfolding enter received disconnected exit returned idle_expired next_backoff
task_event (begun now) starting s = enter now backoff_start s
task_event (frame now info payload ts90k keyframe) (streaming started backoff) s =
    received now info payload ts90k keyframe s
task_event closed closing s = returned s
task_event (driver_ended now) (streaming started backoff) s = disconnected now started backoff s
task_event (resumed now) (waiting backoff) s = enter now (next_backoff backoff) s
task_event crashed idle s = s
task_event crashed _ s = returned s
task_event cancelled idle s = s
task_event cancelled _ s = returned s
task_event _ _ s = s

unfoldable pub step : Event → Stream → Stream
unfolding task_event touch subscribe unsubscribe
step (touched now) s = touch now s
step (subscribed i now) s = subscribe i now s
step (unsubscribed i now) s = unsubscribe i now s
step e s = task_event e s.task s

unfoldable pub run : List Event → Stream → Stream
unfolding step
run [] s = s
run (e ∷ es) s = run es (step e s)
