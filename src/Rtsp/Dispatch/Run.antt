-- ===== src/Rtsp/Dispatch/Run.antt =====
-- A connection of dvrbridge/rtsp/server.py over its events.
use Prim.Native.String.{String}
use dvrbridge.Base.{
  ℕ, Bool, true, false, ◌&&◌, Option, none, some, List, [], ◌∷◌, Bytes, ◌≡◌, refl, sym, ap, ◌∙◌,
  arith, Bool-cases, inl, inr,
}
use dvrbridge.Hub.Registry.{StreamHub, has}
use dvrbridge.Rtsp.{
  Transport, Play, stopped, created, pumping, finished, Connection, new_connection,
}
use dvrbridge.Rtsp.Requests.{
  Moment, Request, Reply, describe_url, setup_url, ok, ok_interleaved, ok_udp, refused, crashed,
  on_describe, on_play, start_play, on_teardown, stop_play, release_transport, end_pump, is_stopped,
  is_none,
}
use dvrbridge.Rtsp.Dispatch.{
  dispatch, handle, is_denied, lower, close, Event, request, pump_begun, pump_ended, gone,
  begin_pump, settle, step, run,
}
use dvrbridge.Rtsp.Dispatch.State.{
  is_ready, Consistent, Free, new_connection-Consistent, release_transport-Free,
  release_transport-kept, Consistent-Free, on_setup-Consistent, released-Consistent,
}

-- A change of the hub, the subscriber and the pump alone.
updated-Consistent :
    (c : Connection) (hub : StreamHub) (sub : Option ℕ) (p : Play)
    → Consistent c
    → (is_stopped p ≡ false → is_ready c.stream c.interleaved c.udp ≡ true)
    → Consistent (record c { hub = hub; sub = sub; play_task = p })
updated-Consistent c hub sub p h r = record {
  sockets = h.sockets;
  channels = h.channels;
  port = h.port;
  apart = h.apart;
  ready = r;
  session = h.session;
}

-- The end of the pump, whatever the task is set to.
end_pump-Consistent :
    (now : ℕ) (c : Connection) (p : Play)
    → Consistent c
    → (is_stopped p ≡ false → is_ready c.stream c.interleaved c.udp ≡ true)
    → Consistent (record (end_pump now c) { play_task = p })
unfolding end_pump
end_pump-Consistent now c p h r = go c.sub refl c.stream refl
  where
    go :
        (i : Option ℕ)
        → c.sub ≡ i
        → (n : Option String) → c.stream ≡ n
        → Consistent (record (end_pump now c) { play_task = p })
    go none e n f = rw (e, end_pump) (updated-Consistent c c.hub c.sub p h r)
    go (some i) e none f = rw (e, f, end_pump) (updated-Consistent c c.hub c.sub p h r)
    go (some i) e (some name) f = rw (e, f, end_pump) (updated-Consistent c _ none p h r)

stop_play-Consistent :
    (now : ℕ) (c : Connection)
    → Consistent c
    → Consistent (stop_play now c) × (is_stopped (stop_play now c).play_task ≡ true)
unfolding stop_play is_stopped
stop_play-Consistent now c h = go c.play_task refl
  where
    go :
        (p : Play)
        → c.play_task ≡ p
        → Consistent (stop_play now c) × (is_stopped (stop_play now c).play_task ≡ true)
    go stopped e = rw (e, stop_play) (h, ap is_stopped e)
    go created e = rw (e, stop_play) (updated-Consistent c c.hub c.sub stopped h (λ k. cc k), refl)
    go pumping e = rw (e, stop_play) (end_pump-Consistent now c stopped h (λ k. cc k), refl)
    go finished e = rw (e, stop_play) (updated-Consistent c c.hub c.sub stopped h (λ k. cc k), refl)

-- A closed connection is stopped, with no socket open.
record Closed (c : Connection) : Type 0 where
  consistent : Consistent c
  free : Free c
  is_stopped_play : is_stopped c.play_task ≡ true

close-Closed : (now : ℕ) (c : Connection) → Consistent c → Closed (close now c)
unfolding close
close-Closed now c h =
    let (held, stops) = stop_play-Consistent now c h in
    let s = stop_play now c in
    let free = release_transport-Free s held in
    let kept = release_transport-kept s in
    record {
      consistent =
          Consistent-Free (release_transport s) free (ap is_stopped kept.0 ∙ stops)
            (λ k. ap is_none kept.2 ∙ held.session (sym (ap is_none kept.1) ∙ k));
      free = free;
      is_stopped_play = ap is_stopped kept.0 ∙ stops;
    }

some_transport :
    (name : String) (a b : Option (ℕ × ℕ))
    → (is_none a && is_none b) ≡ false
    → is_ready (some name) a b ≡ true
unfolding is_none
some_transport name none none e = cc (sym e)
some_transport name none (some b) e = refl
some_transport name (some a) b e = refl

module _ (m : Moment) (c : Connection) (h : Consistent c) where
  on_describe-Consistent : (path : String) → Consistent (on_describe m path c).1
  unfolding on_describe
  on_describe-Consistent path = elim (Bool-cases (has path c.hub)) [
    | inl e ↦ rw e (updated-Consistent c _ c.sub c.play_task h h.ready)
    | inr e ↦ rw e h
  ]

  start_play-Consistent :
      (name : String)
      → is_ready c.stream c.interleaved c.udp ≡ true
      → Consistent (start_play m name c)
  unfolding start_play
  start_play-Consistent name r = elim (Bool-cases (is_stopped c.play_task)) [
    | inl e ↦ rw e (updated-Consistent c _ (some m.new_sub) created h (λ _. r))
    | inr e ↦ rw e h
  ]

  on_play-Consistent : Consistent (on_play m c).1
  unfolding on_play
  on_play-Consistent = go c.stream refl
    where
      go : (n : Option String) → c.stream ≡ n → Consistent (on_play m c).1
      go none e = rw (e, on_play) h
      go (some name) e = elim (Bool-cases (is_none c.interleaved && is_none c.udp)) [
        | inl f ↦ rw (e, on_play, f) h
        | inr f ↦
            rw (e, on_play, f)
              (start_play-Consistent name (
                ap (λ n. is_ready n c.interleaved c.udp) e
                ∙ some_transport name c.interleaved c.udp f))
      ]

  on_teardown-Consistent : Consistent (on_teardown m c).1
  unfolding on_teardown is_none
  on_teardown-Consistent =
      let shut : Closed (release_transport (stop_play m.now c)) =
        unfold close in close-Closed m.now c h in
      Consistent-Free
        (record (release_transport (stop_play m.now c)) { stream = none; session_id = none })
        (record {
          no_sockets = shut.free.no_sockets;
          no_channels = shut.free.no_channels;
          no_udp = shut.free.no_udp;
        })
        shut.is_stopped_play (λ k. cc k)

  describe_url-Consistent : (path : Option String) → Consistent (describe_url m path c).1
  unfolding describe_url
  describe_url-Consistent none = h
  describe_url-Consistent (some path) = on_describe-Consistent path

  setup_url-Consistent :
      (path : Option String) (t : Transport) → Consistent (setup_url m path t c).1
  unfolding setup_url
  setup_url-Consistent (some path) t = on_setup-Consistent m c h path t
  setup_url-Consistent none t = elim (Bool-cases (is_stopped c.play_task)) [
    | inl e ↦ rw e (released-Consistent m c h e)
    | inr e ↦ rw e h
  ]

  handle-Consistent : (r : Request) (name : Bytes) → Consistent (handle m r name c).1
  unfolding handle
  handle-Consistent r name = ground (
    arith,
    describe_url-Consistent r.path,
    setup_url-Consistent r.path r.transport,
    on_play-Consistent,
    on_teardown-Consistent,
  )

settle-Consistent : (now : ℕ) (o : Reply × Connection) → Consistent o.1 → Consistent (settle now o)
unfolding settle
settle-Consistent now (crashed, c) h = (close-Closed now c h).consistent
settle-Consistent now (ok, c) h = h
settle-Consistent now (ok_interleaved p, c) h = h
settle-Consistent now (ok_udp p, c) h = h
settle-Consistent now (refused n, c) h = h

dispatch-Consistent :
    (auth : Option Bytes) (m : Moment) (r : Request) (c : Connection)
    → Consistent c
    → Consistent (dispatch auth m r c).1
unfolding dispatch
dispatch-Consistent auth m r c h = go (is_denied auth r) refl
  where
    go : (o : Option Bool) → is_denied auth r ≡ o → Consistent (dispatch auth m r c).1
    go none e = rw (e, dispatch) h
    go (some true) e = rw (e, dispatch) h
    go (some false) e = rw (e, dispatch) (handle-Consistent m c h r (lower r.method))

step-Consistent :
    (auth : Option Bytes) (e : Event) (c : Connection) → Consistent c → Consistent (step auth e c)
unfolding step begin_pump is_stopped
step-Consistent auth (request r m) c h =
    settle-Consistent m.now (dispatch auth m r c) (dispatch-Consistent auth m r c h)
step-Consistent auth (gone now) c h = (close-Closed now c h).consistent
step-Consistent auth pump_begun c h =
    updated-Consistent c c.hub c.sub (begin_pump c.play_task) h (λ k. h.ready (began c.play_task k))
  where
    began : (p : Play) → is_stopped (begin_pump p) ≡ false → is_stopped p ≡ false
    began stopped k = k
    began created k = refl
    began pumping k = refl
    began finished k = refl
step-Consistent auth (pump_ended now) c h = go c.play_task refl
  where
    go : (p : Play) → c.play_task ≡ p → Consistent (step auth (pump_ended now) c)
    go stopped e = rw (e, step) h
    go created e = rw (e, step) h
    go pumping e =
        rw (e, step) (end_pump-Consistent now c finished h (λ _. h.ready (ap is_stopped e)))
    go finished e = rw (e, step) h

run-kept :
    (auth : Option Bytes) (es : List Event) (c : Connection)
    → Consistent c
    → Consistent (run auth es c)
unfolding run
run-kept auth [] c h = h
run-kept auth (e ∷ es) c h = run-kept auth es (step auth e c) (step-Consistent auth e c h)

-- From a new connection, whatever is requested and whatever happens, in any order: the sockets that
-- are open are that of the transport at hand and no other; at most one transport is set up, its
-- channels are bytes, its port is one; a pump has a stream and a transport; a stream has a session.
pub run-Consistent :
    (auth : Option Bytes) (es : List Event) (hub : StreamHub)
    → Consistent (run auth es (new_connection hub))
run-Consistent auth es hub = run-kept auth es (new_connection hub) (new_connection-Consistent hub)

stopped_eq : (p : Play) → is_stopped p ≡ true → p ≡ stopped
unfolding is_stopped
stopped_eq stopped e = refl
stopped_eq created e = cc e
stopped_eq pumping e = cc e
stopped_eq finished e = cc e

-- When a connection is gone no socket of it is open and no pump is left, whatever it did before.
pub run-gone :
    (auth : Option Bytes) (es : List Event) (now : ℕ) (hub : StreamHub)
    → ((step auth (gone now) (run auth es (new_connection hub))).sockets ≡ [])
      × ((step auth (gone now) (run auth es (new_connection hub))).play_task ≡ stopped)
unfolding step
run-gone auth es now hub =
    let shut = close-Closed now (run auth es (new_connection hub)) (run-Consistent auth es hub) in
    (
      shut.free.no_sockets,
      stopped_eq (close now (run auth es (new_connection hub))).play_task shut.is_stopped_play,
    )
