-- ===== src/Rtsp/Requests.antt =====
-- The handlers of `ClientConnection` in dvrbridge/rtsp/server.py. The `path` is what `_stream_for`
-- makes of the URL, and in a `Request` none where `urlparse` raises ValueError; a text is its Latin-1 codes.
use Prim.Native.String.{String}
use text.Mathlib.Text.{◌==◌ as str_eq}
use dvrbridge.Base.{
  ℕ, ◌==◌, Bool, true, false, not, ◌&&◌, Option, none, some, List, [], ◌∷◌, map, if◌then◌else◌,
  Bytes,
}
use dvrbridge.Hub.{Stream}
use dvrbridge.Hub.Registry.{StreamHub, has}
use dvrbridge.Hub.Run.{touch, subscribe, unsubscribe}
use dvrbridge.Rtsp.{
  over_tcp, over_udp, over_other, Transport, Play, stopped, created, pumping, finished, Connection,
  tcp_channels, client_port,
}

-- what the server's surroundings give to a request: the time, a fresh token, the socket that is
-- bound or its `OSError`, whether the parameter sets are there in time, the new subscriber
pub record Moment : Type 0 where
  pub now : ℕ
  pub token : ℕ
  pub socket : Option ℕ
  pub ready : Bool
  pub new_sub : ℕ

pub record Request : Type 0 where
  pub method : Bytes
  pub path : Option String
  pub authorization : Bytes
  pub transport : Transport

-- `crashed` is an exception that `_dispatch` does not catch.
pub data Reply : Type 0 where
  ok : Reply
  ok_interleaved : ℕ × ℕ → Reply
  ok_udp : ℕ → Reply
  refused : ℕ → Reply
  crashed : Reply

-- a method of the stream object that a name stands for
unfoldable pub on_stream : String → (Stream → Stream) → StreamHub → StreamHub
on_stream name f = map (λ s. if str_eq s.name name then f s else s)

abbrev pub close_socket : ℕ → List ℕ → List ℕ
close_socket i [] = []
close_socket i (j ∷ js) = if j == i then js else j ∷ close_socket i js

-- `_release_transport`
unfoldable pub release_transport : Connection → Connection
release_transport c = elim c.udp [
  | none ↦ record c { interleaved = none }
  | some (i, p) ↦ record c { sockets = close_socket i c.sockets; udp = none; interleaved = none }
]

-- the `finally` of `_pump`
unfoldable pub end_pump : ℕ → Connection → Connection
unfolding on_stream
end_pump now c = elim c.sub [
  | none ↦ c
  | some i ↦ elim c.stream [
    | none ↦ c
    | some name ↦ record c { hub = on_stream name (unsubscribe i now) c.hub; sub = none }
  ]
]

-- `_stop_play`; a task that is cancelled before it has begun never runs its `finally`
unfoldable pub stop_play : ℕ → Connection → Connection
unfolding end_pump
stop_play now c = elim c.play_task [
  | stopped ↦ c
  | created ↦ record c { play_task = stopped }
  | pumping ↦ record (end_pump now c) { play_task = stopped }
  | finished ↦ record c { play_task = stopped }
]

-- `_on_describe`
unfoldable pub on_describe : Moment → String → Connection → Reply × Connection
unfolding on_stream
on_describe m path c =
    if has path c.hub
    then (
      if m.ready then ok else refused 504,
      record c { hub = on_stream path (touch m.now) c.hub },
    )
    else (refused 404, c)

-- `_on_setup` for TCP, behind the choice of the stream
unfoldable pub setup_tcp : Transport → Connection → Reply × Connection
setup_tcp t c =
    let (pair, done) = tcp_channels t.fields (0, 1) in
    (if done then ok_interleaved pair else refused 400, record c { interleaved = some pair })

unfoldable pub setup_udp : Moment → Transport → Connection → Reply × Connection
setup_udp m t c = elim (client_port t.fields none) [
  | none ↦ (refused 400, c)
  | some none ↦ (refused 461, c)
  | some (some p) ↦ elim m.socket [
    | none ↦ (crashed, c)
    | some i ↦ (ok_udp p, record c { sockets = i ∷ c.sockets; udp = some (i, p) })
  ]
]

-- `self.session_id or secrets.token_hex(8)`
abbrev pub session_or : Option ℕ → ℕ → ℕ
session_or none token = token
session_or (some t) token = t

unfoldable pub setup_transport : Moment → Transport → Connection → Reply × Connection
unfolding setup_tcp setup_udp
setup_transport m t c = elim t.proto [
  | over_tcp ↦ setup_tcp t c
  | over_udp ↦ setup_udp m t c
  | over_other ↦ (refused 461, c)
]

unfoldable pub is_stopped : Play → Bool
is_stopped stopped = true
is_stopped _ = false

-- `_on_setup`
unfoldable pub on_setup : Moment → String → Transport → Connection → Reply × Connection
unfolding setup_transport release_transport is_stopped
on_setup m path t c =
    let free = release_transport c in
    if not (is_stopped c.play_task)
    then (refused 455, c)
    else if has path c.hub
    then setup_transport m t
        (record free { stream = some path; session_id = some (session_or c.session_id m.token) })
    else (refused 404, free)

-- `_on_describe` and `_on_setup` on a URL that may have no path: then `_stream_for` raises
unfoldable pub describe_url : Moment → Option String → Connection → Reply × Connection
unfolding on_describe
describe_url m none c = (crashed, c)
describe_url m (some path) c = on_describe m path c

unfoldable pub setup_url : Moment → Option String → Transport → Connection → Reply × Connection
unfolding on_setup
setup_url m none t c =
    if is_stopped c.play_task then (crashed, release_transport c) else (refused 455, c)
setup_url m (some path) t c = on_setup m path t c

unfoldable pub is_none {ℓ} : {A : Type ℓ} → Option A → Bool
is_none none = true
is_none (some a) = false

-- the start of the pump, where none was started
unfoldable pub start_play : Moment → String → Connection → Connection
unfolding on_stream is_stopped
start_play m name c =
    if is_stopped c.play_task
    then record c {
      sub = some m.new_sub;
      hub = on_stream name (subscribe m.new_sub m.now) c.hub;
      play_task = created;
    }
    else c

-- `_on_play`
unfoldable pub on_play : Moment → Connection → Reply × Connection
unfolding start_play is_none
on_play m c = elim c.stream [
  | none ↦ (refused 455, c)
  | some name ↦
      if is_none c.interleaved && is_none c.udp then (refused 455, c) else (ok, start_play m name c)
]

-- `_on_teardown`
unfoldable pub on_teardown : Moment → Connection → Reply × Connection
unfolding stop_play release_transport
on_teardown m c =
    (ok, record (release_transport (stop_play m.now c)) { stream = none; session_id = none })
