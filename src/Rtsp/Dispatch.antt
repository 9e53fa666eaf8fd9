-- ===== src/Rtsp/Dispatch.antt =====
-- `ClientConnection._dispatch` of dvrbridge/rtsp/server.py, and what happens to a connection.
pub mod State
pub mod Run
pub mod Auth
pub mod Leak
pub mod Setup
mod Tests
use Prim.Native.String.{String}
use text.Mathlib.Text.{◌==◌ as str_eq}
use dvrbridge.Base.{
  ℕ, zero, suc, ◌+◌, ◌==◌, Bool, true, false, not, ◌&&◌, ◌||◌, Option, none, some, List, [], ◌∷◌,
  codes, text_eq, map, ltb, leb, if◌then◌else◌, Bytes, drop, starts_with, is_nil,
}
use dvrbridge.Hub.{Stream}
use dvrbridge.Hub.Registry.{StreamHub, has}
use dvrbridge.Hub.Run.{touch, subscribe, unsubscribe}
use dvrbridge.Rtsp.{
  Field, Proto, over_tcp, over_udp, over_other, Transport, Play, stopped, created, pumping,
  finished, Connection, tcp_channels, client_port,
}
use dvrbridge.Rtsp.Requests.{
  Moment, Request, Reply, ok, refused, crashed, describe_url, setup_url, on_play, on_teardown,
  stop_play, release_transport, end_pump,
}

abbrev pub options_name : Bytes
options_name = codes "options"

abbrev pub describe_name : Bytes
describe_name = codes "describe"

abbrev pub setup_name : Bytes
setup_name = codes "setup"

abbrev pub play_name : Bytes
play_name = codes "play"

abbrev pub pause_name : Bytes
pause_name = codes "pause"

abbrev pub get_parameter_name : Bytes
get_parameter_name = codes "get_parameter"

abbrev pub set_parameter_name : Bytes
set_parameter_name = codes "set_parameter"

abbrev pub teardown_name : Bytes
teardown_name = codes "teardown"

abbrev pub describe_method : Bytes
describe_method = codes "DESCRIBE"

abbrev pub setup_method : Bytes
setup_method = codes "SETUP"

abbrev pub play_method : Bytes
play_method = codes "PLAY"

abbrev pub basic : Bytes
basic = codes "Basic "

-- `str.lower` on Latin-1
unfoldable pub lower_code : ℕ → ℕ
lower_code b =
    if (leb 65 b && leb b 90) || ((leb 192 b && leb b 222) && not (b == 215)) then b + 32 else b

unfoldable pub lower : Bytes → Bytes
unfolding lower_code
lower = map lower_code

-- `method in ("DESCRIBE", "SETUP", "PLAY")`
unfoldable pub is_guarded : Bytes → Bool
unfolding text_eq
is_guarded m = text_eq m describe_method || text_eq m setup_method || text_eq m play_method

-- The text is ASCII.
unfoldable pub is_ascii : Bytes → Bool
is_ascii [] = true
is_ascii (c ∷ s) = ltb c 128 && is_ascii s

-- `_check_auth`, against the expected text, which is ASCII; `True` where it does not raise, and none where
-- `compare_digest` raises TypeError
unfoldable pub check_auth : Bytes → Bytes → Option Bool
unfolding text_eq is_ascii
check_auth expect got =
    if starts_with basic got
    then if is_ascii (drop 6 got) then some (text_eq (drop 6 got) expect) else none
    else some false

-- `getattr(self, f"_on_{method.lower()}", None)`, and its call
unfoldable pub handle : Moment → Request → Bytes → Connection → Reply × Connection
unfolding text_eq describe_url setup_url on_play on_teardown
handle m r name c =
    if text_eq name options_name
    then (ok, c)
    else if text_eq name describe_name
    then describe_url m r.path c
    else if text_eq name setup_name
    then setup_url m r.path r.transport c
    else if text_eq name play_name
    then on_play m c
    else if text_eq name pause_name
        || text_eq name get_parameter_name
        || text_eq name set_parameter_name
    then (ok, c)
    else if text_eq name teardown_name
    then on_teardown m c
    else (refused 501, c)

-- `self.server.auth and method in (…)`, with `_check_auth`
unfoldable pub is_denied : Option Bytes → Request → Option Bool
unfolding is_guarded check_auth
is_denied none r = some false
is_denied (some expect) r =
    if is_guarded r.method
    then elim (check_auth expect r.authorization) [ none ↦ none | some b ↦ some (not b) ]
    else some false

-- `_dispatch`, on a request line of three parts
unfoldable pub dispatch : Option Bytes → Moment → Request → Connection → Reply × Connection
unfolding is_denied lower handle
dispatch auth m r c = elim (is_denied auth r) [
  | none ↦ (crashed, c)
  | some denied ↦ if denied then (refused 401, c) else handle m r (lower r.method) c
]

-- `close`, what it does to the state
unfoldable pub close : ℕ → Connection → Connection
unfolding stop_play release_transport
close now c = release_transport (stop_play now c)

-- What happens to a connection: a request, the first step of the pump, its end by an exception, and
-- the end of the connection.
pub data Event : Type 0 where
  request : Request → Moment → Event
  pump_begun : Event
  pump_ended : ℕ → Event
  gone : ℕ → Event

unfoldable pub begin_pump : Play → Play
begin_pump created = pumping
begin_pump p = p

-- `run` closes a connection whose request crashed
unfoldable pub settle : ℕ → Reply × Connection → Connection
unfolding close
settle now (crashed, c) = close now c
settle now (_, c) = c

unfoldable pub step : Option Bytes → Event → Connection → Connection
unfolding settle dispatch begin_pump end_pump close
step auth (request r m) c = settle m.now (dispatch auth m r c)
step auth pump_begun c = record c { play_task = begin_pump c.play_task }
step auth (pump_ended now) c = elim c.play_task [
  | stopped ↦ c
  | created ↦ c
  | pumping ↦ record (end_pump now c) { play_task = finished }
  | finished ↦ c
]
step auth (gone now) c = close now c

unfoldable pub run : Option Bytes → List Event → Connection → Connection
unfolding step
run auth [] c = c
run auth (e ∷ es) c = run auth es (step auth e c)
