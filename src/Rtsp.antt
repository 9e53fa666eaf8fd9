-- ===== src/Rtsp.antt =====
-- dvrbridge/rtsp/server.py: the state of a `ClientConnection`, and the reading of a `Transport` header.
-- A header comes as its fields: what `int` makes of a number's text is a field's argument, `none` for
-- its `ValueError`.
pub mod Bounds
pub mod Interleaved
pub mod Text
pub mod Answer
pub mod Reading
pub mod Pump
pub mod Requests
pub mod Dispatch
use Prim.Native.String.{String}
use dvrbridge.Base.{
  ℕ, zero, suc, ◌+◌, Bool, true, false, ◌&&◌, Option, none, some, List, [], ◌∷◌, leb, if◌then◌else◌,
  ℤ, pos, negsuc,
}
use dvrbridge.Hub.Registry.{StreamHub}

-- `interleaved=a-b`, with the second number where its text is not empty, and `client_port=a-…`
pub data Field : Type 0 where
  interleaved_field : Option ℤ → Option (Option ℤ) → Field
  client_port_field : Option ℤ → Field
  other_field : Field

-- "RTP/AVP/TCP"; "RTP/AVP" or "RTP/AVP/UDP"; any other
pub data Proto : Type 0 where
  over_tcp over_udp over_other : Proto

pub record Transport : Type 0 where
  pub proto : Proto
  pub fields : List Field

-- `play_task`: none; a task that has not begun; one in `_pump`; one that is done.
pub data Play : Type 0 where
  stopped created pumping finished : Play

-- A UDP transport is its socket and the port of the client; `sockets` are those that are open.
pub record Connection : Type 0 where
  pub session_id : Option ℕ
  pub stream : Option String
  pub sub : Option ℕ
  pub interleaved : Option (ℕ × ℕ)
  pub udp : Option (ℕ × ℕ)
  pub play_task : Play
  pub sockets : List ℕ
  pub hub : StreamHub

unfoldable pub new_connection : StreamHub → Connection
new_connection hub = record {
  session_id = none;
  stream = none;
  sub = none;
  interleaved = none;
  udp = none;
  play_task = stopped;
  sockets = [];
  hub = hub;
}

unfoldable pub byte_pair : ℕ → ℕ → Option (ℕ × ℕ)
byte_pair lo hi = if leb lo 255 && leb hi 255 then some (lo, hi) else none

-- the channels of one field; `none` is the answer 400
unfoldable pub channels : Option ℤ → Option (Option ℤ) → Option (ℕ × ℕ)
unfolding byte_pair
channels (some (pos lo)) none = byte_pair lo (lo + 1)
channels (some (pos lo)) (some (some (pos hi))) = byte_pair lo hi
channels _ _ = none

-- the loop over the fields for TCP: `self.interleaved`, and whether it came to its end
unfoldable pub tcp_channels : List Field → ℕ × ℕ → (ℕ × ℕ) × Bool
unfolding channels
tcp_channels [] cur = (cur, true)
tcp_channels (interleaved_field a b ∷ fields) cur = elim (channels a b) [
  | none ↦ (cur, false)
  | some pair ↦ tcp_channels fields pair
]
tcp_channels (_ ∷ fields) cur = tcp_channels fields cur

unfoldable pub port : Option ℤ → Option ℕ
port (some (pos p)) = if leb 1 p && leb p 65534 then some p else none
port _ = none

-- the loop over the fields for UDP: `client_port`; the outer `none` is the answer 400
unfoldable pub client_port : List Field → Option ℕ → Option (Option ℕ)
unfolding port
client_port [] cur = some cur
client_port (client_port_field a ∷ fields) cur = elim (port a) [
  | none ↦ none
  | some p ↦ client_port fields (some p)
]
client_port (_ ∷ fields) cur = client_port fields cur
