-- ===== src/Rtsp/Dispatch/Setup.antt =====
-- A refused SETUP of dvrbridge/rtsp/server.py, and the PLAY behind it.
use Prim.Native.String.{String}
use dvrbridge.Base.{true, false, ◌≡◌, refl}
use dvrbridge.Hub.Registry.{has}
use dvrbridge.Rtsp.{Transport, over_tcp, Connection, tcp_channels}
use dvrbridge.Rtsp.Requests.{
  Moment, ok, refused, on_play, on_setup, setup_tcp, setup_transport, is_stopped, is_none,
}

-- A SETUP for TCP whose channels are refused with 400 sets up a transport all the same: a PLAY that
-- follows is answered with 200.
pub on_setup-on_play :
    (m later : Moment) (path : String) (t : Transport) (c : Connection)
    → is_stopped c.play_task ≡ true
    → has path c.hub ≡ true
    → t.proto ≡ over_tcp
    → (tcp_channels t.fields (0, 1)).1 ≡ false
    → ((on_setup m path t c).0 ≡ refused 400) × ((on_play later (on_setup m path t c).1).0 ≡ ok)
unfolding on_setup setup_transport setup_tcp on_play is_none
on_setup-on_play m later path t c s p e bad = rw (s, p, e, bad) (refl, refl)
