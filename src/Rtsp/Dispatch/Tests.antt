-- ===== src/Rtsp/Dispatch/Tests.antt =====
-- Runs of a connection of dvrbridge/rtsp/server.py, and its theorems at concrete inputs.
use dvrbridge.Base.{true, false, none, some, List, [], ◌∷◌, ◌≡◌, refl}
use dvrbridge.Hub.{new_stream}
use dvrbridge.Hub.Run.{subscribe}
use dvrbridge.Hub.Registry.{StreamHub, has}
use dvrbridge.Rtsp.{
  pos, interleaved_field, client_port_field, over_tcp, over_udp, Transport, stopped, Connection,
  new_connection, tcp_channels, client_port,
}
use dvrbridge.Rtsp.Requests.{
  Moment, Request, ok, refused, on_setup, on_play, on_teardown, on_stream, is_stopped, is_none,
}
use dvrbridge.Rtsp.Dispatch.{
  dispatch, lower, Event, request, pump_begun, gone, step, run, setup_method, play_method,
}
use dvrbridge.Rtsp.Dispatch.State.{Consistent}
use dvrbridge.Rtsp.Dispatch.Run.{run-Consistent, run-gone}
use dvrbridge.Rtsp.Dispatch.Auth.{dispatch-lower}
use dvrbridge.Rtsp.Dispatch.Leak.{on_teardown-created}
use dvrbridge.Rtsp.Dispatch.Setup.{on_setup-on_play}

abbrev cameras : StreamHub
cameras = new_stream "cam" false 10000 0 ∷ []

abbrev moment : Moment
moment = record { now = 5; token = 77; socket = some 9; ready = true; new_sub = 1 }

abbrev by_udp : Transport
by_udp = record { proto = over_udp; fields = client_port_field (some (pos 5004)) ∷ [] }

abbrev bad_channels : Transport
bad_channels = record { proto = over_tcp; fields = interleaved_field (some (pos 300)) none ∷ [] }

abbrev setup_request : Request
setup_request = record {
  method = setup_method;
  path = some "cam";
  authorization = [];
  transport = by_udp;
}

abbrev play_request : Request
play_request = record setup_request { method = play_method }

-- Two SETUPs, each with a socket, and a PLAY.
abbrev visit : List Event
visit =
    request setup_request (record moment { socket = some 8 })
    ∷ request setup_request moment
    ∷ request play_request moment
    ∷ pump_begun
    ∷ []

visit_sockets : (run none visit (new_connection cameras)).sockets ≡ 9 ∷ []
unfolding run new_connection has new_stream client_port
visit_sockets = refl

run-Consistent_example : Consistent (run none visit (new_connection cameras))
run-Consistent_example = run-Consistent none visit cameras

run-gone_example :
    ((step none (gone 9) (run none visit (new_connection cameras))).sockets ≡ [])
    × ((step none (gone 9) (run none visit (new_connection cameras))).play_task ≡ stopped)
run-gone_example = run-gone none visit 9 cameras

dispatch-lower_example :
    dispatch
      (some (1 ∷ []))
      moment
      (record setup_request { method = lower setup_request.method })
      (new_connection cameras)
    ≡ dispatch none moment setup_request (new_connection cameras)
dispatch-lower_example = dispatch-lower (1 ∷ []) moment setup_request (new_connection cameras)

-- A connection that is set up.
abbrev set_up : Connection
set_up = record {
  session_id = some 77;
  stream = some "cam";
  sub = none;
  interleaved = some (0, 1);
  udp = none;
  play_task = stopped;
  sockets = [];
  hub = cameras;
}

on_teardown-created_example :
    (on_teardown moment (on_play moment set_up).1).1.hub ≡ on_stream "cam" (subscribe 1 5) cameras
on_teardown-created_example =
    on_teardown-created moment moment "cam" set_up refl (unfold is_none in refl) refl

cameras-has : has "cam" cameras ≡ true
unfolding has new_stream
cameras-has = refl

on_setup-on_play_example :
    ((on_setup moment "cam" bad_channels (record set_up { interleaved = none })).0 ≡ refused 400)
    × ((on_play moment
          (on_setup moment "cam" bad_channels (record set_up { interleaved = none })).1).0
        ≡ ok)
on_setup-on_play_example =
    on_setup-on_play moment moment "cam" bad_channels (record set_up { interleaved = none })
      (unfold is_stopped in refl) cameras-has refl (unfold tcp_channels in refl)
