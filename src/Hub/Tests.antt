-- ===== src/Hub/Tests.antt =====
-- Runs of the hub of dvrbridge/hub.py, and its theorems at concrete inputs.
use dvrbridge.Base.{
  ℕ, ◌*◌, ◌^◌, min, true, false, some, List, [], ◌∷◌, ◌++◌, map, length, ◌≡◌, ◌≢◌, refl, arith,
  Bytes, is_nil, subst, inr,
}
use mathlib.Core.Option.{some-injective}
use dvrbridge.H264.{iter_nals, nal_sps, nal_pps, nal_type}
use dvrbridge.Hub.{
  HubFrame, new_subscriber, idle, streaming, closing, StreamInfo, Stream, new_stream, offer,
  on_frame, truthy, has_type,
}
use dvrbridge.Hub.Delivery.{
  Traffic, offered, taken, deliver_all, outcomes, IsDecodable, outcomes-IsDecodable, accepted,
  taken_frames, taken_frames-accepted,
}
use dvrbridge.Hub.Params.{AreParams, Complete, on_frame-Complete}
use dvrbridge.Hub.Run.{
  Event, touched, subscribed, unsubscribed, begun, frame, closed, backoff_cap, run,
}
use dvrbridge.Hub.Run.Invariant.{IsConsistent, run-new_stream}
use dvrbridge.Hub.Run.Attended.{IsAttended, AreRegular, run-IsAttended, run-subscribed_closed}
use dvrbridge.Hub.Run.Backoff.{failures, last_start, run-failures}
use dvrbridge.Hub.Run.Restart.{run-stale_params}

abbrev key_frame : HubFrame
key_frame = record { nals = (0x65 ∷ 1 ∷ []) ∷ []; ts90k = 90; keyframe = true }

abbrev slice_frame : HubFrame
slice_frame = record { nals = (0x41 ∷ 1 ∷ []) ∷ []; ts90k = 180; keyframe = false }

abbrev traffic : List Traffic
traffic = offered slice_frame ∷ offered key_frame ∷ offered slice_frame ∷ taken ∷ []

traffic_frames : taken_frames traffic (new_subscriber 1) ≡ key_frame ∷ []
unfolding taken_frames
traffic_frames = refl

outcomes-IsDecodable_example :
    IsDecodable (new_subscriber 1).waiting_key (outcomes traffic (new_subscriber 1))
outcomes-IsDecodable_example = outcomes-IsDecodable traffic (new_subscriber 1)

taken_frames-accepted_example :
    taken_frames traffic (new_subscriber 1) ++ (deliver_all traffic (new_subscriber 1)).queue
    ≡ (new_subscriber 1).queue ++ accepted (outcomes traffic (new_subscriber 1))
taken_frames-accepted_example = taken_frames-accepted traffic (new_subscriber 1)

abbrev camera : Stream
camera = new_stream "cam" false 10000 0

abbrev sps : Bytes
sps = 0x67 ∷ 0x42 ∷ []

abbrev pps : Bytes
pps = 0x68 ∷ 0xCE ∷ []

-- A camera with one viewer and cached parameter sets.
abbrev watched : Stream
watched = record camera {
  sps = some sps;
  pps = some pps;
  subs = new_subscriber 1 ∷ [];
  task = streaming 0 1000;
}

-- The access unit of an IDR slice alone.
abbrev idr : Bytes
idr = 0 ∷ 0 ∷ 0 ∷ 1 ∷ 0x65 ∷ 0x88 ∷ []

watched-AreParams : AreParams watched.sps watched.pps
unfolding has_type nal_type
watched-AreParams = record {
  sps_type = λ n p. subst (λ t. has_type nal_sps t ≡ true) (some-injective sps n p) refl;
  pps_type = λ n p. subst (λ t. has_type nal_pps t ≡ true) (some-injective pps n p) refl;
}

idr_nals : iter_nals idr ≢ []
unfolding iter_nals
idr_nals = λ e. cc e

on_frame-Complete_example :
    (item : HubFrame) × ((on_frame idr 90 true watched).subs ≡ map (offer item) watched.subs)
    × (item.keyframe ≡ true)
    × (item.ts90k ≡ 90)
    × Complete (iter_nals idr) item.nals
on_frame-Complete_example =
    on_frame-Complete idr 90 watched watched-AreParams (unfold truthy in refl)
      (unfold truthy in refl) idr_nals

abbrev size : StreamInfo
size = record { width = some 352; height = some 288 }

-- A viewer comes, the camera sends a whole frame, the viewer goes, and the camera is idle.
abbrev visit : List Event
visit =
    subscribed 1 0
    ∷ begun 1
    ∷ frame 2 size ((0 ∷ 0 ∷ 1 ∷ sps) ++ (0 ∷ 0 ∷ 1 ∷ pps) ++ idr) 90 true
    ∷ unsubscribed 1 3
    ∷ frame 20000 size idr 180 true
    ∷ []

visit_task : (run visit camera).task ≡ closing
unfolding run new_stream iter_nals has_type nal_type
visit_task = refl

run-new_stream_example : IsConsistent (run visit (new_stream "cam" false 10000 0))
run-new_stream_example = run-new_stream "cam" false 10000 0 visit

visit-AreRegular : AreRegular visit camera
unfolding run new_stream
visit-AreRegular = (λ e. cc e, (tt, (tt, (tt, (tt, tt)))))

run-IsAttended_example : IsAttended (run visit camera)
run-IsAttended_example =
    run-IsAttended visit camera visit-AreRegular (unfold new_stream in λ e. cc e)

-- The idle camera, while its connection is being closed.
abbrev leaving : Stream
leaving = record watched { subs = []; task = closing }

run-subscribed_closed_example :
    ((run (subscribed 2 20001 ∷ closed ∷ begun 20002 ∷ []) leaving).task ≡ idle)
    × (is_nil (run (subscribed 2 20001 ∷ closed ∷ begun 20002 ∷ []) leaving).subs ≡ false)
run-subscribed_closed_example =
    run-subscribed_closed 2 20001 leaving (begun 20002 ∷ []) refl (tt, tt)

-- Three failures, each soon.
abbrev outage : List (ℕ × ℕ)
outage = (100, 1100) ∷ (1200, 3200) ∷ (3300, 7300) ∷ []

run-failures_example :
    (run (failures outage) watched).task
    ≡ streaming (last_start 0 outage) (min (1000 * 2 ^ length outage) backoff_cap)
run-failures_example =
    run-failures outage watched 0 1000 refl (omega arith) (inr refl) (omega arith)

run-stale_params_example :
    ((run (closed ∷ touched 20001 ∷ begun 20001 ∷ frame 20002 size idr 90 true ∷ []) leaving).ready
      ≡ true)
    × ((run (closed ∷ touched 20001 ∷ begun 20001 ∷ frame 20002 size idr 90 true ∷ []) leaving).sps
        ≡ leaving.sps)
    × ((run (closed ∷ touched 20001 ∷ begun 20001 ∷ frame 20002 size idr 90 true ∷ []) leaving).pps
        ≡ leaving.pps)
run-stale_params_example =
    run-stale_params 20001 20002 size idr 90 true leaving refl (unfold truthy in refl)
      (unfold truthy in refl) idr_nals (unfold iter_nals has_type nal_type in ((refl, refl), tt))
