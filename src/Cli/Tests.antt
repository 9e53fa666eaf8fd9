-- ===== src/Cli/Tests.antt =====
-- Runs of the model of dvrbridge/cli.py, and its theorems at concrete inputs.
use Prim.Native.String.{String}
use dvrbridge.Base.{
  ℕ, none, some, Option, [], ◌∷◌, ◌≡◌, refl, arith, min, leb, if◌then◌else◌, inl, pos,
}
use dvrbridge.Hub.{new_stream}
use dvrbridge.Hub.Registry.{has, add}
use dvrbridge.Config.{
  ServerTable, DeviceTable, Document, parsed, default, server_config, is_set, are_named,
  load_config, get_driver, Built, build_hub, stream_of, stream_name, show_int, show_from,
  driver_args,
}
use dvrbridge.Cli.{start_serve, runs, raises, credentials, probe_loop, probe}
use dvrbridge.Cli.Start.{start_serve-HasUnknown, start_serve-credentials}
use dvrbridge.Cli.Probe.{Advertises, answering, probe-answering}

-- A device of 4 channels, of which the third has no camera.
abbrev board : ℕ → Option (Option ℕ)
board ch = if leb 3 ch then (if leb ch 3 then none else some (some 4)) else some (some 4)

board-Advertises : Advertises 4 board
board-Advertises ch nch e = ground arith

probe-answering_example : probe board 8 ≡ (0, answering board 1 (min 4 8))
probe-answering_example =
    probe-answering board 4 8 board-Advertises refl (omega arith) (omega arith)

channels_of_board : answering board 1 4 ≡ 1 ∷ 2 ∷ 4 ∷ []
channels_of_board = refl

no_channels : probe (λ ch. none) 8 ≡ (1, [])
unfolding probe probe_loop
no_channels = refl

-- A device with a driver that is not there.
abbrev other : DeviceTable
other = record {
  name = some "cam";
  driver = some "hikvision";
  host = some "10.0.0.2";
  port = none;
  username = none;
  password = none;
  channels = none;
  always_on = none;
  linger = none;
  substream = none;
}

abbrev viewers : ServerTable
viewers = record { listen = none; port = none; username = some "viewer"; password = some "secret" }

start_serve-HasUnknown_example : start_serve 0 (parsed (some viewers) (some (other ∷ []))) ≡ raises
unfolding load_config is_set are_named get_driver
start_serve-HasUnknown_example =
    start_serve-HasUnknown 0 (parsed (some viewers) (some (other ∷ [])))
      (record { server = server_config viewers; devices = other ∷ [] }) refl (inl refl)

abbrev known : DeviceTable
known = record other { driver = some "netdvr3" }

abbrev document : Document
document = parsed (some viewers) (some (known ∷ []))

-- The hub of its one channel.
abbrev hub : Built
hub = (stream_of 0 known "cam" (pos 1) ∷ [], driver_args known "10.0.0.2" (pos 1) ∷ [])

abbrev asked : Option (String × String)
asked = some ("viewer", "secret")

runs_hub : start_serve 0 document ≡ runs asked hub
unfolding start_serve credentials load_config server_config is_set are_named build_hub add has
    new_stream stream_of stream_name show_int show_from driver_args get_driver
runs_hub = refl

start_serve-credentials_example :
    (asked ≡ (
      if is_set viewers.username
      then some (default "" viewers.username, default "" viewers.password)
      else none))
    × (is_set viewers.username ≡ is_set viewers.password)
start_serve-credentials_example =
    start_serve-credentials 0 viewers (some (known ∷ [])) asked hub runs_hub
