-- ===== src/Config/Tests.antt =====
-- Documents read by the model of dvrbridge/config.py, and its theorem at a concrete one.
use dvrbridge.Base.{none, some, [], ◌∷◌, map, ◌≡◌, refl, pos, negsuc}
use dvrbridge.Hub.{new_stream}
use dvrbridge.Hub.Registry.{has, add}
use dvrbridge.Config.{
  ServerTable, DeviceTable, Document, parsed, Config, ok, config_error, server_config, is_set,
  are_named, load_config, get_driver, show_from, show_int, stream_name, stream_of, build_hub,
  crashed,
}
use dvrbridge.Config.Streams.{slots, stream, args, build_hub-slots}

-- A device with channels 1 and 12.
abbrev dvr : DeviceTable
dvr = record {
  name = some "dvr";
  driver = some "netdvr3";
  host = some "192.168.1.108";
  port = none;
  username = some "admin";
  password = some "x";
  channels = some (pos 1 ∷ pos 12 ∷ []);
  always_on = none;
  linger = none;
  substream = none;
}

abbrev server : ServerTable
server = record { listen = none; port = none; username = none; password = none }

abbrev document : Document
document = parsed none (some (dvr ∷ []))

abbrev config : Config
config = record { server = server_config server; devices = dvr ∷ [] }

loads : load_config document ≡ ok config
unfolding load_config server_config is_set are_named
loads = refl

half_credentials :
    load_config (parsed (some (record server { username = some "viewer" })) (some (dvr ∷ [])))
    ≡ config_error
unfolding load_config server_config is_set are_named
half_credentials = refl

no_devices : load_config (parsed none (some [])) ≡ config_error
unfolding load_config server_config is_set
no_devices = refl

names : stream_name "dvr" (pos 12) ≡ "dvr/ch12"
unfolding stream_name show_int show_from
names = refl

below_zero : show_int (negsuc 104) ≡ "-105"
unfolding show_int show_from
below_zero = refl

-- Two devices of one name raise.
same_name : build_hub 0 (record config { devices = dvr ∷ dvr ∷ [] }) ≡ crashed
unfolding build_hub add stream_of stream_name show_int show_from has new_stream get_driver
same_name = refl

build_hub-slots_example :
    build_hub 7 config ≡ ok (map (stream 7) (slots config.devices), map args (slots config.devices))
unfolding stream_of stream_name show_int show_from has new_stream get_driver
build_hub-slots_example = build_hub-slots 7 document config loads (refl, tt) (refl, (refl, tt))
