-- ===== src/Config.antt =====
-- dvrbridge/config.py and the driver registry of dvrbridge/drivers/__init__.py, on a document that the TOML parser has read, with
-- the types that the example of config.py shows.
pub mod Streams
pub mod Unknown
mod Tests
use Prim.Native.String.{String, slice, ◌++◌ as str_append}
use text.Mathlib.Text.{◌==◌ as str_eq}
use dvrbridge.Base.{
  ℕ, zero, suc, ◌+◌, ◌/◌, ◌%◌, Bool, true, false, not, ◌&&◌, ◌||◌, Option, none, some, List, [],
  ◌∷◌, ◌++◌, ltb, if◌then◌else◌, is_nil, ℤ, pos, negsuc,
}
use dvrbridge.Hub.{Stream, new_stream}
use dvrbridge.Hub.Registry.{StreamHub, add}

-- The tables of a document; what is left out is `none`. Times are milliseconds.
pub record ServerTable : Type 0 where
  pub listen : Option String
  pub port : Option ℤ
  pub username : Option String
  pub password : Option String

pub record DeviceTable : Type 0 where
  pub name : Option String
  pub driver : Option String
  pub host : Option String
  pub port : Option ℤ
  pub username : Option String
  pub password : Option String
  pub channels : Option (List ℤ)
  pub always_on : Option Bool
  pub linger : Option ℕ
  pub substream : Option Bool

-- What `tomllib.load` makes of a path: no file, no TOML, or a document.
pub data Document : Type 0 where
  missing malformed : Document
  parsed : Option ServerTable → Option (List DeviceTable) → Document

pub record ServerConfig : Type 0 where
  pub listen : String
  pub port : ℤ
  pub username : Option String
  pub password : Option String

pub record Config : Type 0 where
  pub server : ServerConfig
  pub devices : List DeviceTable

-- A result, a `ConfigError`, or another exception.
pub data Outcome (A : Type 0) : Type 0 where
  ok : A → Outcome A
  config_error crashed : Outcome A

infixl 5 ◌>>=◌
abbrev pub ◌>>=◌ : {A B : Type 0} → Outcome A → (A → Outcome B) → Outcome B
ok a >>= f = f a
config_error >>= f = config_error
crashed >>= f = crashed

-- `get` with a default
abbrev pub default : {A : Type 0} → A → Option A → A
default d none = d
default d (some a) = a

-- `bool` of a text or nothing
unfoldable pub is_set : Option String → Bool
is_set none = false
is_set (some s) = not (str_eq s "")

abbrev pub is_some : {A : Type 0} → Option A → Bool
is_some none = false
is_some (some a) = true

-- the loop over the required keys
unfoldable pub are_named : List DeviceTable → Bool
are_named [] = true
are_named (d ∷ ds) = is_some d.name && is_some d.driver && is_some d.host && are_named ds

-- the `ServerConfig` of a table
unfoldable pub server_config : ServerTable → ServerConfig
server_config t = record {
  listen = default "0.0.0.0" t.listen;
  port = default (pos 8554) t.port;
  username = t.username;
  password = t.password;
}

abbrev no_table : ServerTable
no_table = record { listen = none; port = none; username = none; password = none }

abbrev differ : Bool → Bool → Bool
differ true b = not b
differ false b = b

-- `load_config`
unfoldable pub load_config : Document → Outcome Config
unfolding server_config is_set are_named
load_config missing = config_error
load_config malformed = config_error
load_config (parsed server device) =
    let srv = server_config (default no_table server) in
    let devices = default [] device in
    if differ (is_set srv.username) (is_set srv.password)
    then config_error
    else if is_nil devices
    then config_error
    else if are_named devices
    then ok (record { server = srv; devices = devices })
    else config_error

-- The registry: the one driver.
abbrev pub netdvr3 : String
netdvr3 = "netdvr3"

-- `get_driver`, as far as it fails: `none` is the `KeyError`
unfoldable pub get_driver : Option String → Option (Unit {0})
get_driver none = none
get_driver (some name) = if str_eq name netdvr3 then some tt else none

-- Decimal digits, by the digits that may still come.
unfoldable pub show_from : ℕ → ℕ → String
show_from zero n = ""
show_from (suc k) n = elim (ltb n 10) [
  | true ↦ slice "0123456789" n (n + 1)
  | false ↦ str_append (show_from k (n / 10)) (slice "0123456789" (n % 10) (n % 10 + 1))
]

-- An integer as an f-string shows it.
unfoldable pub show_int : ℤ → String
unfolding show_from
show_int (pos n) = show_from (n + 1) n
show_int (negsuc n) = str_append "-" (show_from (n + 2) (n + 1))

-- `f"{dev['name']}/ch{ch}"`
unfoldable pub stream_name : String → ℤ → String
unfolding show_int
stream_name name ch = str_append name (str_append "/ch" (show_int ch))

-- the arguments of the driver that a stream's factory makes
pub record DriverArgs : Type 0 where
  pub host : String
  pub username : String
  pub password : String
  pub channel : ℤ
  pub port : ℤ
  pub substream : Bool

unfoldable pub driver_args : DeviceTable → String → ℤ → DriverArgs
driver_args d host ch = record {
  host = host;
  username = default "" d.username;
  password = default "" d.password;
  channel = ch;
  port = default (pos 8888) d.port;
  substream = default false d.substream;
}

unfoldable pub stream_of : ℕ → DeviceTable → String → ℤ → Stream
unfolding stream_name
stream_of now d name ch =
    new_stream (stream_name name ch) (default false d.always_on) (default 10000 d.linger) now

-- The hub with the arguments behind the factory of each stream, in the same order.
abbrev pub Built : Type 0
Built = StreamHub × List DriverArgs

-- `dev[key]`; `crashed` is the `KeyError`
abbrev pub required : {A : Type 0} → Option A → Outcome A
required none = crashed
required (some a) = ok a

-- the body of the loop over the channels; a name that is taken raises
unfoldable pub add_channel : ℕ → DeviceTable → ℤ → Built → Outcome Built
unfolding stream_of driver_args
add_channel now d ch b = do
  host ← required d.host
  name ← required d.name
  hub ← required (add (stream_of now d name ch) b.0)
  ok (hub, b.1 ++ driver_args d host ch ∷ [])

unfoldable pub add_channels : ℕ → DeviceTable → List ℤ → Built → Outcome Built
unfolding add_channel
add_channels now d [] b = ok b
add_channels now d (ch ∷ chs) b = do b' ← add_channel now d ch b; add_channels now d chs b'

-- the loop over the devices
unfoldable pub add_devices : ℕ → List DeviceTable → Built → Outcome Built
unfolding add_channels get_driver
add_devices now [] b = ok b
add_devices now (d ∷ ds) b = do
  driver ← required d.driver
  cls ← required (get_driver (some driver))
  b' ← add_channels now d (default (pos 1 ∷ []) d.channels) b
  add_devices now ds b'

-- `build_hub`
unfoldable pub build_hub : ℕ → Config → Outcome Built
unfolding add_devices
build_hub now cfg = add_devices now cfg.devices ([], [])
