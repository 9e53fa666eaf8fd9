-- ===== src/Config/Streams.antt =====
-- The streams that `build_hub` of dvrbridge/config.py makes of a document.
use Prim.Native.String.{String, ◌++◌ as str_append}
use dvrbridge.Base.{
  ℕ, true, false, ◌&&◌, Option, none, some, List, [], ◌∷◌, ◌++◌, map, All, ◌≡◌, refl, sym, ap, ◌∙◌,
  subst, arith, append-nil, append_assoc, ℤ, pos,
}
use dvrbridge.Hub.{Stream, idle, new_stream}
use dvrbridge.Hub.Registry.{StreamHub, has, add}
use dvrbridge.Config.{
  DeviceTable, Document, missing, malformed, parsed, Config, Outcome, ok, default, is_some,
  are_named, load_config, get_driver, show_int, stream_name, stream_of, DriverArgs, driver_args,
  Built, add_channel, add_channels, required, add_devices, build_hub,
}

-- A channel of a device.
pub record Slot : Type 0 where
  pub device : DeviceTable
  pub channel : ℤ

abbrev pub slots_of : DeviceTable → List ℤ → List Slot
slots_of d [] = []
slots_of d (ch ∷ chs) = record { device = d; channel = ch } ∷ slots_of d chs

-- The channels of the devices, in order; channel 1 where a device names none.
abbrev pub slots : List DeviceTable → List Slot
slots [] = []
slots (d ∷ ds) = slots_of d (default (pos 1 ∷ []) d.channels) ++ slots ds

-- The stream of a channel: its name, its settings or their defaults, no frame and no subscriber yet, and no task.
abbrev pub stream : ℕ → Slot → Stream
stream now s = record {
  name = str_append (default "" s.device.name) (str_append "/ch" (show_int s.channel));
  always_on = default false s.device.always_on;
  linger = default 10000 s.device.linger;
  sps = none;
  pps = none;
  info = record { width = none; height = none };
  frames_relayed = 0;
  reconnects = 0;
  subs = [];
  ready = false;
  wake = false;
  task = idle;
  last_activity = now;
}

-- The arguments of its driver, from the keys of the device or their defaults.
abbrev pub args : Slot → DriverArgs
args s = record {
  host = default "" s.device.host;
  username = default "" s.device.username;
  password = default "" s.device.password;
  channel = s.channel;
  port = default (pos 8888) s.device.port;
  substream = default false s.device.substream;
}

-- No stream's name comes twice, nor stands in the hub.
abbrev pub AreNew : ℕ → StreamHub → List Slot → Type 0
AreNew now hub [] = Unit
AreNew now hub (s ∷ ss) =
    (has (stream now s).name hub ≡ false) × AreNew now (hub ++ stream now s ∷ []) ss

abbrev pub IsKnown : DeviceTable → Type 0
IsKnown d = get_driver d.driver ≡ some tt

-- The keys that are required.
pub record IsNamed (d : DeviceTable) : Type 0 where
  pub name : required d.name ≡ ok (default "" d.name)
  pub driver : (driver : String) × (d.driver ≡ some driver)
  pub host : required d.host ≡ ok (default "" d.host)

pub are_named-IsNamed : (ds : List DeviceTable) → are_named ds ≡ true → All IsNamed ds
unfolding are_named
are_named-IsNamed [] h = tt
are_named-IsNamed (d ∷ ds) h = go d.name d.driver d.host refl refl refl h (are_named-IsNamed ds)
  where
    go :
        (n k o : Option String)
        → d.name ≡ n
        → d.driver ≡ k
        → d.host ≡ o
        → is_some n && is_some k && is_some o && are_named ds ≡ true
        → (are_named ds ≡ true → All IsNamed ds)
        → IsNamed d × All IsNamed ds
    go none k o en ek eo h ih = absurd (cc h)
    go (some n) none o en ek eo h ih = absurd (cc h)
    go (some n) (some k) none en ek eo h ih = absurd (cc h)
    go (some n) (some k) (some o) en ek eo h ih = (
      record {
        name = ap required en ∙ ap (λ x. ok (default "" x)) (sym en);
        driver = (k, ek);
        host = ap required eo ∙ ap (λ x. ok (default "" x)) (sym eo);
      },
      ih h,
    )

pub load_config-are_named :
    (doc : Document) (cfg : Config) → load_config doc ≡ ok cfg → are_named cfg.devices ≡ true
unfolding load_config
load_config-are_named missing cfg h = absurd (cc h)
load_config-are_named malformed cfg h = absurd (cc h)
load_config-are_named (parsed server device) cfg h = ground (arith, h)

add-new : (s : Stream) (hub : StreamHub) → has s.name hub ≡ false → add s hub ≡ some (hub ++ s ∷ [])
unfolding add
add-new s hub h = rw h refl

add_channel-new :
    (now : ℕ) (s : Slot) (b : Built)
    → IsNamed s.device
    → has (stream now s).name b.0 ≡ false
    → add_channel now s.device s.channel b ≡ ok (b.0 ++ stream now s ∷ [], b.1 ++ args s ∷ [])
unfolding add_channel stream_of stream_name new_stream driver_args
add_channel-new now s b k h = rw (k.host, k.name, add-new (stream now s) b.0 h) refl

built_eq :
    (hub hub' : StreamHub) (xs xs' : List DriverArgs)
    → hub ≡ hub'
    → xs ≡ xs'
    → ◌≡◌ {A = Outcome Built} (ok (hub, xs)) (ok (hub', xs'))
built_eq hub hub' xs xs' p q = λ i. ok (p i, q i)

-- The channels of one device, in front of others.
add_channels-new :
    (now : ℕ) (d : DeviceTable) (chs : List ℤ) (more : List Slot) (b : Built)
    → IsNamed d
    → AreNew now b.0 (slots_of d chs ++ more)
    → (add_channels now d chs b
        ≡ ok (b.0 ++ map (stream now) (slots_of d chs), b.1 ++ map args (slots_of d chs)))
      × AreNew now (b.0 ++ map (stream now) (slots_of d chs)) more
unfolding add_channels
add_channels-new now d [] more b k h = (
  built_eq _ _ _ _ (sym (append-nil b.0)) (sym (append-nil b.1)),
  subst (λ hub. AreNew now hub more) (sym (append-nil b.0)) h,
)
add_channels-new now d (ch ∷ chs) more b k h =
    let slot : Slot = record { device = d; channel = ch } in
    let s : Stream = stream now slot in
    let a : DriverArgs = args slot in
    let rest = add_channels-new now d chs more (b.0 ++ s ∷ [], b.1 ++ a ∷ []) k h.1 in
    let hub = append_assoc b.0 (s ∷ []) (map (stream now) (slots_of d chs)) in
    (
      rw (add_channel-new now slot b k h.0)
          (rest.0 ∙ built_eq _ _ _ _ hub (append_assoc b.1 (a ∷ []) (map args (slots_of d chs)))),
      subst (λ t. AreNew now t more) hub rest.1,
    )

map-append {ℓ κ} :
    {A : Type ℓ} {B : Type κ} (f : A → B) (xs ys : List A) → map f (xs ++ ys) ≡ map f xs ++ map f ys
map-append f [] ys = refl
map-append f (x ∷ xs) ys = ap (λ t. f x ∷ t) (map-append f xs ys)

add_devices-new :
    (now : ℕ) (ds : List DeviceTable) (b : Built)
    → All IsNamed ds
    → All IsKnown ds
    → AreNew now b.0 (slots ds)
    → add_devices now ds b ≡ ok (b.0 ++ map (stream now) (slots ds), b.1 ++ map args (slots ds))
unfolding add_devices
add_devices-new now [] b k known h = built_eq _ _ _ _ (sym (append-nil b.0)) (sym (append-nil b.1))
add_devices-new now (d ∷ ds) b k known h =
    let mine = slots_of d (default (pos 1 ∷ []) d.channels) in
    let first = add_channels-new now d (default (pos 1 ∷ []) d.channels) (slots ds) b k.0 h in
    let rest =
      add_devices-new now ds (b.0 ++ map (stream now) mine, b.1 ++ map args mine) k.1 known.1
        first.1 in
    let (driver, is) = k.0.driver in
    let known : get_driver (some driver) ≡ some tt = ap get_driver (sym is) ∙ known.0 in
    simp (is, known, first.0)
      (rest
        ∙ built_eq _ _ _ _
            (append_assoc b.0 (map (stream now) mine) _
              ∙ ap (λ t. b.0 ++ t) (sym (map-append (stream now) mine (slots ds))))
            (append_assoc b.1 (map args mine) _
              ∙ ap (λ t. b.1 ++ t) (sym (map-append args mine (slots ds)))))

-- A document that `load_config` accepts, whose drivers are known and whose streams have names that differ, makes a
-- hub with exactly the streams of its channels, in order, each named by its device and its channel, with the device's `always_on`
-- and `linger` or their defaults, and with nothing received; and for the driver of each the host, the user name, the password,
-- the port and the `substream` of the device, or their defaults, and the channel.
pub build_hub-slots :
    (now : ℕ) (doc : Document) (cfg : Config)
    → load_config doc ≡ ok cfg
    → All IsKnown cfg.devices
    → AreNew now [] (slots cfg.devices)
    → build_hub now cfg ≡ ok (map (stream now) (slots cfg.devices), map args (slots cfg.devices))
unfolding build_hub
build_hub-slots now doc cfg loaded known new =
    add_devices-new now cfg.devices ([], [])
      (are_named-IsNamed cfg.devices (load_config-are_named doc cfg loaded)) known new
