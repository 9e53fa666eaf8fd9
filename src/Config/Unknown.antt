-- ===== src/Config/Unknown.antt =====
-- Devices whose driver is not in the registry, in `build_hub` of dvrbridge/config.py.
use Prim.Native.String.{String}
use dvrbridge.Base.{
  ℕ, Option, none, some, List, [], ◌∷◌, All, ◌≡◌, refl, sym, ap, ◌∙◌, ℤ, pos, inl, inr, ◌⊎◌,
}
use dvrbridge.Hub.Registry.{StreamHub, add}
use dvrbridge.Config.{
  DeviceTable, Outcome, ok, crashed, default, get_driver, stream_of, Built, add_channel,
  add_channels, add_devices,
}
use dvrbridge.Config.Streams.{IsNamed}

-- A device whose driver is not in the registry.
abbrev pub HasUnknown : List DeviceTable → Type 0
HasUnknown [] = ⊥
HasUnknown (d ∷ ds) = (get_driver d.driver ≡ none) ⊎ HasUnknown ds

-- A result, or an exception that is no `ConfigError`.
abbrev NoConfigError : {A : Type 0} → Outcome A → Type 0
NoConfigError {A} r = ((a : A) × (r ≡ ok a)) ⊎ (r ≡ crashed)

add_channels-NoConfigError :
    (now : ℕ) (d : DeviceTable) (chs : List ℤ) (b : Built)
    → IsNamed d
    → NoConfigError (add_channels now d chs b)
add_channels-NoConfigError now d [] b k = unfold add_channels in inl (b, refl)
add_channels-NoConfigError now d (ch ∷ chs) b k =
    go (add (stream_of now d (default "" d.name) ch) b.0) refl
      (add_channels-NoConfigError now d chs)
  where
    go :
        (o : Option StreamHub)
        → add (stream_of now d (default "" d.name) ch) b.0 ≡ o
        → ((b : Built) → IsNamed d → NoConfigError (add_channels now d chs b))
        → NoConfigError (add_channels now d (ch ∷ chs) b)
    go none e ih = unfold add_channels add_channel in rw (k.host, k.name, e) (inr refl)
    go (some hub) e ih = unfold add_channels add_channel in rw (k.host, k.name, e) (ih _ k)

pub add_devices-HasUnknown :
    (now : ℕ) (ds : List DeviceTable) (b : Built)
    → All IsNamed ds
    → HasUnknown ds
    → add_devices now ds b ≡ crashed
unfolding add_devices
add_devices-HasUnknown now [] b k u = elim u [ ]
add_devices-HasUnknown now (d ∷ ds) b k (inl u) =
    let (driver, is) = k.0.driver in
    let unknown : get_driver (some driver) ≡ none = ap get_driver (sym is) ∙ u in
    rw (is, unknown) refl
add_devices-HasUnknown now (d ∷ ds) b k (inr u) =
    go (get_driver d.driver) refl
      (add_channels-NoConfigError now d (default (pos 1 ∷ []) d.channels) b k.0)
      (λ b'. add_devices-HasUnknown now ds b' k.1 u)
  where
    driver : String
    driver = k.0.driver.0

    is : d.driver ≡ some driver
    is = k.0.driver.1

    go :
        (o : Option (Unit {0}))
        → get_driver d.driver ≡ o
        → NoConfigError (add_channels now d (default (pos 1 ∷ []) d.channels) b)
        → ((b' : Built) → add_devices now ds b' ≡ crashed)
        → add_devices now (d ∷ ds) b ≡ crashed
    go none e r ih =
        let unknown : get_driver (some driver) ≡ none = ap get_driver (sym is) ∙ e in
        rw (is, unknown) refl
    go (some t) e (inl (b', r)) ih =
        let known : get_driver (some driver) ≡ some t = ap get_driver (sym is) ∙ e in
        rw (is, known, r) (ih b')
    go (some t) e (inr r) ih =
        let known : get_driver (some driver) ≡ some t = ap get_driver (sym is) ∙ e in
        rw (is, known, r) refl
