-- ===== src/Cli/Start.antt =====
-- How `serve` of dvrbridge/cli.py begins, by its document.
use Prim.Native.String.{String}
use dvrbridge.Base.{ℕ, Option, none, some, List, [], if◌then◌else◌, ◌≡◌, refl, ap, ◌∙◌, arith}
use dvrbridge.Config.{
  ServerTable, DeviceTable, Document, parsed, Config, Outcome, ok, config_error, crashed, default,
  is_set, server_config, load_config, Built, build_hub,
}
use dvrbridge.Config.Streams.{are_named-IsNamed, load_config-are_named}
use dvrbridge.Config.Unknown.{HasUnknown, add_devices-HasUnknown}
use dvrbridge.Cli.{runs, raises, credentials, start_serve}

start_serve-built :
    (now : ℕ) (doc : Document) (cfg : Config)
    → load_config doc ≡ ok cfg
    → build_hub now cfg ≡ crashed
    → start_serve now doc ≡ raises
unfolding start_serve
start_serve-built now doc cfg e f = rw (e, start_serve) (rw f refl)

-- With a document that `load_config` accepts but that names a driver which is not in the registry, `serve` does not return the
-- code 2 of a configuration error: it raises.
pub start_serve-HasUnknown :
    (now : ℕ) (doc : Document) (cfg : Config)
    → load_config doc ≡ ok cfg
    → HasUnknown cfg.devices
    → start_serve now doc ≡ raises
start_serve-HasUnknown now doc cfg e u = start_serve-built now doc cfg e (
    unfold build_hub in
    add_devices-HasUnknown now cfg.devices ([], [])
      (are_named-IsNamed cfg.devices (load_config-are_named doc cfg e)) u)

-- The server of a table that was accepted: both credentials, or none.
load_config-credentials :
    (t : ServerTable) (devices : Option (List DeviceTable)) (cfg : Config)
    → load_config (parsed (some t) devices) ≡ ok cfg
    → (cfg.server ≡ server_config t) × (is_set t.username ≡ is_set t.password)
unfolding load_config server_config
load_config-credentials t devices cfg h = ground (arith, h)

loaded-runs :
    (now : ℕ) (doc : Document) (auth : Option (String × String)) (b : Built)
    → start_serve now doc ≡ runs auth b
    → (cfg : Config) × (load_config doc ≡ ok cfg) × (auth ≡ credentials cfg.server)
unfolding start_serve
loaded-runs now doc auth b h = go (load_config doc) refl
  where
    built :
        (cfg : Config) (r : Outcome Built)
        → load_config doc ≡ ok cfg
        → build_hub now cfg ≡ r
        → (cfg : Config) × (load_config doc ≡ ok cfg) × (auth ≡ credentials cfg.server)
    built cfg (ok b') e f = (cfg, e, ground (arith, h, e, f))
    built cfg config_error e f = ground (arith, h, e, f)
    built cfg crashed e f = ground (arith, h, e, f)

    go :
        (r : Outcome Config)
        → load_config doc ≡ r
        → (cfg : Config) × (load_config doc ≡ ok cfg) × (auth ≡ credentials cfg.server)
    go (ok cfg) e = built cfg (build_hub now cfg) e refl
    go config_error e = ground (arith, h, e)
    go crashed e = ground (arith, h, e)

-- A server that runs from a document with a `[server]` table asks for credentials exactly where the table sets a
-- user name, and exactly where it sets a password, and then for these two.
pub start_serve-credentials :
    (now : ℕ) (t : ServerTable) (devices : Option (List DeviceTable))
    (auth : Option (String × String)) (b : Built)
    → start_serve now (parsed (some t) devices) ≡ runs auth b
    → (auth
        ≡ (if is_set t.username then some (default "" t.username, default "" t.password) else none))
      × (is_set t.username ≡ is_set t.password)
unfolding credentials server_config
start_serve-credentials now t devices auth b h =
    let (cfg, loaded, asks) = loaded-runs now (parsed (some t) devices) auth b h in
    let table = load_config-credentials t devices cfg loaded in
    (asks ∙ ap credentials table.0, table.1)
