-- ===== src/Cli.antt =====
-- dvrbridge/cli.py: what `serve` does before it waits, and the loop of `probe`.
pub mod Start
pub mod Probe
mod Tests
use Prim.Native.String.{String}
use dvrbridge.Base.{
  ℕ, zero, suc, ◌+◌, Bool, true, false, not, ◌&&◌, Option, none, some, List, [], ◌∷◌, ◌++◌, ltb,
  leb, ◌==◌, if◌then◌else◌, is_nil,
}
use dvrbridge.Config.{
  Document, ServerConfig, Config, Outcome, ok, config_error, crashed, ◌>>=◌, default, is_set,
  load_config, Built, build_hub,
}

-- How `_serve` begins: it returns a code, runs a server with these credentials and this hub, or raises.
pub data Started : Type 0 where
  exits : ℕ → Started
  runs : Option (String × String) → Built → Started
  raises : Started

-- `auth`
unfoldable pub credentials : ServerConfig → Option (String × String)
credentials s =
    if is_set s.username then some (default "" s.username, default "" s.password) else none

-- `_serve`, up to the start of the server
unfoldable pub start_serve : ℕ → Document → Started
unfolding credentials
start_serve now doc = elim (load_config doc) [
  | config_error ↦ exits 2
  | crashed ↦ raises
  | ok cfg ↦ elim (build_hub now cfg) [
    | config_error ↦ exits 2
    | crashed ↦ raises
    | ok b ↦ runs (credentials cfg.server) b
  ]
]

-- `limit`, behind a device that advertises its channels
unfoldable pub lower_limit : Option ℕ → ℕ → ℕ
lower_limit none limit = limit
lower_limit (some nch) limit = if not (nch == 0) && ltb nch limit then nch else limit

-- the loop of `_probe`, by the rounds that may still come; `answers` is what `_probe_channel` returns of a channel: none, or
-- with what the device advertises
unfoldable pub probe_loop : ℕ → (ℕ → Option (Option ℕ)) → ℕ → ℕ → List ℕ → List ℕ
unfolding lower_limit
probe_loop zero answers ch limit found = found
probe_loop (suc k) answers ch limit found = elim (leb ch limit) [
  | false ↦ found
  | true ↦ elim (answers ch) [
    | none ↦ probe_loop k answers (ch + 1) limit found
    | some nch ↦ probe_loop k answers (ch + 1) (lower_limit nch limit) (found ++ ch ∷ [])
  ]
]

-- `_probe`: its code, and the channels that it prints
unfoldable pub probe : (ℕ → Option (Option ℕ)) → ℕ → ℕ × List ℕ
unfolding probe_loop
probe answers max_channels =
    let found = probe_loop max_channels answers 1 max_channels [] in
    (if is_nil found then 1 else 0, found)
