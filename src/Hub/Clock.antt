-- ===== src/Hub/Clock.antt =====
-- `TimestampMapper` of dvrbridge/hub.py. Its floating point is a parameter: a type of doubles with the operations that
-- the code uses.
pub mod Exact
mod Tests
use dvrbridge.Base.{
  ℕ, ◌+◌, ◌-◌, ◌%◌, ◌^◌, Bool, not, ◌&&◌, Option, none, some, List, [], ◌∷◌, if◌then◌else◌,
}

-- Doubles: those of the naturals, of tenths, and the operations; `int_of` is `int` of what is not negative.
pub record Double {ℓ} (W : Type ℓ) : Type ℓ where
  pub of : ℕ → W
  pub tenths : ℕ → W
  pub add : W → W → W
  pub sub : W → W → W
  pub mul : W → W → W
  pub le : W → W → Bool
  pub lt : W → W → Bool
  pub int_of : W → ℕ

pub record TimestampMapper {ℓ} (W : Type ℓ) : Type ℓ where
  pub last_ms : Option ℕ
  pub last_wall : Option W
  pub typical_ms : W
  pub rtp : ℕ

-- `(ts_ms - self._last_ms) & 0xFFFFFFFF`
abbrev pub elapsed : ℕ → ℕ → ℕ
elapsed last ts = (ts + (2 ^ 32 - last % 2 ^ 32)) % 2 ^ 32

module _ {ℓ} {W : Type ℓ} ⦃double : Double W⦄ where
  -- `__init__`
  unfoldable pub new_mapper : TimestampMapper W
  new_mapper = record { last_ms = none; last_wall = none; typical_ms = double.of 100; rtp = 0 }

  -- Python's `max` and `min` of two
  abbrev larger : W → W → W
  larger a b = if double.lt a b then b else a

  abbrev smaller : W → W → W
  smaller a b = if double.lt b a then b else a

  -- `delta_ms` by the wall clock
  unfoldable pub wall_delta : W → Option W → W
  wall_delta now none = double.of 0
  wall_delta now (some wall) =
      smaller (larger (double.mul (double.sub now wall) (double.of 1000)) (double.of 1))
        (double.of 5000)

  -- `delta_ms` by the device's clock, with the new `_typical_ms`
  unfoldable pub clock_delta : W → W → W × W
  clock_delta delta typical =
      if not (double.le (double.of 0) delta && double.le delta (double.of 5000))
      then (typical, typical)
      else if double.lt (double.of 0) delta
      then (
        delta,
        double.add (double.mul (double.tenths 9) typical) (double.mul (double.tenths 1) delta),
      )
      else (delta, typical)

  unfoldable pub delta_ms : W → Option ℕ → TimestampMapper W → W × W
  unfolding wall_delta clock_delta
  delta_ms now (some ts) m = elim m.last_ms [
    | none ↦ (wall_delta now m.last_wall, m.typical_ms)
    | some last ↦ clock_delta (double.of (elapsed last ts)) m.typical_ms
  ]
  delta_ms now none m = (wall_delta now m.last_wall, m.typical_ms)

  -- `map`; what it returns is the new `_rtp`
  unfoldable pub map_time : W → Option ℕ → TimestampMapper W → TimestampMapper W
  unfolding delta_ms
  map_time now ts m =
      let delta = delta_ms now ts m in
      record {
        last_ms = ts;
        last_wall = some now;
        typical_ms = delta.1;
        rtp = (m.rtp + double.int_of (double.mul delta.0 (double.of 90))) % 2 ^ 32;
      }

  -- calls of `map`, with the time of each and the device's
  unfoldable pub map_times : List (W × ℕ) → TimestampMapper W → TimestampMapper W
  unfolding map_time
  map_times [] m = m
  map_times ((now, ts) ∷ calls) m = map_times calls (map_time now (some ts) m)
