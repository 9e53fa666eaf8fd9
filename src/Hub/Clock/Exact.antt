-- ===== src/Hub/Clock/Exact.antt =====
-- The times that `TimestampMapper` of dvrbridge/hub.py makes of a device's clock.
use dvrbridge.Base.{
  ℕ, ◌+◌, ◌*◌, ◌%◌, ◌^◌, ◌≤◌, ◌<◌, Bool, true, false, some, List, [], ◌∷◌, leb, if◌then◌else◌, ◌≡◌,
  refl, ◌∙◌, arith,
}
use dvrbridge.Hub.Clock.{
  Double, TimestampMapper, clock_delta, delta_ms, elapsed, map_time, map_times,
}

-- What IEEE doubles do on the naturals below 2 ^ 53: they hold them, compare them, and multiply them with no error.
pub record IsExact {ℓ} (W : Type ℓ) ⦃d : Double W⦄ : Type ℓ where
  pub le_of : (a b : ℕ) → a < 2 ^ 53 → b < 2 ^ 53 → d.le (d.of a) (d.of b) ≡ leb a b
  pub mul_of : (a b : ℕ) → a * b < 2 ^ 53 → d.mul (d.of a) (d.of b) ≡ d.of (a * b)
  pub int_of : (a : ℕ) → a < 2 ^ 53 → d.int_of (d.of a) ≡ a

-- Each call comes at most five seconds behind the one before it, by the device's clock of 32 bits.
abbrev pub IsSteady {ℓ} : {W : Type ℓ} → ℕ → List (W × ℕ) → Type 0
IsSteady last [] = Unit
IsSteady last ((now, ts) ∷ calls) = (elapsed last ts ≤ 5000) × IsSteady ts calls

-- The milliseconds that pass by that clock.
abbrev pub span {ℓ} : {W : Type ℓ} → ℕ → List (W × ℕ) → ℕ
span last [] = 0
span last ((now, ts) ∷ calls) = elapsed last ts + span ts calls

module _ {ℓ} {W : Type ℓ} ⦃d : Double W⦄ (exact : IsExact W) where
  clock_delta-of : (n : ℕ) (typical : W) → n ≤ 5000 → (clock_delta (d.of n) typical).0 ≡ d.of n
  unfolding clock_delta
  clock_delta-of n typical h =
      let zero_le : d.le (d.of 0) (d.of n) ≡ true =
        exact.le_of 0 n (omega arith) (omega arith) ∙ ground arith in
      let le_max : d.le (d.of n) (d.of 5000) ≡ true =
        exact.le_of n 5000 (omega arith) (omega arith) ∙ ground arith in
      rw (zero_le, le_max) (first_of (d.lt (d.of 0) (d.of n)) (d.of n) _ typical)
    where
      first_of : (b : Bool) (x y z : W) → (if◌then◌else◌ {A = W × W} b (x, y) (x, z)).0 ≡ x
      first_of true x y z = refl
      first_of false x y z = refl

  -- One call.
  map_time-elapsed :
      (now : W) (last ts : ℕ) (m : TimestampMapper W)
      → m.last_ms ≡ some last
      → elapsed last ts ≤ 5000
      → (map_time now (some ts) m).rtp ≡ (m.rtp + elapsed last ts * 90) % 2 ^ 32
  unfolding map_time delta_ms
  map_time-elapsed now last ts m is h =
      rw
        (
          is,
          clock_delta-of (elapsed last ts) m.typical_ms h,
          exact.mul_of (elapsed last ts) 90 (omega arith),
          exact.int_of (elapsed last ts * 90) (omega arith),
        )
        refl

  -- With doubles that are exact on the naturals below 2 ^ 53, calls that each come at most five seconds behind the one before it, by the
  -- 32-bit clock of the device, move the RTP time on by exactly 90 for each millisecond of that clock, modulo 2 ^ 32.
  pub map_times-span :
      (last : ℕ) (calls : List (W × ℕ)) (m : TimestampMapper W)
      → m.last_ms ≡ some last
      → m.rtp < 2 ^ 32
      → IsSteady last calls
      → (map_times calls m).rtp ≡ (m.rtp + span last calls * 90) % 2 ^ 32
  unfolding map_times
  map_times-span last [] m is r h = omega arith
  map_times-span last ((now, ts) ∷ calls) m is r h =
      let first = map_time-elapsed now last ts m is h.0 in
      let rest =
        map_times-span ts calls (map_time now (some ts) m) (unfold map_time in refl)
          (omega (arith, first)) h.1 in
      rest ∙ omega (arith, first)
