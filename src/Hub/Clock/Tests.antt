-- ===== src/Hub/Clock/Tests.antt =====
-- The clock of dvrbridge/hub.py on whole milliseconds, and its theorem at a concrete input.
use dvrbridge.Base.{
  ℕ, ◌+◌, ◌-◌, ◌*◌, ◌/◌, ◌%◌, ◌^◌, some, none, List, [], ◌∷◌, leb, ltb, ◌≡◌, refl, arith,
}
use dvrbridge.Hub.Clock.{
  Double, TimestampMapper, new_mapper, wall_delta, delta_ms, map_time, map_times,
}
use dvrbridge.Hub.Clock.Exact.{IsExact, span, map_times-span}

-- Whole numbers.
instance abbrev whole_double : Double ℕ
whole_double = record {
  of = λ n. n;
  tenths = λ n. n / 10;
  add = λ a b. a + b;
  sub = λ a b. a - b;
  mul = λ a b. a * b;
  le = leb;
  lt = ltb;
  int_of = λ n. n;
}

whole-IsExact : IsExact ℕ
whole-IsExact = record { le_of = λ a b h k. refl; mul_of = λ a b h. refl; int_of = λ a h. refl }

-- A mapper that has seen a frame shortly before the clock of the device wraps.
abbrev seen : TimestampMapper ℕ
seen = record { last_ms = some 4294967290; last_wall = some 0; typical_ms = 100; rtp = 4294967000 }

-- A frame 40 ms later, another slice of it, and a frame 45 ms later.
abbrev calls : List (ℕ × ℕ)
calls = (40, 34) ∷ (41, 34) ∷ (85, 79) ∷ []

milliseconds : span 4294967290 calls ≡ 85
milliseconds = refl

map_times-span_example :
    (map_times calls seen).rtp ≡ (4294967000 + span 4294967290 calls * 90) % 2 ^ 32
map_times-span_example =
    map_times-span whole-IsExact 4294967290 calls seen refl (omega arith) (omega arith)

-- The first frame does not move the time; a frame with no time behind it moves it by the wall clock, at most five seconds.
first_frame : (map_time {W = ℕ} 7 (some 1000) new_mapper).rtp ≡ 0
unfolding map_time delta_ms wall_delta new_mapper
first_frame = refl

by_the_wall : (map_time {W = ℕ} 90 none (map_time {W = ℕ} 7 (some 1000) new_mapper)).rtp ≡ 5000 * 90
unfolding map_time delta_ms wall_delta new_mapper
by_the_wall = refl
