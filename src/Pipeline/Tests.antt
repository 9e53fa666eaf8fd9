-- ===== src/Pipeline/Tests.antt =====
-- The path of a stream through dvrbridge, at a concrete input.
use dvrbridge.Base.{true, false, [], ◌∷◌, refl, arith, find, starts_with}
use dvrbridge.Hub.{Stream, new_stream, new_subscriber}
use dvrbridge.Rtp.{new}
use dvrbridge.Rtp.Units.{IsReady-new}
use dvrbridge.Pipeline.{AccessUnit, IsUnit}
use dvrbridge.Pipeline.View.{Viewed, relay_all-Viewed}

-- A keyframe with its parameter sets, and a slice.
abbrev key_unit : AccessUnit
key_unit = record {
  nals = (0x67 ∷ 66 ∷ []) ∷ (0x68 ∷ 1 ∷ []) ∷ (0x65 ∷ 2 ∷ []) ∷ [];
  ts90k = 0;
  keyframe = true;
}

abbrev next_unit : AccessUnit
next_unit = record { nals = (0x41 ∷ 3 ∷ []) ∷ []; ts90k = 3600; keyframe = false }

key_unit-IsUnit : IsUnit key_unit
unfolding find starts_with
key_unit-IsUnit = record {
  some_nals = λ e. absurd (cc e);
  clean = (
    record { no_start = refl; ends = omega arith },
    (
      record { no_start = refl; ends = omega arith },
      (record { no_start = refl; ends = omega arith }, tt),
    ),
  );
  plain = omega arith;
}

next_unit-IsUnit : IsUnit next_unit
unfolding find starts_with
next_unit-IsUnit = record {
  some_nals = λ e. absurd (cc e);
  clean = (record { no_start = refl; ends = omega arith }, tt);
  plain = omega arith;
}

-- A keyframe with no parameter sets of its own.
abbrev idr_unit : AccessUnit
idr_unit = record { nals = (0x65 ∷ 4 ∷ []) ∷ []; ts90k = 7200; keyframe = true }

idr_unit-IsUnit : IsUnit idr_unit
unfolding find starts_with
idr_unit-IsUnit = record {
  some_nals = λ e. absurd (cc e);
  clean = (record { no_start = refl; ends = omega arith }, tt);
  plain = omega arith;
}

-- A stream with one viewer.
abbrev camera : Stream
camera = record (new_stream "dvr/ch1" false 10000 0) { subs = new_subscriber 1 ∷ [] }

relay_all-Viewed_example : Viewed (key_unit ∷ next_unit ∷ idr_unit ∷ []) camera 0 (new 7 96 1400) []
unfolding new_stream new
relay_all-Viewed_example =
    relay_all-Viewed (key_unit ∷ next_unit ∷ idr_unit ∷ []) camera 1 0 (new 7 96 1400) []
      (key_unit-IsUnit, (next_unit-IsUnit, (idr_unit-IsUnit, tt))) refl (omega arith) (tt, tt) refl
      (omega arith) (IsReady-new 7 96 1400 (omega arith) (omega arith)) (omega arith)
