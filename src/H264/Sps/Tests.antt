-- ===== src/H264/Sps/Tests.antt =====
-- Runs of the parser of sequence parameter sets of dvrbridge/h264.py, and its theorems at a concrete input.
use mathlib.Core.List.{flatten, map}
use dvrbridge.Base.{
  true, false, some, [], ◌∷◌, ◌≡◌, refl, arith, codes, pos, negsuc, difference, negated,
}
use dvrbridge.H264.Sps.{strip_emulation_prevention, bit, bits_from, bits, leading_zeros, ue}
use dvrbridge.H264.Sps.Parse.{
  is_high, hex, profile_level_id, parse_sps, signed, sps_fields, ◌>>=◌, pure, bits_of, order_fields,
  skip_se, cropping, dimensions,
}
use dvrbridge.H264.Sps.Encoder.{code_0, code_1, code_2}
use dvrbridge.H264.Sps.Parts.{by_cycle}
use dvrbridge.H264.Sps.RoundTrip.{encoded, parse_sps-encoded}
use dvrbridge.H264.Sps.Layout.{Sps, IsSps, shown}

-- A picture of 120 by 68 macroblocks, of a high profile in 4:2:0, with 4 units cut off at the bottom.
abbrev full_hd : Sps
full_hd = record {
  profile = 100;
  constraints = 0;
  level = 40;
  id = code_0;
  high = record {
    chroma = code_1;
    separate = false;
    luma = code_0;
    depth = code_0;
    bypass = false;
  };
  frame_num = code_0;
  order = by_cycle false code_1 code_2 code_1 (code_2 ∷ []);
  refs = code_2;
  gaps = false;
  mbs = record { zs = 6; tail = 56 };
  units = record { zs = 6; tail = 4 };
  frames = true;
  adaptive = false;
  direct = true;
  crop = some (record {
    left = code_0;
    right = code_0;
    top = code_0;
    bottom = record { zs = 2; tail = 1 };
  });
}

is_full_hd :
    shown full_hd
    ≡ record { profile_idc = 100; level_idc = 40; width = pos 1920; height = pos 1080 }
unfolding difference is_high
is_full_hd = refl

full_hd-IsSps : IsSps full_hd
full_hd-IsSps = record {
  profile = omega arith;
  constraints = omega arith;
  level = omega arith;
  id = record { short = omega arith; fits = omega arith };
  high = record {
    chroma = record { short = omega arith; fits = omega arith };
    luma = record { short = omega arith; fits = omega arith };
    depth = record { short = omega arith; fits = omega arith };
  };
  frame_num = record { short = omega arith; fits = omega arith };
  order = omega arith;
  refs = record { short = omega arith; fits = omega arith };
  mbs = record { short = omega arith; fits = omega arith };
  units = record { short = omega arith; fits = omega arith };
  crop = omega arith;
}

parse_sps-encoded_example : parse_sps (encoded 0x67 full_hd (1 ∷ []) 14) ≡ some (shown full_hd)
unfolding is_high flatten
parse_sps-encoded_example =
    parse_sps-encoded full_hd 0x67 (1 ∷ []) 14 full_hd-IsSps (omega arith) (omega arith)

signed_codes :
    map signed (0 ∷ 1 ∷ 2 ∷ 3 ∷ 4 ∷ []) ≡ pos 0 ∷ pos 1 ∷ negsuc 0 ∷ pos 2 ∷ negsuc 1 ∷ []
unfolding signed negated
signed_codes = refl

level_id : profile_level_id (0x67 ∷ 0x42 ∷ 0xE0 ∷ 0x1E ∷ 0x99 ∷ []) ≡ codes "42e01e"
unfolding profile_level_id hex
level_id = refl

-- The parameter set of a board: 352 by 288.
cif :
    parse_sps (0x67 ∷ 0x42 ∷ 0x00 ∷ 0x14 ∷ 0x95 ∷ 0xA8 ∷ 0x58 ∷ 0x25 ∷ 0x90 ∷ [])
    ≡ some (record { profile_idc = 66; level_idc = 20; width = pos 352; height = pos 288 })
unfolding parse_sps sps_fields strip_emulation_prevention bit bits_from bits leading_zeros ue ◌>>=◌
    pure bits_of order_fields skip_se cropping dimensions difference is_high
cif = refl
