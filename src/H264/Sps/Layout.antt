-- ===== src/H264/Sps/Layout.antt =====
-- A sequence parameter set as an encoder lays it out, and what a decoder shows.
use mathlib.Core.List.{flatten}
use dvrbridge.Base.{
  ℕ, zero, suc, ◌+◌, ◌*◌, ◌<◌, Bool, Option, List, [], ◌∷◌, ◌++◌, ◌==◌, if◌then◌else◌, All,
  All-append, difference,
}
use dvrbridge.H264.Sps.Golomb.{digits}
use dvrbridge.H264.Sps.Packed.{IsBit, digits-IsBit}
use dvrbridge.H264.Sps.Parse.{is_high, SpsInfo}
use dvrbridge.H264.Sps.Encoder.{Code, number, code, IsCode, flag}
use dvrbridge.H264.Sps.Parts.{
  High, IsHigh, high_segments, flatten-IsBit, code-IsBit, flag-IsBit, IsBit-if, high_segments-IsBit,
  order_segments-IsBit, crop_segments-IsBit, Order, IsOrder, poc_code, order_segments, Crop, IsCrop,
  crop_segments, is_cropped, cut,
}

-- A sequence parameter set; `high` counts where the profile is a high one.
pub record Sps : Type 0 where
  pub profile : ℕ
  pub constraints : ℕ
  pub level : ℕ
  pub id : Code
  pub high : High
  pub frame_num : Code
  pub order : Order
  pub refs : Code
  pub gaps : Bool
  pub mbs : Code
  pub units : Code
  pub frames : Bool
  pub adaptive : Bool
  pub direct : Bool
  pub crop : Option Crop

pub record IsSps (s : Sps) : Type 0 where
  pub profile : s.profile < 256
  pub constraints : s.constraints < 256
  pub level : s.level < 256
  pub id : IsCode s.id
  pub high : IsHigh s.high
  pub frame_num : IsCode s.frame_num
  pub order : IsOrder s.order
  pub refs : IsCode s.refs
  pub mbs : IsCode s.mbs
  pub units : IsCode s.units
  pub crop : IsCrop s.crop

-- The fields in front of the size.
abbrev pub front : Sps → List (List ℕ)
front s =
    digits 8 s.profile
    ∷ digits 8 s.constraints
    ∷ digits 8 s.level
    ∷ code s.id
    ∷ (if is_high s.profile then flatten (high_segments s.high) else [])
    ∷ code s.frame_num
    ∷ code (poc_code s.order)
    ∷ flatten (order_segments s.order)
    ∷ []

-- The size, and the fields beside it.
abbrev pub picture : Sps → List (List ℕ)
picture s =
    code s.refs
    ∷ (flag s.gaps ∷ [])
    ∷ code s.mbs
    ∷ code s.units
    ∷ (flag s.frames ∷ [])
    ∷ (if flag s.frames == 0 then flag s.adaptive ∷ [] else [])
    ∷ (flag s.direct ∷ [])
    ∷ (flag (is_cropped s.crop) ∷ [])
    ∷ flatten (crop_segments s.crop)
    ∷ []

abbrev pub segments : Sps → List (List ℕ)
segments s = front s ++ picture s

-- `chroma_format_idc`, by its default outside the high profiles
abbrev pub chroma_of : Sps → ℕ
chroma_of s = if is_high s.profile then number s.high.chroma else 1

-- The fields of a frame: two where it may be coded by fields.
abbrev pub per_unit : Bool → ℕ
per_unit frames = if frames then 1 else 2

-- The crop unit by the chroma format, in samples: none, 4:2:0, 4:2:2, 4:4:4.
abbrev pub crop_unit : ℕ → Bool → ℕ × ℕ
crop_unit zero frames = (1, per_unit frames)
crop_unit (suc zero) frames = (2, 2 * per_unit frames)
crop_unit (suc (suc zero)) frames = (2, per_unit frames)
crop_unit (suc (suc (suc n))) frames = (1, per_unit frames)

-- What a decoder shows.
abbrev pub shown : Sps → SpsInfo
shown s = record {
  profile_idc = s.profile;
  level_idc = s.level;
  width =
      difference (16 * (number s.mbs + 1)) ((cut s.crop).0 * (crop_unit (chroma_of s) s.frames).0);
  height =
      difference (16 * (number s.units + 1) * per_unit s.frames)
        ((cut s.crop).1 * (crop_unit (chroma_of s) s.frames).1);
}

front-IsBit : (s : Sps) → All (All IsBit) (front s)
front-IsBit s = (
  digits-IsBit 8 s.profile,
  (
    digits-IsBit 8 s.constraints,
    (
      digits-IsBit 8 s.level,
      (
        code-IsBit s.id,
        (
          IsBit-if _ (is_high s.profile) (high_segments-IsBit s.high),
          (
            code-IsBit s.frame_num,
            (code-IsBit (poc_code s.order), (order_segments-IsBit s.order, tt)),
          ),
        ),
      ),
    ),
  ),
)

picture-IsBit : (s : Sps) → All (All IsBit) (picture s)
picture-IsBit s = (
  code-IsBit s.refs,
  (
    flag-IsBit s.gaps,
    (
      code-IsBit s.mbs,
      (
        code-IsBit s.units,
        (
          flag-IsBit s.frames,
          (
            IsBit-if _ (flag s.frames == 0) (flag-IsBit s.adaptive),
            (
              flag-IsBit s.direct,
              (flag-IsBit (is_cropped s.crop), (crop_segments-IsBit s.crop, tt)),
            ),
          ),
        ),
      ),
    ),
  ),
)

pub segments-IsBit : (s : Sps) → All IsBit (flatten (segments s))
segments-IsBit s =
    flatten-IsBit (segments s)
      (All-append (All IsBit) (front s) (picture s) (front-IsBit s) (picture-IsBit s))
