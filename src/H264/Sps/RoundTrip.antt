-- ===== src/H264/Sps/RoundTrip.antt =====
-- `parse_sps` of dvrbridge/h264.py on what an encoder writes.
use mathlib.Core.List.{flatten}
use dvrbridge.Base.{
  ℕ, zero, suc, ◌+◌, ◌*◌, ◌≤◌, Bool, true, false, not, some, List, [], ◌∷◌, ◌++◌, Bytes, length,
  ◌==◌, if◌then◌else◌, ◌≡◌, refl, ap, ◌∙◌, arith, All, All-append, ℤ, difference,
}
use dvrbridge.H264.Sps.{strip_emulation_prevention}
use dvrbridge.H264.Sps.Escape.{escape, strip_emulation_prevention-escape}
use dvrbridge.H264.Sps.Packed.{IsBit, pack, Reads-pack, Reads-append}
use dvrbridge.H264.Sps.Parse.{
  pure, is_high, high_fields, dimensions, sps_fields, parse_sps, SpsInfo,
}
use dvrbridge.H264.Sps.Encoder.{
  number, flag, Takes, Parses, Takes-pure, Parses-pure, Parses-bind, Takes-bit, Takes-bits,
  Takes-ue,
}
use dvrbridge.H264.Sps.Parts.{
  poc_code-IsCode, IsHigh, high_segments, high_fields-Parses, Takes-bit_if, poc_code,
  order_fields-Parses, is_cropped, cut, cropping-Parses,
}
use dvrbridge.H264.Sps.Layout.{
  Sps, IsSps, segments, segments-IsBit, chroma_of, per_unit, crop_unit, shown,
}

dimensions-crop_unit :
    (chroma mbs units : ℕ) (frames : Bool) (crop : ℕ × ℕ)
    → dimensions chroma mbs units frames crop ≡ (
      difference (16 * mbs) (crop.0 * (crop_unit chroma frames).0),
      difference (16 * units * per_unit frames) (crop.1 * (crop_unit chroma frames).1),
    )
unfolding dimensions
dimensions-crop_unit zero mbs units true crop = ground arith
dimensions-crop_unit zero mbs units false crop = ground arith
dimensions-crop_unit (suc zero) mbs units true crop = ground arith
dimensions-crop_unit (suc zero) mbs units false crop = ground arith
dimensions-crop_unit (suc (suc zero)) mbs units true crop = ground arith
dimensions-crop_unit (suc (suc zero)) mbs units false crop = ground arith
dimensions-crop_unit (suc (suc (suc n))) mbs units true crop = ground arith
dimensions-crop_unit (suc (suc (suc n))) mbs units false crop = ground arith

Takes-high :
    (s : Sps)
    → IsHigh s.high
    → Takes
        (if is_high s.profile then high_fields else pure 1)
        (if is_high s.profile then flatten (high_segments s.high) else [])
        (chroma_of s)
Takes-high s k = go (is_high s.profile)
  where
    go :
        (b : Bool)
        → Takes
            (if b then high_fields else pure 1)
            (if b then flatten (high_segments s.high) else [])
            (if b then number s.high.chroma else 1)
    go true = high_fields-Parses s.high k
    go false = Takes-pure 1

-- What the parser gives, by its own arithmetic.
abbrev parsed : Sps → SpsInfo
parsed s =
    let size =
      dimensions (chroma_of s) (number s.mbs + 1) (number s.units + 1) (not (flag s.frames == 0))
        (cut s.crop) in
    record { profile_idc = s.profile; level_idc = s.level; width = size.0; height = size.1 }

parsed-shown : (s : Sps) → parsed s ≡ shown s
parsed-shown s =
    let frames : not (flag s.frames == 0) ≡ s.frames = ground arith in
    rw frames (
      ap
        (λ (size : ℤ × ℤ). record {
          profile_idc = s.profile;
          level_idc = s.level;
          width = size.0;
          height = size.1;
        })
        (dimensions-crop_unit (chroma_of s) (number s.mbs + 1) (number s.units + 1) s.frames
          (cut s.crop)))

sps_fields-Parses : (s : Sps) → IsSps s → Parses sps_fields (segments s) (parsed s)
unfolding sps_fields
sps_fields-Parses s k = Parses-bind _ _ _ _ _ _ (Takes-bits 8 s.profile k.profile) (
    Parses-bind _ _ _ _ _ _ (Takes-bits 8 s.constraints k.constraints) (
      Parses-bind _ _ _ _ _ _ (Takes-bits 8 s.level k.level) (
        Parses-bind _ _ _ _ _ _ (Takes-ue s.id k.id) (
          Parses-bind _ _ _ _ _ _ (Takes-high s k.high) (
            Parses-bind _ _ _ _ _ _ (Takes-ue s.frame_num k.frame_num) (
              Parses-bind _ _ _ _ _ _ (Takes-ue (poc_code s.order) (poc_code-IsCode s.order)) (
                Parses-bind _ _ _ _ _ _ (order_fields-Parses s.order k.order) (
                  Parses-bind _ _ _ _ _ _ (Takes-ue s.refs k.refs) (
                    Parses-bind _ _ _ _ _ _ (Takes-bit (flag s.gaps)) (
                      Parses-bind _ _ _ _ _ _ (Takes-ue s.mbs k.mbs) (
                        Parses-bind _ _ _ _ _ _ (Takes-ue s.units k.units) (
                          Parses-bind _ _ _ _ _ _ (Takes-bit (flag s.frames)) (
                            Parses-bind _ _ _ _ _ _
                              (Takes-bit_if (flag s.frames == 0) (flag s.adaptive))
                              (Parses-bind _ _ _ _ _ _ (Takes-bit (flag s.direct)) (
                                Parses-bind _ _ _ _ _ _ (Takes-bit (flag (is_cropped s.crop))) (
                                  Parses-bind _ _ _ _ _ _ (cropping-Parses s.crop k.crop)
                                    (Parses-pure (parsed s))))))))))))))))))

parse_sps-stripped :
    (nal : ℕ) (escaped src : Bytes) (i : SpsInfo) (end : ℕ)
    → strip_emulation_prevention escaped ≡ src
    → sps_fields src 0 ≡ some (i, end)
    → parse_sps (nal ∷ escaped) ≡ some i
unfolding parse_sps
parse_sps-stripped nal escaped src i end e f =
    let whole : sps_fields (strip_emulation_prevention escaped) 0 ≡ some (i, end) =
      ap (λ t. sps_fields t 0) e ∙ f in
    rw (whole, parse_sps) refl

-- The parameter set with any header byte, and `trail` behind its fields, in `n` bytes.
abbrev pub encoded : ℕ → Sps → List ℕ → ℕ → Bytes
encoded nal s trail n = nal ∷ escape 0 (pack n (flatten (segments s) ++ trail))

-- A parameter set without scaling matrices, of any profile, with codes of at most 31 leading zeros, packed into
-- bytes, with whatever bits behind its fields, and escaped, is parsed: to its profile, its level, and the size that a
-- decoder shows, the cropping taken off in the units of its chroma format.
pub parse_sps-encoded :
    (s : Sps) (nal : ℕ) (trail : List ℕ) (n : ℕ)
    → IsSps s
    → All IsBit trail
    → length (flatten (segments s) ++ trail) ≤ 8 * n
    → parse_sps (encoded nal s trail n) ≡ some (shown s)
parse_sps-encoded s nal trail n k bits room =
    let all = flatten (segments s) ++ trail in
    let bits = All-append IsBit (flatten (segments s)) trail (segments-IsBit s) bits in
    let reads =
      Reads-append (pack n all) 0 (flatten (segments s)) trail (Reads-pack n all bits room) in
    parse_sps-stripped nal (escape 0 (pack n all)) (pack n all) (parsed s)
      (0 + length (flatten (segments s))) (strip_emulation_prevention-escape (pack n all))
      ((sps_fields-Parses s k).runs (pack n all) 0 reads.0)
    ∙ ap some (parsed-shown s)
