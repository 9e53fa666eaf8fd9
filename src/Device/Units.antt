-- ===== src/Device/Units.antt =====
-- The access units of `split_access_units` in dvrbridge/testing.py, and the NALs that they hold.
use dvrbridge.Base.{
  Bool, true, false, List, [], ◌∷◌, ◌++◌, Bytes, All, All-append, ◌≡◌, refl, sym, ap, ◌∙◌,
  append-nil, append_assoc,
}
use dvrbridge.H264.{nal_type, is_vcl, nal_idr, iter_nals}
use dvrbridge.H264.Join.{join, IsClean, iter_nals-join}
use dvrbridge.Hub.{has_type}
use dvrbridge.Device.{group, split_access_units}

abbrev pub IsSlice : Bytes → Type 0
IsSlice nal = is_vcl (nal_type nal) ≡ true

abbrev pub IsOther : Bytes → Type 0
IsOther nal = is_vcl (nal_type nal) ≡ false

-- An access unit as the device frames it: NALs that are no slices, then one slice, which says
-- whether the unit is a keyframe.
pub record IsUnit (unit : Bytes × Bool) : Type 0 where
  pub others : List Bytes
  pub slice : Bytes
  pub holds : iter_nals unit.0 ≡ others ++ slice ∷ []
  pub are_others : All IsOther others
  pub is_slice : IsSlice slice
  pub key : unit.1 ≡ has_type nal_idr slice

abbrev pub unit_nals : List (Bytes × Bool) → List Bytes
unit_nals [] = []
unit_nals (unit ∷ units) = iter_nals unit.0 ++ unit_nals units

-- The units of a list of NALs, and what is left behind the last slice.
pub record Split (nals : List Bytes) (units : List (Bytes × Bool)) : Type 0 where
  pub are_units : All IsUnit units
  pub rest : List Bytes
  pub are_rest : All IsOther rest
  pub whole : unit_nals units ++ rest ≡ nals

group-Split :
    (pending nals : List Bytes)
    → All IsClean pending
    → All IsOther pending
    → All IsClean nals
    → Split (pending ++ nals) (group pending nals)
unfolding group
group-Split pending [] cp op cn = record {
  are_units = tt;
  rest = pending;
  are_rest = op;
  whole = sym (append-nil pending);
}
group-Split pending (nal ∷ nals) cp op cn =
    go (is_vcl (nal_type nal)) refl (group-Split [] nals tt tt cn.1) (λ o.
      group-Split (pending ++ nal ∷ []) nals (All-append IsClean pending (nal ∷ []) cp (cn.0, tt))
        (All-append IsOther pending (nal ∷ []) op (o, tt)) cn.1)
  where
    go :
        (b : Bool)
        → is_vcl (nal_type nal) ≡ b
        → Split nals (group [] nals)
        → (IsOther nal → Split ((pending ++ nal ∷ []) ++ nals) (group (pending ++ nal ∷ []) nals))
        → Split (pending ++ nal ∷ nals) (group pending (nal ∷ nals))
    go true e next more =
        let held : iter_nals (join (pending ++ nal ∷ [])) ≡ pending ++ nal ∷ [] =
          iter_nals-join (pending ++ nal ∷ [])
            (All-append IsClean pending (nal ∷ []) cp (cn.0, tt)) in
        rw (e, group)
          (record {
            are_units = (
              record {
                others = pending;
                slice = nal;
                holds = held;
                are_others = op;
                is_slice = e;
                key = refl;
              },
              next.are_units,
            );
            rest = next.rest;
            are_rest = next.are_rest;
            whole =
                append_assoc (iter_nals (join (pending ++ nal ∷ []))) (unit_nals (group [] nals))
                  next.rest
                ∙ ap (λ t. iter_nals (join (pending ++ nal ∷ [])) ++ t) next.whole
                ∙ ap (λ t. t ++ nals) held
                ∙ append_assoc pending (nal ∷ []) nals;
          })
    go false e next more =
        let split = more e in
        rw (e, group)
          (record {
            are_units = split.are_units;
            rest = split.rest;
            are_rest = split.are_rest;
            whole = split.whole ∙ append_assoc pending (nal ∷ []) nals;
          })

-- A stream of NALs that hold no start code and do not end with a zero byte, joined with start codes, is
-- split into access units that hold its NALs, in order, up to the last slice; each ends with its
-- only slice, and is a keyframe when that is an IDR.
pub split_access_units-Split :
    (nals : List Bytes) → All IsClean nals → Split nals (split_access_units (join nals))
unfolding split_access_units
split_access_units-Split nals c = rw (iter_nals-join nals c) (group-Split [] nals tt tt c)
