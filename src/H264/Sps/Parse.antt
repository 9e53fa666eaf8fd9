-- ===== src/H264/Sps/Parse.antt =====
-- `parse_sps` and `profile_level_id` of dvrbridge/h264.py. A step reads from the data at a position;
-- `none` is the `IndexError` behind the end, or the `ValueError` of `ue`.
use dvrbridge.Base.{
  ℕ, zero, suc, ◌+◌, ◌-◌, ◌*◌, ◌/◌, ◌%◌, Bool, true, false, not, ◌||◌, Option, none, some, List, [],
  ◌∷◌, ◌==◌, ltb, if◌then◌else◌, Bytes, take, drop, ℤ, pos, negsuc, difference, negated,
}
use dvrbridge.H264.Sps.{strip_emulation_prevention, bit, bits, ue}

-- A step of a `_BitReader`.
abbrev pub Reader : Type 0 → Type 0
Reader A = Bytes → ℕ → Option (A × ℕ)

infixl 5 ◌>>=◌
unfoldable pub ◌>>=◌ : {A B : Type 0} → Reader A → (A → Reader B) → Reader B
(m >>= f) src at = elim (m src at) [ none ↦ none | some r ↦ f r.0 src r.1 ]

infixl 5 ◌>>◌
abbrev pub ◌>>◌ : {A B : Type 0} → Reader A → Reader B → Reader B
m >> k = m >>= λ _. k

unfoldable pub pure : {A : Type 0} → A → Reader A
pure a src at = some (a, at)

-- `bits`, with the number of bits first
unfoldable pub bits_of : ℕ → Reader ℕ
bits_of n src at = bits src n at

-- `se`, of the code that `ue` read
unfoldable pub signed : ℕ → ℤ
signed k = if k % 2 == 0 then negated (k / 2) else pos ((k + 1) / 2)

-- `se`
unfoldable pub se : Reader ℤ
unfolding signed
se = do k ← ue; pure (signed k)

-- `(last + d + 256) % 256`
unfoldable pub next_scale : ℕ → ℤ → ℕ
next_scale last (pos d) = (last + d + 256) % 256
next_scale last (negsuc d) = (last + (255 - d % 256) + 256) % 256

-- the loop over a scaling list, by the rounds left
unfoldable pub scaling_list : ℕ → ℕ → ℕ → Reader (Unit {0})
scaling_list zero last nxt = pure tt
scaling_list (suc n) last nxt = elim (nxt == 0) [
  | true ↦ scaling_list n last nxt
  | false ↦ do
    d ← se
    let nxt = next_scale last d
    scaling_list n (if nxt == 0 then last else nxt) nxt
]

-- the loop over the scaling lists, by the lists left and the index
unfoldable pub scaling_lists : ℕ → ℕ → Reader (Unit {0})
unfolding scaling_list
scaling_lists zero i = pure tt
scaling_lists (suc n) i = do
  present ← bit
  if present == 0 then pure tt else scaling_list (if ltb i 6 then 16 else 64) 8 8
  scaling_lists n (i + 1)

abbrev one_of : ℕ → List ℕ → Bool
one_of n [] = false
one_of n (x ∷ xs) = n == x || one_of n xs

-- `profile_idc in (100, …)`
unfoldable pub is_high : ℕ → Bool
is_high profile =
    one_of profile (100 ∷ 110 ∷ 122 ∷ 244 ∷ 44 ∷ 83 ∷ 86 ∷ 118 ∷ 128 ∷ 138 ∷ 139 ∷ 134 ∷ 135 ∷ [])

-- the fields of a high profile: `chroma_format_idc`
unfoldable pub high_fields : Reader ℕ
unfolding scaling_lists
high_fields = do
  chroma ← ue
  if chroma == 3 then bit else pure 0
  ue
  ue
  bit
  matrix ← bit
  if matrix == 0 then pure tt else scaling_lists (if chroma == 3 then 12 else 8) 0
  pure chroma

-- `for _ in range(n): r.se()`
unfoldable pub skip_se : ℕ → Reader (Unit {0})
skip_se zero = pure tt
skip_se (suc n) = do se; skip_se n

-- what follows `poc_type`
unfoldable pub order_fields : ℕ → Reader (Unit {0})
unfolding skip_se
order_fields poc_type =
    let by_frame : Reader (Unit {0}) = (do ue; pure tt) in
    let by_cycle : Reader (Unit {0}) = (do bit; se; se; n ← ue; skip_se n) in
    if poc_type == 0 then by_frame else if poc_type == 1 then by_cycle else pure tt

-- `crop_l + crop_r` and `crop_t + crop_b`
unfoldable pub cropping : ℕ → Reader (ℕ × ℕ)
cropping present =
    let read : Reader (ℕ × ℕ) = (do l ← ue; r ← ue; t ← ue; b ← ue; pure (l + r, t + b)) in
    if present == 0 then pure (0, 0) else read

pub record SpsInfo : Type 0 where
  pub profile_idc : ℕ
  pub level_idc : ℕ
  pub width : ℤ
  pub height : ℤ

-- the arithmetic of the size: `chroma_format_idc`, `pic_width_in_mbs`, `pic_height_in_map_units`, whether
-- `frame_mbs_only` is set, and the crops
unfoldable pub dimensions : ℕ → ℕ → ℕ → Bool → ℕ × ℕ → ℤ × ℤ
dimensions chroma mbs units frames crop =
    let fields : ℕ = if frames then 1 else 2 in
    let sub_w : ℕ = if (chroma == 1) || (chroma == 2) then 2 else 1 in
    let sub_h : ℕ = if chroma == 1 then 2 else 1 in
    let crop_x : ℕ = if not (chroma == 0) then sub_w else 1 in
    let crop_y : ℕ = if not (chroma == 0) then sub_h * fields else fields in
    (difference (mbs * 16) (crop.0 * crop_x), difference (units * 16 * fields) (crop.1 * crop_y))

-- the body of `parse_sps`
unfoldable pub sps_fields : Reader SpsInfo
unfolding bits_of is_high high_fields order_fields cropping dimensions
sps_fields = do
  profile ← bits_of 8
  bits_of 8
  level ← bits_of 8
  ue
  chroma ← (if is_high profile then high_fields else pure 1)
  ue
  poc_type ← ue
  order_fields poc_type
  ue
  bit
  mbs ← ue
  units ← ue
  frames ← bit
  if frames == 0 then bit else pure 0
  bit
  cropped ← bit
  crop ← cropping cropped
  let size = dimensions chroma (mbs + 1) (units + 1) (not (frames == 0)) crop
  pure (record { profile_idc = profile; level_idc = level; width = size.0; height = size.1 })

-- `parse_sps`; `none` is an exception
unfoldable pub parse_sps : Bytes → Option SpsInfo
unfolding sps_fields
parse_sps sps = elim (sps_fields (strip_emulation_prevention (drop 1 sps)) 0) [
  | none ↦ none
  | some r ↦ some r.0
]

-- `bytes.hex`
unfoldable pub hex : Bytes → Bytes
hex [] = []
hex (b ∷ bs) =
    let digit : ℕ → ℕ = λ d. if ltb d 10 then 48 + d else 87 + d in
    digit (b / 16) ∷ digit (b % 16) ∷ hex bs

-- `profile_level_id`
unfoldable pub profile_level_id : Bytes → Bytes
unfolding hex
profile_level_id sps = hex (take 3 (drop 1 sps))
