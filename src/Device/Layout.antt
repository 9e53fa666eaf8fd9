-- ===== src/Device/Layout.antt =====
-- The preamble of `synth_preamble` in dvrbridge/testing.py, field by field.
use dvrbridge.Base.{
  ℕ, ◌+◌, drop-drop, take_all, ◌-◌, ◌≤◌, codes, length, length-append, [], ◌∷◌, ◌++◌, Bytes, take,
  drop, get_or, append_assoc, take-append_length, drop-append_length, ◌≡◌, refl, sym, ap, ◌∙◌,
  arith,
}
use dvrbridge.Base.Struct.{le16}
use dvrbridge.Netdvr3.{write}
use dvrbridge.Netdvr3.Start.{zeros, zeros-length, zeros-split, write-append, get_or-length}
use dvrbridge.Device.{synth_preamble}

-- A text in a field of `size` bytes.
abbrev pub padded : ℕ → Bytes → Bytes
padded size t = t ++ zeros (size - length t)

pub padded-length : (size : ℕ) (t : Bytes) → length t ≤ size → length (padded size t) ≡ size
padded-length size t h =
    omega (arith, length-append t (zeros (size - length t)), zeros-length (size - length t))

-- A text written over the zeros behind `pre`.
write-padded :
    (at size more : ℕ) (pre src : Bytes)
    → length pre ≡ at
    → length src ≤ size
    → write at src (pre ++ zeros (size + more)) ≡ pre ++ (padded size src ++ zeros more)
write-padded at size more pre src p h =
    let n = length src in
    ap (λ t. write at src (pre ++ t)) (zeros-split n (size - n) more (size + more) (omega arith))
    ∙ write-append at pre (zeros n) src (zeros (size - n) ++ zeros more) p (zeros-length n)
    ∙ ap (λ t. pre ++ t) (sym (append_assoc src (zeros (size - n)) (zeros more)))

-- What is in front of the device's name.
abbrev pub front : Bytes
front =
    0
    ∷ 0
    ∷ 0
    ∷ 0x14
    ∷ 0
    ∷ 0
    ∷ 0
    ∷ 0
    ∷ 0x28
    ∷ 0
    ∷ 4
    ∷ 0
    ∷ 3
    ∷ 0
    ∷ 7
    ∷ 0
    ∷ 0x2A
    ∷ 0
    ∷ 4
    ∷ 0
    ∷ zeros 16

-- What is behind the firmware's field.
abbrev pub behind : Bytes → Bytes
behind size = zeros 24 ++ (codes "H264" ++ (zeros 4 ++ (size ++ zeros 48)))

abbrev pub laid_out : Bytes → Bytes → Bytes → Bytes
laid_out id fw size = front ++ (id ++ (zeros 32 ++ (fw ++ behind size)))

module _ (id fw : Bytes) (short_id : length id ≡ 16) (short_fw : length fw ≡ 16) where
  abbrev to_fw : Bytes
  to_fw = (front ++ id) ++ (zeros 32 ++ fw)

  to_fw-length : length to_fw ≡ 100
  to_fw-length = omega (
    arith,
    short_id,
    short_fw,
    length-append (front ++ id) (zeros 32 ++ fw),
    length-append front id,
    length-append (zeros 32) fw,
  )

  write-marker :
      write 0x7C (codes "H264") (to_fw ++ zeros 84)
      ≡ to_fw ++ (zeros 24 ++ (codes "H264" ++ zeros 56))
  write-marker =
      ap (write 0x7C (codes "H264")) (sym (append_assoc to_fw (zeros 24) (zeros 60)))
      ∙ write-padded 0x7C 4 56 (to_fw ++ zeros 24) (codes "H264")
          (omega (arith, to_fw-length, length-append to_fw (zeros 24))) (omega arith)
      ∙ append_assoc to_fw (zeros 24) (codes "H264" ++ zeros 56)

  write-size :
      (w h : ℕ)
      → write 0x84 (le16 w ++ le16 h) (to_fw ++ (zeros 24 ++ (codes "H264" ++ zeros 56)))
        ≡ laid_out id fw (le16 w ++ le16 h)
  write-size w h =
      let on = zeros 24 ++ (codes "H264" ++ zeros 4) in
      ap (write 0x84 (le16 w ++ le16 h)) (sym (append_assoc to_fw on (zeros 52)))
      ∙ write-padded 0x84 4 48 (to_fw ++ on) (le16 w ++ le16 h)
          (omega (arith, to_fw-length, length-append to_fw on)) (omega arith)
      ∙ append_assoc to_fw on ((le16 w ++ le16 h) ++ zeros 48)
      ∙ append_assoc (front ++ id) (zeros 32 ++ fw) (behind (le16 w ++ le16 h))
      ∙ append_assoc front id ((zeros 32 ++ fw) ++ behind (le16 w ++ le16 h))

module _ (id fw : Bytes) (short_id : length id ≤ 16) (short_fw : length fw ≤ 8) where
  abbrev pub id_field : Bytes
  id_field = padded 16 id

  abbrev pub fw_field : Bytes
  fw_field = padded 16 fw

  write-id : write 0x24 id (front ++ zeros 148) ≡ front ++ (id_field ++ zeros 132)
  write-id = write-padded 0x24 16 132 front id refl short_id

  write-fw :
      write 0x54 fw (front ++ (id_field ++ zeros 132))
      ≡ to_fw id_field fw_field (padded-length 16 id short_id) (padded-length 16 fw (omega arith))
        ++ zeros 84
  write-fw =
      let there = (front ++ id_field) ++ zeros 32 in
      ap (write 0x54 fw) (
        sym (append_assoc front id_field (zeros 132))
        ∙ sym (append_assoc (front ++ id_field) (zeros 32) (zeros 100)))
      ∙ write-padded 0x54 16 84 there fw
          (omega (
            arith,
            padded-length 16 id short_id,
            length-append (front ++ id_field) (zeros 32),
            length-append front id_field,
          ))
          (omega arith)
      ∙ sym (append_assoc there fw_field (zeros 84))
      ∙ ap (λ t. t ++ zeros 84) (append_assoc (front ++ id_field) (zeros 32) fw_field)

  pub synth_preamble-laid_out :
      (w h : ℕ) → synth_preamble id fw w h ≡ laid_out id_field fw_field (le16 w ++ le16 h)
  unfolding synth_preamble
  synth_preamble-laid_out w h =
      let i = padded-length 16 id short_id in
      let f : length fw_field ≡ 16 = padded-length 16 fw (omega arith) in
      let size = le16 w ++ le16 h in
      let start : write 8 (0x28 ∷ 0 ∷ 4 ∷ 0 ∷ 3 ∷ 0 ∷ 7 ∷ 0 ∷ 0x2A ∷ 0 ∷ 4 ∷ 0 ∷ [])
            (write 0 (0 ∷ 0 ∷ 0 ∷ 0x14 ∷ []) (zeros 184))
          ≡ front ++ zeros 148 =
        unfold write in refl in
      rw
        (
          take_all 16 id short_id,
          take_all 8 fw short_fw,
          start,
          write-id,
          write-fw,
          write-marker id_field fw_field i f,
        )
        (write-size id_field fw_field i f w h)

-- A field behind `k` bytes.
get_or-behind :
    (k j s : ℕ) (xs ys : Bytes) → length xs ≡ k → k + j ≡ s → get_or (xs ++ ys) s 0 ≡ get_or ys j 0
get_or-behind k j s xs ys e sum =
    let at : s ≡ length xs + j = omega (arith, e, sum) in
    ap (λ n. get_or (xs ++ ys) n 0) at ∙ get_or-length xs ys j 0

take-behind : (k : ℕ) (xs ys : Bytes) → length xs ≡ k → take k (xs ++ ys) ≡ xs
take-behind k xs ys e = ap (λ n. take n (xs ++ ys)) (sym e) ∙ take-append_length xs ys

drop-behind : (k : ℕ) (xs ys : Bytes) → length xs ≡ k → drop k (xs ++ ys) ≡ ys
drop-behind k xs ys e = ap (λ n. drop n (xs ++ ys)) (sym e) ∙ drop-append_length xs ys

module _ (id fw size : Bytes) (short_id : length id ≡ 16) (short_fw : length fw ≡ 16) where
  pub length-laid_out : length size ≡ 4 → length (laid_out id fw size) ≡ 184
  length-laid_out s = omega (
    arith,
    s,
    short_id,
    short_fw,
    length-append id (zeros 32 ++ (fw ++ behind size)),
    length-append fw (behind size),
    length-append size (zeros 48),
  )

  pub laid_out-id : take 16 (drop 0x24 (laid_out id fw size)) ≡ id
  laid_out-id = take-behind 16 id (zeros 32 ++ (fw ++ behind size)) short_id

  pub laid_out-fw : take 16 (drop 0x54 (laid_out id fw size)) ≡ fw
  laid_out-fw =
      let rest = zeros 32 ++ (fw ++ behind size) in
      ap (take 16) (
        sym (drop-drop 16 32 48 (id ++ rest) refl) ∙ ap (drop 32) (drop-behind 16 id rest short_id))
      ∙ take-behind 16 fw (behind size) short_fw

  pub get-behind : (j : ℕ) → get_or (laid_out id fw size) (100 + j) 0 ≡ get_or (behind size) j 0
  get-behind j =
      get_or-behind 36 (64 + j) (100 + j) front (id ++ (zeros 32 ++ (fw ++ behind size))) refl
        (omega arith)
      ∙ get_or-behind 16 (48 + j) (64 + j) id (zeros 32 ++ (fw ++ behind size)) short_id
          (omega arith)
      ∙ get_or-behind 32 (16 + j) (48 + j) (zeros 32) (fw ++ behind size) refl (omega arith)
      ∙ get_or-behind 16 j (16 + j) fw (behind size) short_fw (omega arith)
