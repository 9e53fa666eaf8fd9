-- ===== src/Device/Described.antt =====
-- `_parse_preamble` of dvrbridge/drivers/netdvr3.py on what `synth_preamble` of dvrbridge/testing.py makes.
use dvrbridge.Base.{
  ℕ, ◌+◌, ◌-◌, ◌*◌, ◌/◌, ◌%◌, ◌≤◌, ◌<◌, true, some, find, codes, length, [], ◌∷◌, ◌++◌, Bytes, All,
  take, drop, get_or, ◌≡◌, refl, sym, ap, ◌∙◌, arith,
}
use dvrbridge.Base.Struct.{le16}
use dvrbridge.Netdvr3.Start.{until_nul, until_nul-text, IsText}
use dvrbridge.Netdvr3.Info.{
  Metadata, parse_preamble, parse_device_id, parse_firmware, parse_size, size_behind,
  parse_channel_count, set_size, set_channel_count, u16_at, u32_at, text_at, is_alnum,
  ascii_replaced, or_none,
}
use dvrbridge.Device.{synth_preamble}
use dvrbridge.Device.Layout.{
  padded, padded-length, behind, laid_out, synth_preamble-laid_out, length-laid_out, laid_out-id,
  laid_out-fw, get-behind,
}

abbrev pub IsAscii : Bytes → Type 0
IsAscii = All (λ b. b < 128)

ascii_replaced-ascii : (t : Bytes) → IsAscii t → ascii_replaced t ≡ t
unfolding ascii_replaced
ascii_replaced-ascii [] h = refl
ascii_replaced-ascii (b ∷ t) h = ground (arith, h.0, ascii_replaced-ascii t h.1)

abbrev pre : ℕ → Bytes → Bytes → ℕ → ℕ → Bytes
pre c id fw w h = laid_out (padded 16 (c ∷ id)) (padded 16 fw) (le16 w ++ le16 h)

module _ (c : ℕ) (id fw : Bytes) (w h : ℕ) (short_id : length id ≤ 15)
    (short_fw : length fw ≤ 8) where
  id_length : length (padded 16 (c ∷ id)) ≡ 16
  id_length = padded-length 16 (c ∷ id) (omega arith)

  fw_length : length (padded 16 fw) ≡ 16
  fw_length = padded-length 16 fw (omega arith)

  pre-length : length (pre c id fw w h) ≡ 184
  pre-length =
      length-laid_out (padded 16 (c ∷ id)) (padded 16 fw) (le16 w ++ le16 h) id_length fw_length
        refl

  from_marker :
      (j : ℕ) → get_or (pre c id fw w h) (100 + j) 0 ≡ get_or (behind (le16 w ++ le16 h)) j 0
  from_marker =
      get-behind (padded 16 (c ∷ id)) (padded 16 fw) (le16 w ++ le16 h) id_length fw_length

  parse_device_id-pre :
      (m : Metadata)
      → is_alnum c ≡ true
      → IsText (c ∷ id)
      → IsAscii (c ∷ id)
      → parse_device_id (pre c id fw w h) m ≡ record m { device_id = some (c ∷ id) }
  unfolding parse_device_id text_at or_none
  parse_device_id-pre m a t s =
      let text : until_nul (take 16 (drop 0x24 (pre c id fw w h))) ≡ c ∷ id =
        ap until_nul
          (laid_out-id (padded 16 (c ∷ id)) (padded 16 fw) (le16 w ++ le16 h) id_length fw_length)
        ∙ until_nul-text (c ∷ id) (16 - length (c ∷ id)) t in
      rw (pre-length, a, text, ascii_replaced-ascii (c ∷ id) s) refl

  parse_firmware-pre :
      (m : Metadata)
      → IsText fw
      → IsAscii fw
      → parse_firmware (pre c id fw w h) m ≡ record m { firmware = or_none fw }
  unfolding parse_firmware text_at
  parse_firmware-pre m t s =
      let text : until_nul (take 16 (drop 0x54 (pre c id fw w h))) ≡ fw =
        ap until_nul
          (laid_out-fw (padded 16 (c ∷ id)) (padded 16 fw) (le16 w ++ le16 h) id_length fw_length)
        ∙ until_nul-text fw (16 - length fw) t in
      rw (pre-length, text, ascii_replaced-ascii fw s) refl

  parse_channel_count-pre : (m : Metadata) → parse_channel_count (pre c id fw w h) m ≡ m
  unfolding parse_channel_count set_channel_count u32_at
  parse_channel_count-pre m =
      rw (pre-length, from_marker 4, from_marker 5, from_marker 6, from_marker 7) refl

  parse_size-pre :
      (m : Metadata)
      → find (codes "H264") (pre c id fw w h) ≡ some 0x7C
      → 64 ≤ w
      → w ≤ 4096
      → 64 ≤ h
      → h ≤ 4096
      → parse_size (pre c id fw w h) m ≡ record m { width = some w; height = some h }
  unfolding parse_size size_behind set_size u16_at
  parse_size-pre m f w_lo w_hi h_lo h_hi =
      let w_read : w % 256 + w / 256 * 256 ≡ w = omega arith in
      let h_read : h % 256 + h / 256 * 256 ≡ h = omega arith in
      ap (size_behind (pre c id fw w h) m) f
      ∙ rw
          (
            pre-length,
            from_marker 32,
            from_marker 33,
            from_marker 34,
            from_marker 35,
            w_read,
            h_read,
          )
          (ground arith)

-- The driver reads the device's name, its firmware and the size of its picture back from the preamble of a
-- device with any name of at most 16 ASCII characters that are not NUL, the first a letter or a digit, any
-- firmware of at most 8 such characters, if empty then none, and any width and height from 64 to 4096,
-- provided that the first "H264" of the preamble is the marker; it finds no count of channels.
pub parse_preamble-synth_preamble :
    (c : ℕ) (id fw : Bytes) (w h : ℕ) (m : Metadata)
    → length id ≤ 15
    → length fw ≤ 8
    → is_alnum c ≡ true
    → IsText (c ∷ id)
    → IsAscii (c ∷ id)
    → IsText fw
    → IsAscii fw
    → 64 ≤ w
    → w ≤ 4096
    → 64 ≤ h
    → h ≤ 4096
    → find (codes "H264") (synth_preamble (c ∷ id) fw w h) ≡ some 0x7C
    → parse_preamble (synth_preamble (c ∷ id) fw w h) m ≡ record m {
      width = some w;
      height = some h;
      device_id = some (c ∷ id);
      firmware = or_none fw;
    }
unfolding parse_preamble
parse_preamble-synth_preamble c id fw w h m short_id short_fw a t s ft fs w_lo w_hi h_lo h_hi f =
    let laid = synth_preamble-laid_out (c ∷ id) fw (omega arith) short_fw w h in
    let p = pre c id fw w h in
    let named = record m { device_id = some (c ∷ id) } in
    let versioned = record named { firmware = or_none fw } in
    ap (λ q. parse_preamble q m) laid
    ∙ ap (λ d. parse_channel_count p (parse_size p (parse_firmware p d)))
        (parse_device_id-pre c id fw w h short_id short_fw m a t s)
    ∙ ap (λ d. parse_channel_count p (parse_size p d))
        (parse_firmware-pre c id fw w h short_id short_fw named ft fs)
    ∙ ap (parse_channel_count p) (
        parse_size-pre c id fw w h short_id short_fw versioned
          (sym (ap (find (codes "H264")) laid) ∙ f) w_lo w_hi h_lo h_hi)
    ∙ parse_channel_count-pre c id fw w h short_id short_fw
        (record versioned { width = some w; height = some h })
