-- ===== src/Netdvr3/Start.antt =====
-- The start-stream packet of dvrbridge/drivers/netdvr3.py, read as the device reads it
-- (`FakeDvr._session` of dvrbridge/testing.py).
use dvrbridge.Base.{
  ℕ, zero, suc, ◌+◌, ◌-◌, ◌≤◌, Bool, true, false, ◌&&◌, some, [], ◌∷◌, ◌++◌, leb, ◌==◌,
  if◌then◌else◌, Bytes, length, starts_with, take, drop, replicate, get_or, bit_and, bit_and-0xFF,
  ◌≡◌, ◌≢◌, refl, sym, ap, ◌∙◌, arith, All, append_assoc, length-append, length-replicate, take_all,
  take-append_length, drop-append_length,
}
use dvrbridge.Netdvr3.{write, start_const, build_start_stream}

-- `field.split(b"\x00")[0]`
unfoldable pub until_nul : Bytes → Bytes
until_nul [] = []
until_nul (b ∷ bs) = if b == 0 then [] else b ∷ until_nul bs

-- what the device reads of the 76 bytes
pub record StartRequest : Type 0 where
  pub user : Bytes
  pub pw : Bytes
  pub channel : ℕ

unfoldable pub read_start : Bytes → StartRequest
unfolding until_nul
read_start start = record {
  user = until_nul (take 32 (drop 20 start));
  pw = until_nul (take 20 (drop 52 start));
  channel = get_or start 73 0;
}

abbrev pub IsText : Bytes → Type 0
IsText = All (λ b. b ≢ 0)

abbrev pub zeros : ℕ → Bytes
zeros n = replicate n 0

zeros-append : (m n : ℕ) → zeros (m + n) ≡ zeros m ++ zeros n
zeros-append zero n = ap zeros (omega arith)
zeros-append (suc m) n =
    let shifted : suc m + n ≡ suc (m + n) = omega arith in
    ap zeros shifted ∙ ap (λ t. 0 ∷ t) (zeros-append m n)

pub zeros-length : (n : ℕ) → length (zeros n) ≡ n
zeros-length n = length-replicate n 0

pub zeros-split : (a b c s : ℕ) → s ≡ a + (b + c) → zeros s ≡ zeros a ++ (zeros b ++ zeros c)
zeros-split a b c s e =
    ap zeros e ∙ zeros-append a (b + c) ∙ ap (λ t. zeros a ++ t) (zeros-append b c)

pub write-append :
    (at : ℕ) (pre old src rest : Bytes)
    → length pre ≡ at
    → length old ≡ length src
    → write at src (pre ++ (old ++ rest)) ≡ pre ++ (src ++ rest)
unfolding write
write-append at pre old src rest p o =
    let behind : drop (at + length src) (pre ++ (old ++ rest)) ≡ rest =
      ap (λ n. drop n (pre ++ (old ++ rest))) (omega (arith, p, o, length-append pre old))
      ∙ ap (drop (length (pre ++ old))) (sym (append_assoc pre old rest))
      ∙ drop-append_length (pre ++ old) rest in
    let before : take at (pre ++ (old ++ rest)) ≡ pre =
      ap (λ n. take n (pre ++ (old ++ rest))) (sym p) ∙ take-append_length pre (old ++ rest) in
    rw (before, behind)

-- A field of a packet.
field :
    (a n : ℕ) (pre mid post : Bytes)
    → length pre ≡ a
    → length mid ≡ n
    → take n (drop a ((pre ++ mid) ++ post)) ≡ mid
field a n pre mid post p m =
    ap (λ t. take n (drop a t)) (append_assoc pre mid post)
    ∙ ap (λ k. take n (drop k (pre ++ (mid ++ post)))) (sym p)
    ∙ ap (take n) (drop-append_length pre (mid ++ post))
    ∙ ap (λ k. take k (mid ++ post)) (sym m)
    ∙ take-append_length mid post

pub until_nul-text : (t : Bytes) (n : ℕ) → IsText t → until_nul (t ++ zeros n) ≡ t
unfolding until_nul
until_nul-text [] zero h = refl
until_nul-text [] (suc n) h = refl
until_nul-text (b ∷ t) n h = ground (arith, h.0, until_nul-text t n h.1)

pub get_or-length : (xs ys : Bytes) (k d : ℕ) → get_or (xs ++ ys) (length xs + k) d ≡ get_or ys k d
get_or-length [] ys k d = ap (λ n. get_or ys n d) (omega arith)
get_or-length (x ∷ xs) ys k d =
    let shifted : suc (length xs) + k ≡ suc (length xs + k) = omega arith in
    ap (λ n. get_or (x ∷ (xs ++ ys)) n d) shifted ∙ get_or-length xs ys k d

-- The packet by its fields.
abbrev pub prefix : Bytes
prefix = (0 ∷ 0 ∷ 0 ∷ 0x48 ∷ 0 ∷ 0 ∷ 0 ∷ 0 ∷ []) ++ start_const

pub write-start :
    write 8 start_const (write 0 (0 ∷ 0 ∷ 0 ∷ 0x48 ∷ []) (replicate 76 0)) ≡ prefix ++ zeros 56
unfolding write
write-start = refl

module _ (user : Bytes) (short_user : length user ≤ 31) where
  abbrev pub to_user : Bytes
  to_user = prefix ++ (user ++ zeros (32 - length user))

  pub to_user-length : length to_user ≡ 52
  to_user-length =
      omega (arith, length-append user (zeros (32 - length user)), zeros-length (32 - length user))

  pub write-user : write 20 user (prefix ++ zeros 56) ≡ to_user ++ zeros 24
  write-user =
      let n = length user in
      ap (λ t. write 20 user (prefix ++ t)) (zeros-split n (32 - n) 24 56 (omega arith))
      ∙ write-append 20 prefix (zeros n) user (zeros (32 - n) ++ zeros 24) refl (zeros-length n)
      ∙ ap (λ t. prefix ++ t) (sym (append_assoc user (zeros (32 - n)) (zeros 24)))

module _ (user pw : Bytes) (short_user : length user ≤ 31) (short_pw : length pw ≤ 20) where
  abbrev to_pw : Bytes
  to_pw = (to_user user short_user) ++ (pw ++ zeros (20 - length pw))

  abbrev laid_out : ℕ → ℕ → Bytes
  laid_out flag channel = to_pw ++ (flag ∷ channel ∷ 0 ∷ 0 ∷ [])

  to_pw-length : length to_pw ≡ 72
  to_pw-length = omega (
    arith,
    (to_user-length user short_user),
    length-append (to_user user short_user) (pw ++ zeros (20 - length pw)),
    length-append pw (zeros (20 - length pw)),
    zeros-length (20 - length pw),
  )

  write-pw : write 52 pw ((to_user user short_user) ++ zeros 24) ≡ laid_out 0 0
  write-pw =
      let n = length pw in
      ap (λ t. write 52 pw ((to_user user short_user) ++ t))
        (zeros-split n (20 - n) 4 24 (omega arith))
      ∙ write-append 52 (to_user user short_user) (zeros n) pw (zeros (20 - n) ++ zeros 4)
          (to_user-length user short_user) (zeros-length n)
      ∙ ap (λ t. (to_user user short_user) ++ t) (sym (append_assoc pw (zeros (20 - n)) (zeros 4)))
      ∙ sym (append_assoc (to_user user short_user) (pw ++ zeros (20 - n)) (zeros 4))

  write-flag : write 72 (1 ∷ []) (laid_out 0 0) ≡ laid_out 1 0
  write-flag = write-append 72 to_pw (0 ∷ []) (1 ∷ []) (0 ∷ 0 ∷ 0 ∷ []) to_pw-length refl

  write-channel : (flag c : ℕ) → write 73 (c ∷ []) (laid_out flag 0) ≡ laid_out flag c
  write-channel flag c =
      ap (write 73 (c ∷ [])) (sym (append_assoc to_pw (flag ∷ []) (0 ∷ 0 ∷ 0 ∷ [])))
      ∙ write-append 73 (to_pw ++ flag ∷ []) (0 ∷ []) (c ∷ []) (0 ∷ 0 ∷ [])
          (omega (arith, to_pw-length, length-append to_pw (flag ∷ []))) refl
      ∙ append_assoc to_pw (flag ∷ []) (c ∷ 0 ∷ 0 ∷ [])

  laid_out-user :
      (flag c : ℕ) → IsText user → until_nul (take 32 (drop 20 (laid_out flag c))) ≡ user
  laid_out-user flag c t =
      let padded = user ++ zeros (32 - length user) in
      let rest = (pw ++ zeros (20 - length pw)) ++ (flag ∷ c ∷ 0 ∷ 0 ∷ []) in
      ap (λ w. until_nul (take 32 (drop 20 w)))
        (append_assoc (to_user user short_user) (pw ++ zeros (20 - length pw))
          (flag ∷ c ∷ 0 ∷ 0 ∷ []))
      ∙ ap until_nul (
          field 20 32 prefix padded rest refl (
            omega (
              arith,
              length-append user (zeros (32 - length user)),
              zeros-length (32 - length user),
            )))
      ∙ until_nul-text user (32 - length user) t

  laid_out-pw : (flag c : ℕ) → IsText pw → until_nul (take 20 (drop 52 (laid_out flag c))) ≡ pw
  laid_out-pw flag c t =
      ap until_nul (
        field 52 20 (to_user user short_user) (pw ++ zeros (20 - length pw)) (flag ∷ c ∷ 0 ∷ 0 ∷ [])
          (to_user-length user short_user)
          (omega (arith, length-append pw (zeros (20 - length pw)), zeros-length (20 - length pw))))
      ∙ until_nul-text pw (20 - length pw) t

  laid_out-get :
      (flag c k n : ℕ)
      → n ≡ 72 + k
      → get_or (laid_out flag c) n 0 ≡ get_or (flag ∷ c ∷ 0 ∷ 0 ∷ []) k 0
  laid_out-get flag c k n e =
      ap (λ m. get_or (laid_out flag c) m 0)
        (let at : n ≡ length to_pw + k = omega (arith, to_pw-length) in at)
      ∙ get_or-length to_pw (flag ∷ c ∷ 0 ∷ 0 ∷ []) k 0

  laid_out-length : (flag c : ℕ) → length (laid_out flag c) ≡ 76
  laid_out-length flag c = omega (arith, to_pw-length, length-append to_pw (flag ∷ c ∷ 0 ∷ 0 ∷ []))

  laid_out-read_start :
      (flag c : ℕ)
      → IsText user
      → IsText pw
      → read_start (laid_out flag c) ≡ record { user = user; pw = pw; channel = c }
  unfolding read_start
  laid_out-read_start flag c u p =
      rw (laid_out-user flag c u, laid_out-pw flag c p, laid_out-get flag c 1 73 refl)

  build_start_stream-laid_out :
      (channel : ℕ) (substream : Bool)
      → 1 ≤ channel
      → channel ≤ 256
      → build_start_stream user pw channel substream
        ≡ some (laid_out (if substream then 1 else 0) (channel - 1))
  unfolding build_start_stream
  build_start_stream-laid_out channel substream lo hi =
      let ok : (leb 1 channel && leb channel 256) ≡ true = ground arith in
      let index : bit_and (channel - 1) 0xFF ≡ channel - 1 =
        bit_and-0xFF (channel - 1) ∙ omega arith in
      rw
        (
          ok,
          index,
          take_all 31 user short_user,
          take_all 23 pw (omega arith),
          write-start,
          write-user user short_user,
          write-pw,
        )
        (by_flag substream)
    where
      by_flag :
          (b : Bool)
          → some (
              write 73
                ((channel - 1) ∷ [])
                (if b then write 72 (1 ∷ []) (laid_out 0 0) else laid_out 0 0))
            ≡ some (laid_out (if b then 1 else 0) (channel - 1))
      by_flag true =
          ap some (ap (write 73 ((channel - 1) ∷ [])) write-flag ∙ write-channel 1 (channel - 1))
      by_flag false = ap some (write-channel 0 (channel - 1))

-- A request of the driver as the device reads it.
pub record Asks (user pw : Bytes) (channel : ℕ) (substream : Bool) (pkt : Bytes) : Type 0 where
  pub reads : read_start pkt ≡ record { user = user; pw = pw; channel = channel - 1 }
  pub flag : get_or pkt 72 0 ≡ (if substream then 1 else 0)
  pub size : length pkt ≡ 76
  pub opening : starts_with (0 ∷ 0 ∷ 0 ∷ 0x48 ∷ []) pkt ≡ true

-- For a channel from 1 to 256, a user name of at most 31 bytes and a password of at most 20, neither
-- with a zero byte, the start packet has 76 bytes, and the device reads from it the same user
-- name and password, the channel counted from 0, and the flag of the substream; the first four bytes
-- are those that it expects.
pub build_start_stream-Asks :
    (user pw : Bytes) (channel : ℕ) (substream : Bool)
    → IsText user
    → IsText pw
    → length user ≤ 31
    → length pw ≤ 20
    → 1 ≤ channel
    → channel ≤ 256
    → (pkt : Bytes) × (build_start_stream user pw channel substream ≡ some pkt)
      × Asks user pw channel substream pkt
build_start_stream-Asks user pw channel substream u p lu lp lo hi =
    let flag : ℕ = if substream then 1 else 0 in
    (
      laid_out user pw lu lp flag (channel - 1),
      build_start_stream-laid_out user pw lu lp channel substream lo hi,
      record {
        reads = laid_out-read_start user pw lu lp flag (channel - 1) u p;
        flag = laid_out-get user pw lu lp flag (channel - 1) 0 72 refl;
        size = laid_out-length user pw lu lp flag (channel - 1);
        opening = unfold starts_with in refl;
      },
    )
