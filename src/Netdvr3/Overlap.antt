-- ===== src/Netdvr3/Overlap.antt =====
-- A long password in the start-stream packet of dvrbridge/drivers/netdvr3.py.
use dvrbridge.Base.{
  ℕ, ◌+◌, ◌-◌, ◌≤◌, ◌<◌, true, false, ◌&&◌, some, [], ◌∷◌, ◌++◌, leb, Bytes, length, take, drop,
  get_or, get_or-append, take-append-drop, bit_and, ◌≡◌, refl, sym, ap, ◌∙◌, arith, length-append,
  length-take, take_all, append-nil,
}
use dvrbridge.Netdvr3.{write, build_start_stream}
use dvrbridge.Netdvr3.Start.{
  zeros, zeros-length, zeros-split, write-append, get_or-length, to_user, to_user-length,
  write-user, write-start,
}

get_or-take : (n k : ℕ) (b : Bytes) → k < n → n ≤ length b → get_or (take n b) k 0 ≡ get_or b k 0
get_or-take n k b h l =
    sym (get_or-append (take n b) (drop n b) k 0 (omega (arith, length-take n b)))
    ∙ ap (λ t. get_or t k 0) (take-append-drop n b)

get_or-write :
    (at k : ℕ) (src b : Bytes) → k < at → at ≤ length b → get_or (write at src b) k 0 ≡ get_or b k 0
unfolding write
get_or-write at k src b h l =
    get_or-append (take at b) (src ++ drop (at + length src) b) k 0
      (omega (arith, length-take at b))
    ∙ get_or-take at k b h l

module _ (user p : Bytes) (short_user : length user ≤ 31) (lo : 21 ≤ length p)
    (hi : length p ≤ 23) where
  written : Bytes
  written = write 52 p (to_user user short_user ++ zeros 24)

  written-eq : written ≡ to_user user short_user ++ (p ++ zeros (24 - length p))
  unfolding written
  written-eq =
      let n = length p in
      ap (λ t. write 52 p (to_user user short_user ++ t))
        (zeros-split n (24 - n) 0 24 (omega arith))
      ∙ write-append 52 (to_user user short_user) (zeros n) p (zeros (24 - n) ++ [])
          (to_user-length user short_user) (zeros-length n)
      ∙ ap (λ t. to_user user short_user ++ (p ++ t)) (append-nil (zeros (24 - n)))

  written-length : length written ≡ 76
  written-length =
      ap length written-eq
      ∙ omega (
        arith,
        to_user-length user short_user,
        length-append (to_user user short_user) (p ++ zeros (24 - length p)),
        length-append p (zeros (24 - length p)),
        zeros-length (24 - length p),
      )

  written-get : get_or written 72 0 ≡ get_or p 20 0
  written-get =
      let at : 72 ≡ length (to_user user short_user) + 20 =
        omega (arith, to_user-length user short_user) in
      ap (λ t. get_or t 72 0) written-eq
      ∙ ap (λ n. get_or (to_user user short_user ++ (p ++ zeros (24 - length p))) n 0) at
      ∙ get_or-length (to_user user short_user) (p ++ zeros (24 - length p)) 20 0
      ∙ get_or-append p (zeros (24 - length p)) 20 0 (omega arith)

-- A password of 21 bytes or more runs into the byte of the substream flag: in a packet for no substream, with a user name of
-- at most 31 bytes and a channel from 1 to 256, the password's 21st byte stands there.
pub build_start_stream-get_or :
    (user password : Bytes) (channel : ℕ)
    → length user ≤ 31
    → 21 ≤ length password
    → 1 ≤ channel
    → channel ≤ 256
    → (pkt : Bytes) × (build_start_stream user password channel false ≡ some pkt)
      × (get_or pkt 72 0 ≡ get_or password 20 0)
unfolding build_start_stream written
build_start_stream-get_or user password channel su lp lo hi =
    let ok : (leb 1 channel && leb channel 256) ≡ true = ground arith in
    let p = take 23 password in
    let small : length p ≤ 23 = omega (arith, length-take 23 password) in
    let large : 21 ≤ length p = omega (arith, length-take 23 password) in
    let c = bit_and (channel - 1) 0xFF in
    let full = written user p su large small in
    (
      write 73 (c ∷ []) full,
      rw (ok, take_all 31 user su, write-start, write-user user su) refl,
      get_or-write 73 72 (c ∷ []) full (omega arith)
            (omega (arith, written-length user p su large small))
          ∙ written-get user p su large small
          ∙ sym (get_or-append p (drop 23 password) 20 0 (omega (arith, large)))
          ∙ ap (λ t. get_or t 20 0) (take-append-drop 23 password),
    )
