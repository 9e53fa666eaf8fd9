-- ===== src/Netdvr3/Loop/Resync.antt =====
-- Reading and resynchronizing in dvrbridge/drivers/netdvr3.py: what is left to read after each part.
use dvrbridge.Base.{
  ℕ, zero, suc, ◌+◌, ◌-◌, ◌≤◌, ◌<◌, Option, none, some, ltb, leb, Bytes, length, take, drop, find,
  ◌≡◌, refl, arith, length-append, length-take, length-drop, Bool-cases, inl, inr,
}
use dvrbridge.Netdvr3.{magic, max_frame}
use dvrbridge.Netdvr3.Loop.{
  closed, Input, read, fill, Scan, found, more, scan, Step, go_on, failed, out_of_fuel, resync_loop,
  resync,
}

-- The bytes left to read.
abbrev pub size : Input → ℕ
size (buf, input) = length buf + length input

-- What a read or a fill comes to: bytes moved, none lost, and no fewer in the buffer.
abbrev Moves : Bytes → Bytes → ℕ → Option Input → Type 0
Moves buf input n none = Unit
Moves buf input n (some (b, i)) =
    (length b + length i ≡ length buf + length input)
    × (length i + n ≤ length input)
    × (length buf + n ≤ length b)

read-Moves : (n : ℕ) (buf input : Bytes) → Moves buf input n (read n (buf, input))
unfolding read
read-Moves n buf input = elim (Bool-cases (leb n (length input))) [
  | inr e ↦ rw e tt
  | inl e ↦
      let h : n ≤ length input = ground arith in
      let grown = length-append buf (take n input) in
      rw e (
        omega (arith, h, grown, length-take n input, length-drop n input),
        omega (arith, h, length-drop n input),
        omega (arith, h, grown, length-take n input),
      )
]

-- A fill, to `n` bytes.
abbrev pub Fills : ℕ → Input → Option Input → Type 0
Fills n r none = Unit
Fills n r (some (b, i)) = (size (b, i) ≡ size r) × (n ≤ length b)

pub fill-Fills : (n : ℕ) (buf input : Bytes) → Fills n (buf, input) (fill n (buf, input))
unfolding fill
fill-Fills n buf input = elim (Bool-cases (ltb (length buf) n)) [
  | inr e ↦ rw e (refl, ground arith)
  | inl e ↦ rw e (
      go (read (n - length buf) (buf, input)) (ground arith)
        (read-Moves (n - length buf) buf input))
]
  where
    go :
        (o : Option Input)
        → length buf < n
        → Moves buf input (n - length buf) o
        → Fills n (buf, input) o
    go none l m = tt
    go (some (b, i)) l m = (m.0, omega (arith, l, m.2))

-- A search leaves no more than it had.
abbrev Searches : ℕ → Scan → Type 0
Searches n (found b) = length b ≤ n
Searches n (more b s) = length b ≤ n

scan-Searches : (buf : Bytes) (s : ℕ) → Searches (length buf) (scan buf s)
unfolding scan
scan-Searches buf s = go (find magic buf) refl
  where
    go : (o : Option ℕ) → find magic buf ≡ o → Searches (length buf) (scan buf s)
    go none e =
        rw (e, scan)
          (elim (Bool-cases (ltb 7 (length buf))) [
            | inl l ↦ rw l (omega (arith, length-drop (length buf - 7) buf))
            | inr l ↦ rw l (omega arith)
          ])
    go (some i) e =
        rw (e, scan)
          (elim (Bool-cases (leb 4 i)) [
            | inl l ↦ rw l (omega (arith, length-drop (i - 4) buf))
            | inr l ↦ rw l (omega (arith, length-drop (i + 4) buf))
          ])

-- What a resynchronization comes to, with at most `n` bytes left.
abbrev pub Resyncs : ℕ → Step → Type 0
Resyncs n (go_on r) = size r ≤ n
Resyncs n (failed e) = Unit
Resyncs n out_of_fuel = ⊥

Resyncs-weaken : (m n : ℕ) (s : Step) → m ≤ n → Resyncs m s → Resyncs n s
Resyncs-weaken m n (go_on r) h k = omega (arith, h, k)
Resyncs-weaken m n (failed e) h k = tt
Resyncs-weaken m n out_of_fuel h k = k

module _ (fuel : ℕ)
    (ih : (s : ℕ) (b i : Bytes)
      → length i < fuel
      → Resyncs (length b + length i) (resync_loop fuel s (b, i))) where
  read_on-Resyncs :
      (n s : ℕ) (b input : Bytes) (o : Option Input)
      → length input < suc fuel
      → length b + length input ≤ n
      → Moves b input 4096 o
      → Resyncs n (elim o [ none ↦ failed closed | some r ↦ resync_loop fuel s r ])
  read_on-Resyncs n s b input none h l m = tt
  read_on-Resyncs n s b input (some (b', i')) h l m =
      Resyncs-weaken (length b' + length i') n (resync_loop fuel s (b', i')) (omega (arith, l, m.0))
        (ih s b' i' (omega (arith, h, m.1)))

  round-Resyncs :
      (scanned : ℕ) (buf input : Bytes) (x : Scan)
      → length input < suc fuel
      → scan buf scanned ≡ x
      → Searches (length buf) x
      → Resyncs (length buf + length input) (resync_loop (suc fuel) scanned (buf, input))
  unfolding resync_loop
  round-Resyncs scanned buf input (found b) h e l = rw (e, resync_loop) (omega (arith, l))
  round-Resyncs scanned buf input (more b s) h e l =
      rw (e, resync_loop)
        (elim (Bool-cases (ltb max_frame s)) [
          | inl t ↦ rw t tt
          | inr t ↦ rw t (
              read_on-Resyncs (length buf + length input) s b input (read 4096 (b, input)) h
                (omega (arith, l)) (read-Moves 4096 b input))
        ])

resync_loop-Resyncs :
    (fuel scanned : ℕ) (buf input : Bytes)
    → length input < fuel
    → Resyncs (length buf + length input) (resync_loop fuel scanned (buf, input))
resync_loop-Resyncs zero scanned buf input h = absurd (omega arith)
resync_loop-Resyncs (suc fuel) scanned buf input h =
    round-Resyncs fuel (resync_loop-Resyncs fuel) scanned buf input (scan buf scanned) h refl
      (scan-Searches buf scanned)

pub resync-Resyncs :
    (buf input : Bytes)
    → 4 ≤ length buf
    → Resyncs (length buf + length input - 4) (resync (buf, input))
unfolding resync
resync-Resyncs buf input h =
    Resyncs-weaken (length (drop 4 buf) + length input) (length buf + length input - 4)
      (resync_loop (suc (length input)) 0 (drop 4 buf, input)) (omega (arith, length-drop 4 buf))
      (resync_loop-Resyncs (suc (length input)) 0 (drop 4 buf) input (omega arith))
