-- ===== src/Netdvr3/Preamble.antt =====
-- The preamble loop of `NetDvr3Driver.frames` in dvrbridge/drivers/netdvr3.py. What `reader.read`
-- returns is a list of chunks; an empty chunk, and the end of the list, is the device's close.
use mathlib.Core.List.{flatten}
use mathlib.Core.Option.{some-injective}
use dvrbridge.Base.{
  ℕ, ◌+◌, ◌-◌, ◌≤◌, ◌<◌, Bool, true, false, Option, none, some, List, [], ◌∷◌, ◌++◌, ltb, leb,
  if◌then◌else◌, Bytes, length, take, drop, is_nil, find, find-append, find-drop, find-starts_with,
  find-room, starts_with, shift, append-nil, append_assoc, take-append-drop, length-take, drop-drop,
  All, ◌≡◌, refl, sym, ap, ◌∙◌, subst, arith, Bool-cases, inl, inr, ◌⊎◌,
}
use dvrbridge.Netdvr3.{magic, max_preamble}

-- `started`: the preamble, the buffer behind it, and the chunks to come. The other two are the
-- errors "no frame header in first 64KiB" and "device closed the connection during preamble".
pub data Opening : Type 0 where
  started : Bytes → Bytes → List Bytes → Opening
  no_header cut_off : Opening

-- the test of the length, and what comes behind it
abbrev pub wait : Bytes → Opening → Opening
wait buf rest = if ltb max_preamble (length buf) then no_header else rest

-- one round: the search, with `rest` for the rounds behind a read
abbrev pub search : Bytes → List Bytes → Opening → Opening
search buf chunks rest = elim (find magic buf) [
  | none ↦ wait buf rest
  | some i ↦ if leb 4 i then started (take (i - 4) buf) (drop (i - 4) buf) chunks else wait buf rest
]

unfoldable pub preamble_loop : Bytes → List Bytes → Opening
preamble_loop buf [] = search buf [] cut_off
preamble_loop buf (chunk ∷ chunks) =
    let rest = preamble_loop (buf ++ chunk) chunks in
    search buf (chunk ∷ chunks) (if is_nil chunk then cut_off else rest)

-- A header found at its place, nothing lost.
pub data Opened (w : Bytes) (i : ℕ) (o : Opening) : Type 0 where
  opened :
      (pre buf : Bytes) (chunks : List Bytes)
      → o ≡ started pre buf chunks
      → pre ++ (buf ++ flatten chunks) ≡ w
      → length pre ≡ i - 4
      → starts_with magic (drop 4 buf) ≡ true
      → Opened w i o

-- A magic that is not all in the buffer.
find-beyond :
    (b e : Bytes) (i : ℕ) → find magic b ≡ none → find magic (b ++ e) ≡ some i → length b < i + 4
find-beyond b e i h f = elim (Bool-cases (leb 4 (length b))) [
  | inr l ↦ ground arith
  | inl l ↦
      go (find magic (drop (length b - 3) b ++ e))
        (sym (find-drop magic b e (length b - 3) h (ground arith)) ∙ f)
]
  where
    go : (o : Option ℕ) → shift (length b - 3) o ≡ some i → length b < i + 4
    go none q = cc q
    go (some j) q = omega (arith, some-injective _ _ q)

search-found :
    (buf : Bytes) (chunks : List Bytes) (rest : Opening) (i : ℕ)
    → find magic buf ≡ some i
    → 4 ≤ i
    → Opened (buf ++ flatten chunks) i (search buf chunks rest)
search-found buf chunks rest i f h =
    let wide : leb 4 i ≡ true = ground arith in
    opened (take (i - 4) buf) (drop (i - 4) buf) chunks (rw (f, search, wide))
      (sym (append_assoc (take (i - 4) buf) (drop (i - 4) buf) (flatten chunks))
        ∙ ap (λ t. t ++ flatten chunks) (take-append-drop (i - 4) buf))
      (omega (arith, length-take (i - 4) buf, find-room magic buf i f))
      (ap (starts_with magic) (drop-drop (i - 4) 4 i buf (omega arith))
        ∙ find-starts_with magic buf i f)

search-none :
    (buf : Bytes) (chunks : List Bytes) (rest : Opening)
    → find magic buf ≡ none
    → length buf ≤ max_preamble
    → search buf chunks rest ≡ rest
search-none buf chunks rest f h =
    let short : ltb max_preamble (length buf) ≡ false = ground arith in rw (f, search, short)

-- If the first magic of what the device sends is at `i`, at least 4 and at most 64 KiB less 4, then however
-- it comes in non-empty chunks, the driver takes the bytes before the header for the preamble, loses none,
-- and goes on with a buffer that begins with the header.
pub preamble_loop-Opened :
    (buf : Bytes) (chunks : List Bytes) (i : ℕ)
    → All (λ c. is_nil c ≡ false) chunks
    → find magic (buf ++ flatten chunks) ≡ some i
    → 4 ≤ i
    → i + 4 ≤ max_preamble
    → Opened (buf ++ flatten chunks) i (preamble_loop buf chunks)
unfolding preamble_loop flatten
preamble_loop-Opened buf [] i h f lo hi =
    search-found buf [] cut_off i (ap (find magic) (sym (append-nil buf)) ∙ f) lo
preamble_loop-Opened buf (chunk ∷ chunks) i h f lo hi =
    let assoc = append_assoc buf chunk (flatten chunks) in
    go (find magic buf) refl
      (preamble_loop-Opened (buf ++ chunk) chunks i h.1 (ap (find magic) assoc ∙ f) lo hi)
  where
    go :
        (o : Option ℕ)
        → find magic buf ≡ o
        → Opened ((buf ++ chunk) ++ flatten chunks) i (preamble_loop (buf ++ chunk) chunks)
        → Opened (buf ++ flatten (chunk ∷ chunks)) i (preamble_loop buf (chunk ∷ chunks))
    go (some j) e next =
        let same : some j ≡ some i =
          sym (find-append magic buf (chunk ++ flatten chunks) j e) ∙ f in
        search-found buf (chunk ∷ chunks)
          (if is_nil chunk then cut_off else preamble_loop (buf ++ chunk) chunks) i (e ∙ same) lo
    go none e next =
        let early = find-beyond buf (chunk ++ flatten chunks) i e f in
        let on : preamble_loop buf (chunk ∷ chunks) ≡ preamble_loop (buf ++ chunk) chunks =
          search-none buf (chunk ∷ chunks)
            (if is_nil chunk then cut_off else preamble_loop (buf ++ chunk) chunks) e
            (omega (arith, early, hi))
          ∙ ap (λ b. if b then cut_off else preamble_loop (buf ++ chunk) chunks) h.0 in
        subst (Opened (buf ++ (chunk ++ flatten chunks)) i) (sym on) (
          subst (λ w. Opened w i (preamble_loop (buf ++ chunk) chunks))
            (append_assoc buf chunk (flatten chunks)) next)

search-early :
    (buf : Bytes) (chunks : List Bytes) (rest : Opening) (i : ℕ)
    → find magic buf ≡ some i
    → i < 4
    → (rest ≡ no_header) ⊎ (rest ≡ cut_off)
    → (search buf chunks rest ≡ no_header) ⊎ (search buf chunks rest ≡ cut_off)
search-early buf chunks rest i f h k =
    let narrow : leb 4 i ≡ false = ground arith in
    elim (Bool-cases (ltb max_preamble (length buf))) [
      | inl e ↦ inl (rw (f, search, narrow, e))
      | inr e ↦
          subst (λ o. (o ≡ no_header) ⊎ (o ≡ cut_off))
            (sym (let same : search buf chunks rest ≡ rest = rw (f, search, narrow, e) in same)) k
    ]

-- A magic that starts among the first four bytes ends the connection: no header is found, whatever
-- follows, though the search goes on for 64 KiB.
pub preamble_loop-early :
    (buf : Bytes) (chunks : List Bytes) (i : ℕ)
    → find magic buf ≡ some i
    → i < 4
    → (preamble_loop buf chunks ≡ no_header) ⊎ (preamble_loop buf chunks ≡ cut_off)
unfolding preamble_loop
preamble_loop-early buf [] i f h = search-early buf [] cut_off i f h (inr refl)
preamble_loop-early buf (chunk ∷ chunks) i f h =
    let next = preamble_loop-early (buf ++ chunk) chunks i (find-append magic buf chunk i f) h in
    search-early buf (chunk ∷ chunks)
      (if is_nil chunk then cut_off else preamble_loop (buf ++ chunk) chunks) i f h
      (chosen (is_nil chunk) (preamble_loop (buf ++ chunk) chunks) next)
  where
    chosen :
        (b : Bool) (o : Opening)
        → (o ≡ no_header) ⊎ (o ≡ cut_off)
        → ((if b then cut_off else o) ≡ no_header) ⊎ ((if b then cut_off else o) ≡ cut_off)
    chosen true o k = inr refl
    chosen false o k = k
