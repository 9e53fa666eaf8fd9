-- ===== src/Cli/Probe.antt =====
-- The channels that `probe` of dvrbridge/cli.py finds.
use dvrbridge.Base.{
  ℕ, zero, suc, ◌+◌, ◌≤◌, false, Option, none, some, List, [], ◌∷◌, ◌++◌, min, leb, if◌then◌else◌,
  is_nil, ◌≡◌, refl, sym, ap, ◌∙◌, arith, append-nil, append_assoc,
}
use dvrbridge.Cli.{lower_limit, probe_loop, probe}

-- The channels from `ch` on, `n` of them, that answer.
abbrev pub answering : (ℕ → Option (Option ℕ)) → ℕ → ℕ → List ℕ
answering answers ch zero = []
answering answers ch (suc n) = elim (answers ch) [
  | none ↦ answering answers (ch + 1) n
  | some nch ↦ ch ∷ answering answers (ch + 1) n
]

-- Every channel that answers advertises `n` channels.
abbrev pub Advertises : ℕ → (ℕ → Option (Option ℕ)) → Type 0
Advertises n answers = (ch : ℕ) (nch : Option ℕ) → answers ch ≡ some nch → nch ≡ some n

module _ (answers : ℕ → Option (Option ℕ)) where
  answering-none :
      (ch n : ℕ) → answers ch ≡ none → answering answers ch (suc n) ≡ answering answers (ch + 1) n
  answering-none ch n e = rw (e, answering) refl

  answering-some :
      (ch n : ℕ) (nch : Option ℕ)
      → answers ch ≡ some nch
      → answering answers ch (suc n) ≡ ch ∷ answering answers (ch + 1) n
  answering-some ch n nch e = rw (e, answering) refl

  -- One round of the loop.
  probe_loop-none :
      (k ch limit : ℕ) (found : List ℕ)
      → ch ≤ limit
      → answers ch ≡ none
      → probe_loop (suc k) answers ch limit found ≡ probe_loop k answers (ch + 1) limit found
  unfolding probe_loop
  probe_loop-none k ch limit found l e = ground arith

  probe_loop-some :
      (k ch limit : ℕ) (found : List ℕ) (nch : Option ℕ)
      → ch ≤ limit
      → answers ch ≡ some nch
      → probe_loop (suc k) answers ch limit found
        ≡ probe_loop k answers (ch + 1) (lower_limit nch limit) (found ++ ch ∷ [])
  unfolding probe_loop
  probe_loop-some k ch limit found nch l e = ground arith

module _ (answers : ℕ → Option (Option ℕ)) (n : ℕ) (ads : Advertises n answers) where
  -- A limit that the device does not lower.
  lower_limit-low :
      (nch : Option ℕ) (limit : ℕ) → nch ≡ some n → limit ≤ n → lower_limit nch limit ≡ limit
  unfolding lower_limit
  lower_limit-low nch limit e l = rw e (ground arith)

  -- The loop for the `m` channels that are left, with rounds enough.
  probe_loop-answering :
      (k m ch limit : ℕ) (found : List ℕ)
      → limit ≤ n
      → m + ch ≡ limit + 1
      → m ≤ k
      → probe_loop k answers ch limit found ≡ found ++ answering answers ch m
  probe_loop-answering zero zero ch limit found low e r =
      unfold probe_loop in sym (append-nil found)
  probe_loop-answering zero (suc m) ch limit found low e r = absurd (omega arith)
  probe_loop-answering (suc k) zero ch limit found low e r =
      let over : leb ch limit ≡ false = ground arith in
      unfold probe_loop in rw (over, probe_loop) (sym (append-nil found))
  probe_loop-answering (suc k) (suc m) ch limit found low e r =
      go (answers ch) refl
        (λ f. probe_loop-answering k m (ch + 1) limit f low (omega arith) (omega arith))
    where
      go :
          (o : Option (Option ℕ))
          → answers ch ≡ o
          → ((f : List ℕ)
              → probe_loop k answers (ch + 1) limit f ≡ f ++ answering answers (ch + 1) m)
          → probe_loop (suc k) answers ch limit found ≡ found ++ answering answers ch (suc m)
      go none is ih =
          probe_loop-none answers k ch limit found (omega arith) is
          ∙ ih found
          ∙ ap (λ t. found ++ t) (sym (answering-none answers ch m is))
      go (some nch) is ih =
          probe_loop-some answers k ch limit found nch (omega arith) is
          ∙ ap (λ l. probe_loop k answers (ch + 1) l (found ++ ch ∷ []))
              (lower_limit-low nch limit (ads ch nch is) low)
          ∙ ih (found ++ ch ∷ [])
          ∙ append_assoc found (ch ∷ []) (answering answers (ch + 1) m)
          ∙ ap (λ t. found ++ t) (sym (answering-some answers ch m nch is))

  lower_limit-min : (limit : ℕ) → 1 ≤ n → lower_limit (some n) limit ≡ min n limit
  unfolding lower_limit
  lower_limit-min limit pos = ground arith

  -- The first channel answers, and sets the limit for the others.
  probe_loop-first :
      (max_channels : ℕ)
      → answers 1 ≡ some (some n)
      → 1 ≤ n
      → 1 ≤ max_channels
      → probe_loop max_channels answers 1 max_channels [] ≡ answering answers 1 (min n max_channels)
  probe_loop-first zero first pos room = absurd (omega arith)
  probe_loop-first (suc k) first pos room =
      probe_loop-some answers k 1 (suc k) [] (some n) (omega arith) first
      ∙ ap (λ l. probe_loop k answers 2 l (1 ∷ [])) (lower_limit-min (suc k) pos)
      ∙ more (min n (suc k)) (omega arith) (omega arith) (omega arith)
    where
      more :
          (limit : ℕ)
          → 1 ≤ limit
          → limit ≤ n
          → limit ≤ suc k
          → probe_loop k answers 2 limit (1 ∷ []) ≡ answering answers 1 limit
      more zero p l r = absurd (omega arith)
      more (suc m) p l r =
          probe_loop-answering k m 2 (suc m) (1 ∷ []) l (omega arith) (omega arith)
          ∙ sym (answering-some answers 1 m (some n) first)

-- Of a device whose first channel answers, and whose channels advertise a number of at least 1 where they answer, the probe
-- prints exactly the channels that answer, in order, up to that number and its own limit, and returns 0.
pub probe-answering :
    (answers : ℕ → Option (Option ℕ)) (n max_channels : ℕ)
    → Advertises n answers
    → answers 1 ≡ some (some n)
    → 1 ≤ n
    → 1 ≤ max_channels
    → probe answers max_channels ≡ (0, answering answers 1 (min n max_channels))
unfolding probe
probe-answering answers n max_channels ads first pos room =
    rw (probe_loop-first answers n ads max_channels first pos room)
      (go (min n max_channels) (omega arith))
  where
    go :
        (m : ℕ)
        → 1 ≤ m
        → ◌≡◌ {A = ℕ × List ℕ}
            ((if is_nil (answering answers 1 m) then 1 else 0), answering answers 1 m)
            (0, answering answers 1 m)
    go zero p = absurd (omega arith)
    go (suc m) p = rw (answering-some answers 1 m (some n) first) refl
