-- ===== src/Hub/Run/Backoff.antt =====
-- The reconnect delay of `Stream._run` in dvrbridge/hub.py over consecutive failures.
use native.Mathlib.Nat.{pow-suc}
use dvrbridge.Base.{
  ℕ, zero, suc, ◌-◌, ◌*◌, ◌^◌, ◌≤◌, min, true, false, List, [], ◌∷◌, ltb, length, ◌≡◌, refl, sym,
  ap, ◌∙◌, arith, is_nil, Bool-cases, inl, inr, ◌⊎◌,
}
use dvrbridge.Hub.{streaming, waiting, Stream}
use dvrbridge.Hub.Run.{
  Event, driver_ended, resumed, backoff_cap, stable_reset, task_event, step, run, enter,
  disconnected, idle_expired, next_backoff,
}

-- A failure: when the driver ended, and when the wait behind it did.
abbrev pub failures : List (ℕ × ℕ) → List Event
failures [] = []
failures ((ended, again) ∷ rest) = driver_ended ended ∷ resumed again ∷ failures rest

-- No connection lasted longer than the time that resets the backoff.
abbrev pub AreShort : ℕ → List (ℕ × ℕ) → Type 0
AreShort started [] = Unit
AreShort started ((ended, again) ∷ rest) = (ended - started ≤ stable_reset) × AreShort again rest

abbrev pub last_start : ℕ → List (ℕ × ℕ) → ℕ
last_start started [] = started
last_start started ((ended, again) ∷ rest) = last_start again rest

-- The stream is kept up: by its configuration or by a subscriber.
abbrev pub IsWanted : Stream → Type 0
IsWanted s = (s.always_on ≡ true) ⊎ (is_nil s.subs ≡ false)

IsWanted-idle_expired : (now : ℕ) (s : Stream) → IsWanted s → idle_expired now s ≡ false
unfolding idle_expired
IsWanted-idle_expired now s w = ground arith

disconnected-IsWanted :
    (now started b : ℕ) (s : Stream)
    → IsWanted s
    → now - started ≤ stable_reset
    → ((disconnected now started b s).task ≡ waiting b) × IsWanted (disconnected now started b s)
unfolding disconnected
disconnected-IsWanted now started b s w h = rw (IsWanted-idle_expired now s w) (ground arith, w)

enter-IsWanted :
    (now b : ℕ) (s : Stream)
    → IsWanted s
    → ((enter now b s).task ≡ streaming now b) × IsWanted (enter now b s)
unfolding enter
enter-IsWanted now b s w = rw (IsWanted-idle_expired now s w) (refl, w)

capped_times : (c k : ℕ) → backoff_cap ≤ c → 1 ≤ k → backoff_cap ≤ c * k
capped_times c zero h p = absurd (omega arith)
capped_times c (suc k) h p = omega arith

doubled : (b k : ℕ) → 1 ≤ k → min (next_backoff b * k) backoff_cap ≡ min (b * (k * 2)) backoff_cap
unfolding next_backoff
doubled b k h = elim (Bool-cases (ltb (b * 2) backoff_cap)) [
  | inl e ↦ let small : min (b * 2) backoff_cap ≡ b * 2 = ground arith in rw small (omega arith)
  | inr e ↦
      let big : min (b * 2) backoff_cap ≡ backoff_cap = ground arith in
      rw big (omega (arith, h, capped_times (b * 2) k (ground arith) h))
]

power_pos : (n : ℕ) → 1 ≤ 2 ^ n
power_pos zero = omega arith
power_pos (suc n) = omega (arith, pow-suc 2 n, power_pos n)

ended_step :
    (now started b : ℕ) (s : Stream)
    → s.task ≡ streaming started b
    → step (driver_ended now) s ≡ disconnected now started b s
unfolding step
ended_step now started b s q =
    ap (λ t. task_event (driver_ended now) t s) q ∙ unfold task_event in refl

resumed_step :
    (now b : ℕ) (s : Stream)
    → s.task ≡ waiting b
    → step (resumed now) s ≡ enter now (next_backoff b) s
unfolding step
resumed_step now b s q = ap (λ t. task_event (resumed now) t s) q ∙ unfold task_event in refl

-- One failure, and the connection behind it.
failure_step :
    (ended again started b : ℕ) (s : Stream)
    → s.task ≡ streaming started b
    → IsWanted s
    → ended - started ≤ stable_reset
    → ((step (resumed again) (step (driver_ended ended) s)).task ≡ streaming again (next_backoff b))
      × IsWanted (step (resumed again) (step (driver_ended ended) s))
failure_step ended again started b s q w h =
    let down = disconnected-IsWanted ended started b s w h in
    rw
      (ended_step ended started b s q, resumed_step again b (disconnected ended started b s) down.0)
      (enter-IsWanted again (next_backoff b) (disconnected ended started b s) down.1)

-- While a stream is wanted and no connection lasts longer than 30 seconds, the delay before the next
-- reconnect is doubled by each failure, up to 15 seconds, and the stream is connected again.
pub run-failures :
    (fs : List (ℕ × ℕ)) (s : Stream) (started b : ℕ)
    → s.task ≡ streaming started b
    → b ≤ backoff_cap
    → IsWanted s
    → AreShort started fs
    → (run (failures fs) s).task
      ≡ streaming (last_start started fs) (min (b * 2 ^ length fs) backoff_cap)
unfolding run
run-failures [] s started b q h w sh = q ∙ ap (streaming started) (omega arith)
run-failures ((ended, again) ∷ fs) s started b q h w sh =
    let next = failure_step ended again started b s q w sh.0 in
    run-failures fs (step (resumed again) (step (driver_ended ended) s)) again (next_backoff b)
      next.0 (unfold next_backoff in omega arith) next.1 sh.1
    ∙ ap (streaming (last_start again fs)) (
        doubled b (2 ^ length fs) (power_pos (length fs))
        ∙ ap (λ t. min (b * t) backoff_cap) (sym (pow-suc 2 (length fs))))
