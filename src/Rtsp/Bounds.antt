-- ===== src/Rtsp/Bounds.antt =====
-- The bounds that the reading of a `Transport` header keeps, in dvrbridge/rtsp/server.py.
use dvrbridge.Base.{
  ℕ, ◌+◌, ◌≤◌, Bool, false, ◌&&◌, Option, none, some, List, [], ◌∷◌, leb, arith, Bool-cases, inl,
  inr,
}
use dvrbridge.Rtsp.{
  ℤ, pos, Field, interleaved_field, client_port_field, byte_pair, channels, tcp_channels, port,
  client_port,
}

abbrev pub AreChannels : Option (ℕ × ℕ) → Type 0
AreChannels none = Unit
AreChannels (some (lo, hi)) = (lo ≤ 255) × (hi ≤ 255)

abbrev pub IsPort : Option (ℕ × ℕ) → Type 0
IsPort none = Unit
IsPort (some (i, p)) = (1 ≤ p) × (p ≤ 65534)

byte_pair-AreChannels : (lo hi : ℕ) → AreChannels (byte_pair lo hi)
unfolding byte_pair
byte_pair-AreChannels lo hi = elim (Bool-cases (leb lo 255 && leb hi 255)) [
  | inl e ↦ rw e (ground arith)
  | inr e ↦ rw e tt
]

channels-AreChannels : (a : Option ℤ) (b : Option (Option ℤ)) → AreChannels (channels a b)
unfolding channels
channels-AreChannels (some (pos lo)) none = byte_pair-AreChannels lo (lo + 1)
channels-AreChannels (some (pos lo)) (some (some (pos hi))) = byte_pair-AreChannels lo hi
channels-AreChannels _ _ = tt

pub tcp_channels-AreChannels :
    (fields : List Field) (cur : ℕ × ℕ)
    → AreChannels (some cur)
    → AreChannels (some (tcp_channels fields cur).0)
unfolding tcp_channels
tcp_channels-AreChannels [] cur h = h
tcp_channels-AreChannels (interleaved_field a b ∷ fields) cur h =
    go (channels a b) (channels-AreChannels a b) (λ p k. tcp_channels-AreChannels fields p k)
  where
    go :
        (o : Option (ℕ × ℕ))
        → AreChannels o
        → ((p : ℕ × ℕ) → AreChannels (some p) → AreChannels (some (tcp_channels fields p).0))
        → AreChannels (
            some
              (elim o as (λ _. (ℕ × ℕ) × Bool) [
                | none ↦ (cur, false)
                | some pair ↦ tcp_channels fields pair
              ]).0)
    go none k ih = h
    go (some p) k ih = ih p k
tcp_channels-AreChannels (_ ∷ fields) cur h = tcp_channels-AreChannels fields cur h

abbrev pub InRange : Option ℕ → Type 0
InRange none = Unit
InRange (some p) = (1 ≤ p) × (p ≤ 65534)

port-InRange : (a : Option ℤ) → InRange (port a)
unfolding port
port-InRange (some (pos p)) = elim (Bool-cases (leb 1 p && leb p 65534)) [
  | inl e ↦ rw e (ground arith)
  | inr e ↦ rw e tt
]
port-InRange _ = tt

abbrev pub Asked : Option (Option ℕ) → Type 0
Asked none = Unit
Asked (some o) = InRange o

pub client_port-Asked :
    (fields : List Field) (cur : Option ℕ) → InRange cur → Asked (client_port fields cur)
unfolding client_port
client_port-Asked [] cur h = h
client_port-Asked (client_port_field a ∷ fields) cur h =
    go (port a) (port-InRange a) (λ p k. client_port-Asked fields p k)
  where
    go :
        (o : Option ℕ)
        → InRange o
        → ((p : Option ℕ) → InRange p → Asked (client_port fields p))
        → Asked (elim o as (λ _. Option (Option ℕ)) [
          | none ↦ none
          | some p ↦ client_port fields (some p)
        ])
    go none k ih = tt
    go (some p) k ih = ih (some p) k
client_port-Asked (_ ∷ fields) cur h = client_port-Asked fields cur h
