-- ===== src/Rtp/Session.antt =====
-- The packetizer of dvrbridge/rtsp/rtp.py over several access units, against the receiver of its tests.
use dvrbridge.Base.{
  ℕ, ◌+◌, ◌≤◌, Bool, none, some, List, [], ◌∷◌, ◌++◌, ◌≡◌, refl, sym, ◌∙◌, ◌>>=◌, Bytes, length,
  All, bind_cong, bind_assoc,
}
use dvrbridge.Rtp.{H264Packetizer, Out, packetize}
use dvrbridge.Rtp.Units.{
  IsReady, packets, after, after_all, units, after_all-IsReady, packetize-eq-packets,
}
use dvrbridge.Rtp.Fragments.{length-units}
use dvrbridge.Rtp.Receiver.{parse_rtp, receive, receive_all, depacketize, Assembly}
use dvrbridge.Rtp.Wire.{length-packets}
use dvrbridge.Rtp.RoundTrip.{IsPlain, present, receive_all-packets, receive_units-units}

-- What an access unit adds for a receiver that has no NAL under assembly; and what the next one needs.
pub record Sent (p : H264Packetizer) (nals seen : List Bytes) (o : Out) : Type 0 where
  pub ready : IsReady o.0
  pub mtu : o.0.mtu ≡ p.mtu
  pub sizes : All (λ pkt. length pkt ≤ p.mtu + 12) o.1
  pub assembled : receive_all o.1 (seen, none) ≡ some (seen ++ present nals, none)

after_all-mtu : (p : H264Packetizer) (us : List (Bytes × Bool)) → (after_all p us).mtu ≡ p.mtu
after_all-mtu p [] = refl
after_all-mtu p (u ∷ us) = after_all-mtu (after p u.0) us

pub packetize-Sent :
    (p : H264Packetizer) (nals : List Bytes) (ts : ℕ) (seen : List Bytes)
    → IsReady p
    → All IsPlain nals
    → (o : Out) × (packetize nals ts p ≡ some o) × Sent p nals seen o
packetize-Sent p nals ts seen r h = (
  (after_all p (units p.mtu nals), packets p ts (units p.mtu nals)),
  packetize-eq-packets p nals ts r,
  record {
    ready = after_all-IsReady p (units p.mtu nals) r;
    mtu = after_all-mtu p (units p.mtu nals);
    sizes = length-packets p.mtu p ts (units p.mtu nals) (length-units p.mtu nals r.mtu_room);
    assembled =
        receive_all-packets p ts (units p.mtu nals) (seen, none) r
        ∙ receive_units-units p.mtu nals seen r.mtu_room h;
  },
)

pub receive_all-append :
    (xs ys : List Bytes) (a : Assembly)
    → receive_all (xs ++ ys) a ≡ (receive_all xs a >>= receive_all ys)
unfolding receive_all
receive_all-append [] ys a = refl
receive_all-append (x ∷ xs) ys a =
    bind_cong (parse_rtp x) _ _ (λ m.
      bind_cong (receive m.payload a) _ _ (λ a'. receive_all-append xs ys a')
      ∙ sym (bind_assoc (receive m.payload a) (receive_all xs) (receive_all ys)))
    ∙ sym (bind_assoc (parse_rtp x) (λ m. receive m.payload a >>= receive_all xs) (receive_all ys))

pub depacketize-receive_all :
    (pkts nals : List Bytes)
    → receive_all pkts ([], none) ≡ some (nals, none)
    → depacketize pkts ≡ some nals
unfolding depacketize
depacketize-receive_all pkts nals h = rw h refl
