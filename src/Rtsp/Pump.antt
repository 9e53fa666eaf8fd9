-- ===== src/Rtsp/Pump.antt =====
-- `ClientConnection._pump` of dvrbridge/rtsp/server.py over TCP: from the frames of a subscriber's queue to the bytes on
-- the connection.
use dvrbridge.Base.{
  ℕ, ◌+◌, ◌<◌, ◌^◌, Option, none, some, List, [], ◌∷◌, ◌++◌, ◌>>=◌, Bytes, All, All-imply, ◌≡◌,
  refl, sym, ap, ◌∙◌, subst, append_assoc, append-nil, arith,
}
use dvrbridge.Hub.{HubFrame}
use dvrbridge.Rtp.{H264Packetizer, Out, packetize}
use dvrbridge.Rtp.Units.{IsReady}
use dvrbridge.Rtp.Receiver.{receive_all}
use dvrbridge.Rtp.RoundTrip.{IsPlain, present}
use dvrbridge.Rtp.Session.{Sent, packetize-Sent, receive_all-append}
use dvrbridge.Rtsp.Interleaved.{interleave, Frames, end, next, interleave-Frames}

-- one frame, as the bytes that are written at once; `none` is an exception
unfoldable pub pump_frame : ℕ → HubFrame → H264Packetizer → Option (Bytes × H264Packetizer)
pump_frame ch frame p = do
  o ← packetize frame.nals frame.ts90k p
  blob ← interleave ch o.1
  some (blob, o.0)

-- the loop, for the frames that it takes from the queue
unfoldable pub pump : ℕ → List HubFrame → H264Packetizer → Option (Bytes × H264Packetizer)
unfolding pump_frame
pump ch [] p = some ([], p)
pump ch (frame ∷ frames) p = do
  r ← pump_frame ch frame p
  more ← pump ch frames r.1
  some (r.0 ++ more.0, more.1)

abbrev pub nals_of : List HubFrame → List Bytes
nals_of [] = []
nals_of (f ∷ fs) = f.nals ++ nals_of fs

abbrev pub AllPlain : List HubFrame → Type 0
AllPlain = All (λ f. All IsPlain f.nals)

Frames-append :
    (ch : ℕ) (mid rest : Bytes) (xs ys : List Bytes) (b : Bytes)
    → Frames ch mid xs b
    → Frames ch rest ys mid
    → Frames ch rest (xs ++ ys) b
Frames-append ch mid rest [] ys b end g = g
Frames-append ch mid rest (x ∷ xs) ys b (next _ _ _ more e f) g =
    next x (xs ++ ys) b more e (Frames-append ch mid rest xs ys more f g)

present-append : (xs ys : List Bytes) → present (xs ++ ys) ≡ present xs ++ present ys
present-append [] ys = refl
present-append ([] ∷ xs) ys = present-append xs ys
present-append ((b ∷ x) ∷ xs) ys = ap (λ t. (b ∷ x) ∷ t) (present-append xs ys)

-- What the pump writes for these frames: bytes that hold packets, from which a receiver that has seen `seen`
-- assembles the NALs of the frames as well.
pub record Pumped (ch : ℕ) (frames : List HubFrame) (p : H264Packetizer) (seen : List Bytes)
    (rest : Bytes) : Type 0 where
  pub blob : Bytes
  pub behind : H264Packetizer
  pub packets : List Bytes
  pub writes : pump ch frames p ≡ some (blob, behind)
  pub framed : Frames ch rest packets (blob ++ rest)
  pub assembled : receive_all packets (seen, none) ≡ some (seen ++ present (nals_of frames), none)

pub pump-Pumped :
    (ch : ℕ) (frames : List HubFrame) (p : H264Packetizer) (seen : List Bytes) (rest : Bytes)
    → ch < 256
    → IsReady p
    → p.mtu + 12 < 2 ^ 16
    → AllPlain frames
    → Pumped ch frames p seen rest
pump-Pumped ch [] p seen rest c r m h = record {
  blob = [];
  behind = p;
  packets = [];
  writes = unfold pump in refl;
  framed = end;
  assembled = unfold receive_all in ap (λ t. some (t, none)) (sym (append-nil seen));
}
pump-Pumped ch (f ∷ fs) p seen rest c r m h =
    go (packetize-Sent p f.nals f.ts90k seen r h.0) (λ o sent.
      pump-Pumped ch fs o.0 (seen ++ present f.nals) rest c sent.ready (omega (arith, m, sent.mtu))
        h.1)
  where
    go :
        (o : Out) × (packetize f.nals f.ts90k p ≡ some o) × Sent p f.nals seen o
        → ((o : Out) → Sent p f.nals seen o → Pumped ch fs o.0 (seen ++ present f.nals) rest)
        → Pumped ch (f ∷ fs) p seen rest
    go (o, is, sent) ih =
        let more = ih o sent in
        let framed =
          interleave-Frames ch o.1 (more.blob ++ rest) c
            (All-imply _ _ (λ pkt n. omega (arith, n, m)) o.1 sent.sizes) in
        record {
          blob = framed.0 ++ more.blob;
          behind = more.behind;
          packets = o.1 ++ more.packets;
          writes = unfold pump pump_frame in rw (is, framed.1, more.writes) refl;
          framed =
              subst (Frames ch rest (o.1 ++ more.packets))
                (sym (append_assoc framed.0 more.blob rest))
                (Frames-append ch (more.blob ++ rest) rest o.1 more.packets
                  (framed.0 ++ (more.blob ++ rest)) framed.2 more.framed);
          assembled =
              receive_all-append o.1 more.packets (seen, none)
              ∙ rw sent.assembled (more.assembled ∙ ap (λ t. some (t, none)) joined);
        }
      where
        joined :
            (seen ++ present f.nals) ++ present (nals_of fs)
            ≡ seen ++ present (f.nals ++ nals_of fs)
        joined =
            append_assoc seen (present f.nals) (present (nals_of fs))
            ∙ ap (λ t. seen ++ t) (sym (present-append f.nals (nals_of fs)))
