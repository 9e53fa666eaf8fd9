-- ===== src/Rtsp/Dispatch/State.antt =====
-- What holds of a connection of dvrbridge/rtsp/server.py over every sequence of events.
use Prim.Native.String.{String}
use dvrbridge.Base.{
  ℕ, Bool, true, false, Option, none, some, List, [], ◌∷◌, ◌≡◌, refl, sym, ap, ◌∙◌, subst, arith,
  Bool-cases, inl, inr,
}
use dvrbridge.Hub.Registry.{StreamHub, has}
use dvrbridge.Rtsp.{
  Proto, over_tcp, over_udp, over_other, Transport, Connection, new_connection, tcp_channels,
  client_port,
}
use dvrbridge.Rtsp.Requests.{
  Moment, setup_tcp, setup_udp, setup_transport, on_setup, release_transport, close_socket,
  session_or, is_stopped, is_none,
}
use dvrbridge.Rtsp.Bounds.{AreChannels, IsPort, tcp_channels-AreChannels, Asked, client_port-Asked}

-- The sockets that a transport stands for.
abbrev pub sockets_of : Option (ℕ × ℕ) → List ℕ
sockets_of none = []
sockets_of (some (i, p)) = i ∷ []

-- At most one transport.
abbrev pub AreApart : Option (ℕ × ℕ) → Option (ℕ × ℕ) → Type 0
AreApart (some a) (some b) = ⊥
AreApart _ _ = Unit

-- What a pump needs: a stream, and a transport.
abbrev pub is_ready : Option String → Option (ℕ × ℕ) → Option (ℕ × ℕ) → Bool
is_ready none _ _ = false
is_ready (some name) none none = false
is_ready (some name) none (some b) = true
is_ready (some name) (some a) _ = true

pub record Consistent (c : Connection) : Type 0 where
  pub sockets : c.sockets ≡ sockets_of c.udp
  pub channels : AreChannels c.interleaved
  pub port : IsPort c.udp
  pub apart : AreApart c.interleaved c.udp
  pub ready : is_stopped c.play_task ≡ false → is_ready c.stream c.interleaved c.udp ≡ true
  pub session : is_none c.stream ≡ false → is_none c.session_id ≡ false

pub new_connection-Consistent : (hub : StreamHub) → Consistent (new_connection hub)
unfolding new_connection is_stopped is_none
new_connection-Consistent hub = record {
  sockets = refl;
  channels = tt;
  port = tt;
  apart = tt;
  ready = λ e. cc e;
  session = λ e. cc e;
}

-- A connection with no transport and no pump, as it is behind `_release_transport`.
pub record Free (c : Connection) : Type 0 where
  pub no_sockets : c.sockets ≡ []
  pub no_channels : c.interleaved ≡ none
  pub no_udp : c.udp ≡ none

pub close_socket-head : (i : ℕ) → close_socket i (i ∷ []) ≡ []
close_socket-head i = ground arith

pub release_transport-Free : (c : Connection) → Consistent c → Free (release_transport c)
unfolding release_transport
release_transport-Free c h = go c.udp refl
  where
    go : (u : Option (ℕ × ℕ)) → c.udp ≡ u → Free (release_transport c)
    go none e =
        rw (e, release_transport)
          (record { no_sockets = h.sockets ∙ ap sockets_of e; no_channels = refl; no_udp = e })
    go (some (i, p)) e =
        rw (e, release_transport)
          (record {
            no_sockets = ap (close_socket i) (h.sockets ∙ ap sockets_of e) ∙ close_socket-head i;
            no_channels = refl;
            no_udp = refl;
          })

-- What `_release_transport` leaves alone.
pub release_transport-kept :
    (c : Connection)
    → ((release_transport c).play_task ≡ c.play_task)
      × ((release_transport c).stream ≡ c.stream)
      × ((release_transport c).session_id ≡ c.session_id)
unfolding release_transport
release_transport-kept c = go c.udp refl
  where
    go :
        (u : Option (ℕ × ℕ))
        → c.udp ≡ u
        → ((release_transport c).play_task ≡ c.play_task)
          × ((release_transport c).stream ≡ c.stream)
          × ((release_transport c).session_id ≡ c.session_id)
    go none e = rw (e, release_transport) (refl, refl, refl)
    go (some (i, p)) e = rw (e, release_transport) (refl, refl, refl)

pub Consistent-Free :
    (c : Connection)
    → Free c
    → is_stopped c.play_task ≡ true
    → (is_none c.stream ≡ false → is_none c.session_id ≡ false)
    → Consistent c
Consistent-Free c f q s = record {
  sockets = f.no_sockets ∙ sym (ap sockets_of f.no_udp);
  channels = subst AreChannels (sym f.no_channels) tt;
  port = subst IsPort (sym f.no_udp) tt;
  apart = subst (λ a. AreApart a c.udp) (sym f.no_channels) tt;
  ready = λ e. cc (sym q ∙ e);
  session = s;
}

-- A stopped connection with a stream and a session, and no transport yet.
record SetUp (c : Connection) : Type 0 where
  free : Free c
  is_stopped_play : is_stopped c.play_task ≡ true
  has_session : is_none c.session_id ≡ false

module _ (c : Connection) (u : SetUp c) where
  SetUp-Consistent : Consistent c
  SetUp-Consistent = Consistent-Free c u.free u.is_stopped_play (λ _. u.has_session)

  setup_tcp-Consistent : (t : Transport) → Consistent (setup_tcp t c).1
  unfolding setup_tcp
  setup_tcp-Consistent t = record {
    sockets = u.free.no_sockets ∙ sym (ap sockets_of u.free.no_udp);
    channels = tcp_channels-AreChannels t.fields (0, 1) (omega arith);
    port = subst IsPort (sym u.free.no_udp) tt;
    apart = subst (λ b. AreApart (some (tcp_channels t.fields (0, 1)).0) b) (sym u.free.no_udp) tt;
    ready = λ e. cc (sym u.is_stopped_play ∙ e);
    session = λ _. u.has_session;
  }

  setup_udp-Consistent : (m : Moment) (t : Transport) → Consistent (setup_udp m t c).1
  unfolding setup_udp
  setup_udp-Consistent m t =
      go (client_port t.fields none) refl (client_port-Asked t.fields none tt) m.socket refl
    where
      go :
          (o : Option (Option ℕ))
          → client_port t.fields none ≡ o
          → Asked o
          → (k : Option ℕ) → m.socket ≡ k
          → Consistent (setup_udp m t c).1
      go none e a k f = rw (e, setup_udp) SetUp-Consistent
      go (some none) e a k f = rw (e, setup_udp) SetUp-Consistent
      go (some (some p)) e a none f = rw (e, setup_udp, f) SetUp-Consistent
      go (some (some p)) e a (some i) f =
          rw (e, setup_udp, f)
            (record {
              sockets = ap (λ t. i ∷ t) u.free.no_sockets;
              channels = subst AreChannels (sym u.free.no_channels) tt;
              port = a;
              apart = subst (λ b. AreApart b (some (i, p))) (sym u.free.no_channels) tt;
              ready = λ e. cc (sym u.is_stopped_play ∙ e);
              session = λ _. u.has_session;
            })

  setup_transport-Consistent : (m : Moment) (t : Transport) → Consistent (setup_transport m t c).1
  unfolding setup_transport
  setup_transport-Consistent m t = go t.proto refl
    where
      go : (o : Proto) → t.proto ≡ o → Consistent (setup_transport m t c).1
      go over_tcp e = rw (e, setup_transport) (setup_tcp-Consistent t)
      go over_udp e = rw (e, setup_transport) (setup_udp-Consistent m t)
      go over_other e = rw (e, setup_transport) SetUp-Consistent

module _ (m : Moment) (c : Connection) (h : Consistent c) where
  -- The transport of a connection that does not play is released.
  pub released-Consistent : is_stopped c.play_task ≡ true → Consistent (release_transport c)
  released-Consistent e =
      let kept = release_transport-kept c in
      Consistent-Free (release_transport c) (release_transport-Free c h) (ap is_stopped kept.0 ∙ e)
        (λ k. ap is_none kept.2 ∙ h.session (sym (ap is_none kept.1) ∙ k))

  pub on_setup-Consistent : (path : String) (t : Transport) → Consistent (on_setup m path t c).1
  unfolding on_setup
  on_setup-Consistent path t = elim (Bool-cases (is_stopped c.play_task)) [
    | inr e ↦ rw e h
    | inl e ↦
        let free = release_transport-Free c h in
        let kept = release_transport-kept c in
        let stops = ap is_stopped kept.0 ∙ e in
        elim (Bool-cases (has path c.hub)) [
          | inr f ↦ rw (e, f) (released-Consistent e)
          | inl f ↦
              rw (e, f)
                (setup_transport-Consistent
                  (record (release_transport c) {
                    stream = some path;
                    session_id = some (session_or c.session_id m.token);
                  })
                  (record {
                    free = record {
                      no_sockets = free.no_sockets;
                      no_channels = free.no_channels;
                      no_udp = free.no_udp;
                    };
                    is_stopped_play = stops;
                    has_session = unfold is_none in refl;
                  })
                  m t)
        ]
  ]
