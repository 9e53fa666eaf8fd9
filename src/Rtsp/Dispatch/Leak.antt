-- ===== src/Rtsp/Dispatch/Leak.antt =====
-- The subscription of a played stream in dvrbridge/rtsp/server.py, at the end of the play.
use Prim.Native.String.{String}
use dvrbridge.Base.{
  ℕ, true, false, ◌&&◌, Option, none, some, if◌then◌else◌, Bytes, ◌≡◌, refl, ap, ◌∙◌,
}
use dvrbridge.Hub.Run.{subscribe, unsubscribe}
use dvrbridge.Rtsp.{Connection, stopped, created, pumping}
use dvrbridge.Rtsp.Requests.{
  Moment, Reply, refused, ok, on_play, start_play, on_teardown, stop_play, release_transport,
  end_pump, on_stream, is_stopped, is_none,
}
use dvrbridge.Rtsp.Dispatch.{pump_begun, step}

-- The connection behind a PLAY that starts a pump.
abbrev played : Moment → String → Connection → Connection
played m name c = record c {
  sub = some m.new_sub;
  hub = on_stream name (subscribe m.new_sub m.now) c.hub;
  play_task = created;
}

on_play-played :
    (m : Moment) (name : String) (c : Connection)
    → c.stream ≡ some name
    → (is_none c.interleaved && is_none c.udp) ≡ false
    → c.play_task ≡ stopped
    → on_play m c ≡ (ok, played m name c)
unfolding on_play
on_play-played m name c e t p =
    ap
      (λ n. elim n as (λ _. Reply × Connection) [
        | none ↦ (refused 455, c)
        | some name ↦
            if is_none c.interleaved && is_none c.udp
            then (refused 455, c)
            else (ok, start_play m name c)
      ])
      e
    ∙ ap (λ b. if b then (refused 455, c) else (ok, start_play m name c)) t
    ∙ ap (λ x. (ok, x)) (started (unfold is_stopped in ap is_stopped p))
  where
    started : is_stopped c.play_task ≡ true → start_play m name c ≡ played m name c
    started k = unfold start_play in rw k

release_transport-hub : (c : Connection) → (release_transport c).hub ≡ c.hub
unfolding release_transport
release_transport-hub c = go c.udp refl
  where
    go : (u : Option (ℕ × ℕ)) → c.udp ≡ u → (release_transport c).hub ≡ c.hub
    go none e = rw (e, release_transport)
    go (some (i, p)) e = rw (e, release_transport)

-- On a connection that is set up and has no play task: a TEARDOWN of a PLAY whose pump has begun leaves
-- the stream as after its subscription and the unsubscription of the same subscriber.
pub on_teardown-pumping :
    (m later : Moment) (name : String) (c : Connection) (auth : Option Bytes)
    → c.stream ≡ some name
    → (is_none c.interleaved && is_none c.udp) ≡ false
    → c.play_task ≡ stopped
    → (on_teardown later (step auth pump_begun (on_play m c).1)).1.hub
      ≡ on_stream name
          (unsubscribe m.new_sub later.now)
          (on_stream name (subscribe m.new_sub m.now) c.hub)
unfolding on_teardown step stop_play
on_teardown-pumping m later name c auth e t p = rw (on_play-played m name c e t p) (
    release_transport-hub (stop_play later.now (record (played m name c) { play_task = pumping }))
    ∙ unpumped (record (played m name c) { play_task = pumping }) e)
  where
    unpumped :
        (d : Connection)
        → d.stream ≡ some name
        → (end_pump later.now (record d { sub = some m.new_sub })).hub
          ≡ on_stream name (unsubscribe m.new_sub later.now) d.hub
    unpumped d q = unfold end_pump in rw q

-- On a connection that is set up and has no play task: a TEARDOWN that comes before the pump has begun
-- leaves the stream as after the subscription, with the subscriber on it.
pub on_teardown-created :
    (m later : Moment) (name : String) (c : Connection)
    → c.stream ≡ some name
    → (is_none c.interleaved && is_none c.udp) ≡ false
    → c.play_task ≡ stopped
    → (on_teardown later (on_play m c).1).1.hub ≡ on_stream name (subscribe m.new_sub m.now) c.hub
unfolding on_teardown stop_play
on_teardown-created m later name c e t p =
    rw (on_play-played m name c e t p)
      (release_transport-hub (record (played m name c) { play_task = stopped }))
