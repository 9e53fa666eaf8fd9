-- ===== src/Pipeline/Relayed.antt =====
-- The access units of a driver in `Stream._on_frame` of dvrbridge/hub.py, up to the queue of a subscriber.
use dvrbridge.Base.{
  if◌then◌else◌, ◌+◌, ◌<◌, ◌≤◌, true, false, none, List, [], ◌∷◌, ◌++◌, map, length, length-append,
  All, ◌≡◌, refl, sym, ap, ◌∙◌, subst, append_assoc, append-nil, arith,
}
use dvrbridge.H264.Join.{join, iter_nals-join}
use dvrbridge.Hub.{
  HubFrame, Subscriber, Stream, cache_params, with_params, put_nowait, offer, queue_size, relay,
  on_frame,
}
use dvrbridge.Hub.Params.{cache_params-SameBut, on_frame-relay}
use dvrbridge.Rtp.RoundTrip.{IsPlain}
use dvrbridge.Rtsp.Pump.{AllPlain}
use dvrbridge.Pipeline.{
  AccessUnit, last_of, before_key, relay_all, IsUnit, Carries, AllCarry, HasPlain, BeginsWithKey,
}
use dvrbridge.Pipeline.Params.{
  cache_params-HasPlain, cache_params-last, with_params-before, with_params-IsPlain,
}

-- What a stream queues for one unit.
record Queued (u : AccessUnit) (s s' : Stream) (sub : Subscriber) : Type 0 where
  item : HubFrame
  then_sub : Subscriber
  subs : s'.subs ≡ then_sub ∷ []
  queue : then_sub.queue ≡ sub.queue ++ item ∷ []
  awake : then_sub.waiting_key ≡ false
  carries : Carries s.sps s.pps u item
  sps : s'.sps ≡ last_of 7 s.sps u.nals
  pps : s'.pps ≡ last_of 8 s.pps u.nals
  plain : All IsPlain item.nals
  params : HasPlain s'

offer-queue :
    (f : HubFrame) (sub : Subscriber)
    → (sub.waiting_key ≡ true → f.keyframe ≡ true)
    → length sub.queue < queue_size
    → ((offer f sub).queue ≡ sub.queue ++ f ∷ []) × ((offer f sub).waiting_key ≡ false)
unfolding offer put_nowait
offer-queue f sub key room = ground arith

relay-Queued :
    (u : AccessUnit) (s : Stream) (sub : Subscriber)
    → IsUnit u
    → HasPlain s
    → s.subs ≡ sub ∷ []
    → (sub.waiting_key ≡ true → u.keyframe ≡ true)
    → length sub.queue < queue_size
    → Queued u s (relay u.nals u.ts90k u.keyframe s) sub
unfolding relay
relay-Queued u s sub is h one key room =
    let cached = cache_params u.nals s in
    let params = cache_params-HasPlain u.nals s is.plain h in
    let last = cache_params-last u.nals s in
    let item : HubFrame = record {
      nals = with_params u.keyframe cached u.nals;
      ts90k = u.ts90k;
      keyframe = u.keyframe;
    } in
    let queued = offer-queue item sub key room in
    record {
      item = item;
      then_sub = offer item sub;
      subs = ap (map (offer item)) ((cache_params-SameBut u.nals s).subs ∙ one);
      queue = queued.0;
      awake = queued.1;
      carries = record {
        nals =
            with_params-before u.keyframe cached u.nals
            ∙ ap
                (λ held.
                  (if u.keyframe then before_key (last_of 7 none u.nals) held cached.pps else [])
                  ++ u.nals)
                last.0
            ∙ ap
                (λ held.
                  (if u.keyframe
                    then before_key (last_of 7 none u.nals) (last_of 7 s.sps u.nals) held
                    else [])
                  ++ u.nals)
                last.1;
        ts90k = refl;
        keyframe = refl;
      };
      sps = last.0;
      pps = last.1;
      plain = with_params-IsPlain u.keyframe cached u.nals params is.plain;
      params = params;
    }

on_frame-Queued :
    (u : AccessUnit) (s : Stream) (sub : Subscriber)
    → IsUnit u
    → HasPlain s
    → s.subs ≡ sub ∷ []
    → (sub.waiting_key ≡ true → u.keyframe ≡ true)
    → length sub.queue < queue_size
    → Queued u s (on_frame (join u.nals) u.ts90k u.keyframe s) sub
on_frame-Queued u s sub is h one key room =
    let split = iter_nals-join u.nals is.clean in
    let relayed : on_frame (join u.nals) u.ts90k u.keyframe s ≡ relay u.nals u.ts90k u.keyframe s =
      on_frame-relay (join u.nals) u.ts90k u.keyframe s (λ e. is.some_nals (sym split ∙ e))
      ∙ ap (λ n. relay n u.ts90k u.keyframe s) split in
    subst (λ s'. Queued u s s' sub) (sym relayed) (relay-Queued u s sub is h one key room)

-- What is queued for these units.
pub record Relayed (us : List AccessUnit) (s : Stream) (sub : Subscriber) : Type 0 where
  pub items : List HubFrame
  pub then_sub : Subscriber
  pub subs : (relay_all us s).subs ≡ then_sub ∷ []
  pub queue : then_sub.queue ≡ sub.queue ++ items
  pub carry : AllCarry s.sps s.pps us items
  pub plain : AllPlain items

key_if : (u : AccessUnit) (us : List AccessUnit) → BeginsWithKey (u ∷ us) → u.keyframe ≡ true
key_if u us k = k

pub relay_all-Relayed :
    (us : List AccessUnit) (s : Stream) (sub : Subscriber)
    → All IsUnit us
    → HasPlain s
    → s.subs ≡ sub ∷ []
    → (sub.waiting_key ≡ true → BeginsWithKey us)
    → length sub.queue + length us ≤ queue_size
    → Relayed us s sub
relay_all-Relayed [] s sub is h one key room = record {
  items = [];
  then_sub = sub;
  subs = unfold relay_all in one;
  queue = sym (append-nil sub.queue);
  carry = tt;
  plain = tt;
}
relay_all-Relayed (u ∷ us) s sub is h one key room =
    go (on_frame-Queued u s sub is.0 h one key (omega arith))
      (λ s' sub' h' one' key' room'. relay_all-Relayed us s' sub' is.1 h' one' key' room')
  where
    s1 : Stream
    s1 = on_frame (join u.nals) u.ts90k u.keyframe s

    go :
        Queued u s s1 sub
        → ((s' : Stream) (sub' : Subscriber)
            → HasPlain s'
            → s'.subs ≡ sub' ∷ []
            → (sub'.waiting_key ≡ true → BeginsWithKey us)
            → length sub'.queue + length us ≤ queue_size
            → Relayed us s' sub')
        → Relayed (u ∷ us) s sub
    go q ih =
        let size : length q.then_sub.queue ≡ length sub.queue + 1 =
          ap length q.queue ∙ length-append sub.queue (q.item ∷ []) in
        let more =
          ih s1 q.then_sub q.params q.subs (λ e. absurd (cc (e, q.awake)))
            (omega (arith, size, room)) in
        record {
          items = q.item ∷ more.items;
          then_sub = more.then_sub;
          subs = unfold relay_all in more.subs;
          queue =
              more.queue
              ∙ ap (λ t. t ++ more.items) q.queue
              ∙ append_assoc sub.queue (q.item ∷ []) more.items;
          carry = (
            q.carries,
            subst (λ held. AllCarry held (last_of 8 s.pps u.nals) us more.items) q.sps
                (subst (λ held. AllCarry s1.sps held us more.items) q.pps more.carry),
          );
          plain = (q.plain, more.plain);
        }
