-- ===== src/Hub/Delivery.antt =====
-- One subscriber of dvrbridge/hub.py over time: frames offered by `_on_frame`, and frames taken from
-- its queue by the media pump.
use dvrbridge.Base.{
  ◌≤◌, Bool, true, false, List, [], ◌∷◌, ◌++◌, ltb, length, ◌≡◌, refl, sym, ap, subst, ◌∙◌, arith,
  append-nil, append_assoc, length-append,
}
use dvrbridge.Hub.{HubFrame, Subscriber, queue_size, offer}

pub data Traffic : Type 0 where
  offered : HubFrame → Traffic
  taken : Traffic

-- `await sub.queue.get()` on a queue that is not empty; on an empty one the pump waits
unfoldable pub pop_queue : List HubFrame → List HubFrame
pop_queue [] = []
pop_queue (f ∷ fs) = fs

unfoldable pub deliver : Traffic → Subscriber → Subscriber
unfolding offer pop_queue
deliver (offered f) sub = offer f sub
deliver taken sub = record sub { queue = pop_queue sub.queue }

unfoldable pub deliver_all : List Traffic → Subscriber → Subscriber
unfolding deliver
deliver_all [] sub = sub
deliver_all (t ∷ ts) sub = deliver_all ts (deliver t sub)

-- The frames offered, each with whether the queue grew by it.
pub outcomes : List Traffic → Subscriber → List (Bool × HubFrame)
outcomes [] sub = []
outcomes (offered f ∷ ts) sub =
    (ltb (length sub.queue) (length (offer f sub).queue), f) ∷ outcomes ts (offer f sub)
outcomes (taken ∷ ts) sub = outcomes ts (deliver taken sub)

-- Behind every gap, and at the start if `gap` says so, the first frame queued is a keyframe.
abbrev pub IsDecodable : Bool → List (Bool × HubFrame) → Type 0
IsDecodable gap [] = Unit
IsDecodable gap ((true, f) ∷ rest) = (gap ≡ true → f.keyframe ≡ true) × IsDecodable false rest
IsDecodable gap ((false, f) ∷ rest) = IsDecodable true rest

-- The two ways an offer can end.
pub data Offered (f : HubFrame) (sub : Subscriber) : Type 0 where
  queued :
      (sub.waiting_key ≡ true → f.keyframe ≡ true)
      → (offer f sub).queue ≡ sub.queue ++ f ∷ []
      → (offer f sub).waiting_key ≡ false
      → Offered f sub
  skipped : (offer f sub).queue ≡ sub.queue → (offer f sub).waiting_key ≡ true → Offered f sub

Offered-offer : (f : HubFrame) (sub : Subscriber) → Offered f sub
Offered-offer f sub =
    go sub.waiting_key refl f.keyframe refl (ltb (length sub.queue) queue_size) refl
  where
    go :
        (w : Bool)
        → sub.waiting_key ≡ w
        → (k : Bool) → f.keyframe ≡ k
        → (r : Bool) → ltb (length sub.queue) queue_size ≡ r
        → Offered f sub
    go true ew true ek true er =
        queued (λ _. ek) (unfold offer in rw (ew, ek, er)) (unfold offer in rw (ew, ek, er))
    go true ew true ek false er =
        skipped (unfold offer in rw (ew, ek, er)) (unfold offer in rw (ew, ek, er))
    go true ew false ek r er = skipped (unfold offer in rw (ew, ek)) (unfold offer in rw (ew, ek))
    go false ew k ek true er =
        queued (λ w. cc w) (unfold offer in rw (ew, er)) (unfold offer in rw (ew, er))
    go false ew k ek false er = skipped (unfold offer in rw (ew, er)) (unfold offer in rw (ew, er))

grown : (q q' : List HubFrame) (f : HubFrame) → q' ≡ q ++ f ∷ [] → ltb (length q) (length q') ≡ true
grown q q' f e = rw e (ground (arith, length-append q (f ∷ [])))

same : (q q' : List HubFrame) → q' ≡ q → ltb (length q) (length q') ≡ false
same q q' e = rw e (ground arith)

-- Whatever frames are offered and taken, in any order, what a subscriber gets after a gap begins
-- with a keyframe; a new subscriber starts in a gap.
pub outcomes-IsDecodable :
    (ts : List Traffic) (sub : Subscriber) → IsDecodable sub.waiting_key (outcomes ts sub)
unfolding outcomes deliver
outcomes-IsDecodable [] sub = tt
outcomes-IsDecodable (taken ∷ ts) sub = outcomes-IsDecodable ts (deliver taken sub)
outcomes-IsDecodable (offered f ∷ ts) sub =
    go (Offered-offer f sub) (outcomes-IsDecodable ts (offer f sub))
  where
    go :
        Offered f sub
        → IsDecodable (offer f sub).waiting_key (outcomes ts (offer f sub))
        → IsDecodable sub.waiting_key (outcomes (offered f ∷ ts) sub)
    go (queued k q w) ih =
        rw (grown sub.queue (offer f sub).queue f q)
          (k, subst (λ g. IsDecodable g (outcomes ts (offer f sub))) w ih)
    go (skipped q w) ih =
        rw (same sub.queue (offer f sub).queue q)
          (subst (λ g. IsDecodable g (outcomes ts (offer f sub))) w ih)

-- The frames that were queued, and those that were taken.
abbrev pub accepted : List (Bool × HubFrame) → List HubFrame
accepted [] = []
accepted ((true, f) ∷ rest) = f ∷ accepted rest
accepted ((false, f) ∷ rest) = accepted rest

head : List HubFrame → List HubFrame
head [] = []
head (f ∷ fs) = f ∷ []

unfoldable pub taken_frames : List Traffic → Subscriber → List HubFrame
unfolding deliver head
taken_frames [] sub = []
taken_frames (offered f ∷ ts) sub = taken_frames ts (offer f sub)
taken_frames (taken ∷ ts) sub = head sub.queue ++ taken_frames ts (deliver taken sub)

head-pop_queue : (q : List HubFrame) → head q ++ pop_queue q ≡ q
unfolding head pop_queue
head-pop_queue [] = refl
head-pop_queue (f ∷ fs) = refl

-- The pump takes the frames that were queued, each once and in order, and the rest is in the queue.
pub taken_frames-accepted :
    (ts : List Traffic) (sub : Subscriber)
    → taken_frames ts sub ++ (deliver_all ts sub).queue ≡ sub.queue ++ accepted (outcomes ts sub)
unfolding taken_frames deliver_all outcomes
taken_frames-accepted [] sub = sym (append-nil sub.queue)
taken_frames-accepted (taken ∷ ts) sub =
    append_assoc (head sub.queue) _ _
    ∙ ap (λ t. head sub.queue ++ t) (taken_frames-accepted ts (deliver taken sub))
    ∙ sym (append_assoc (head sub.queue) (pop_queue sub.queue) _)
    ∙ ap (λ t. t ++ accepted (outcomes ts (deliver taken sub))) (head-pop_queue sub.queue)
taken_frames-accepted (offered f ∷ ts) sub =
    go (Offered-offer f sub) (taken_frames-accepted ts (offer f sub))
  where
    go :
        Offered f sub
        → taken_frames ts (offer f sub) ++ (deliver_all ts (offer f sub)).queue
          ≡ (offer f sub).queue ++ accepted (outcomes ts (offer f sub))
        → taken_frames (offered f ∷ ts) sub ++ (deliver_all (offered f ∷ ts) sub).queue
          ≡ sub.queue ++ accepted (outcomes (offered f ∷ ts) sub)
    go (queued k q w) ih = rw (grown sub.queue (offer f sub).queue f q) (
        ih
        ∙ ap (λ t. t ++ accepted (outcomes ts (offer f sub))) q
        ∙ append_assoc sub.queue (f ∷ []) _)
    go (skipped q w) ih =
        rw (same sub.queue (offer f sub).queue q)
          (ih ∙ ap (λ t. t ++ accepted (outcomes ts (offer f sub))) q)

offer-length :
    (f : HubFrame) (sub : Subscriber)
    → length sub.queue ≤ queue_size
    → length (offer f sub).queue ≤ queue_size
unfolding offer
offer-length f sub h = ground (arith, length-append sub.queue (f ∷ []))

pop_queue-length : (q : List HubFrame) → length q ≤ queue_size → length (pop_queue q) ≤ queue_size
unfolding pop_queue
pop_queue-length [] h = h
pop_queue-length (f ∷ fs) h = omega arith

-- A queue that holds at most 64 frames never holds more, whatever is offered and taken.
pub deliver_all-length :
    (ts : List Traffic) (sub : Subscriber)
    → length sub.queue ≤ queue_size
    → length (deliver_all ts sub).queue ≤ queue_size
unfolding deliver_all
deliver_all-length [] sub h = h
deliver_all-length (offered f ∷ ts) sub h =
    deliver_all-length ts (offer f sub) (offer-length f sub h)
deliver_all-length (taken ∷ ts) sub h =
    deliver_all-length ts (deliver taken sub) (pop_queue-length sub.queue h)
