-- ===== src/Hub.antt =====
-- dvrbridge/hub.py: frames, subscribers, and the fan-out of `Stream._on_frame`. Times are whole
-- milliseconds. A subscriber's identity is its number; the set of subscribers is a list.
pub mod Run
pub mod Delivery
pub mod Params
pub mod Clock
pub mod Registry
mod Tests
use Prim.Native.String.{String}
use dvrbridge.Base.{
  ℕ, zero, suc, ◌+◌, Bool, true, false, not, ◌&&◌, ◌||◌, Option, none, some, List, [], ◌∷◌, ◌++◌,
  map, ltb, ◌==◌, if◌then◌else◌, Bytes, length, is_nil,
}
use dvrbridge.H264.{nal_type, nal_sps, nal_pps, iter_nals}

pub record HubFrame : Type 0 where
  pub nals : List Bytes
  pub ts90k : ℕ
  pub keyframe : Bool

abbrev pub queue_size : ℕ
queue_size = 64

pub record Subscriber : Type 0 where
  pub id : ℕ
  pub queue : List HubFrame
  pub waiting_key : Bool
  pub dropped : ℕ

-- the defaults of the dataclass
abbrev pub new_subscriber : ℕ → Subscriber
new_subscriber i = record { id = i; queue = []; waiting_key = true; dropped = 0 }

-- `_task` and the place in `_run` where it stands: no task, or one that is done; created and not
-- yet begun; in the `async for`, with the time of its start and the backoff; in the wait for the
-- generator to close, on the way to the `return`; in the backoff wait.
pub data Task : Type 0 where
  idle : Task
  starting : Task
  streaming : ℕ → ℕ → Task
  closing : Task
  waiting : ℕ → Task

-- `StreamInfo` of dvrbridge/drivers/base.py, what the server reads of it
pub record StreamInfo : Type 0 where
  pub width : Option ℕ
  pub height : Option ℕ

pub record Stream : Type 0 where
  pub name : String
  pub always_on : Bool
  pub linger : ℕ
  pub sps : Option Bytes
  pub pps : Option Bytes
  pub info : StreamInfo
  pub frames_relayed : ℕ
  pub reconnects : ℕ
  pub subs : List Subscriber
  pub ready : Bool
  pub wake : Bool
  pub task : Task
  pub last_activity : ℕ

-- `__init__`, at the time `now`
unfoldable pub new_stream : String → Bool → ℕ → ℕ → Stream
new_stream name always_on linger now = record {
  name = name;
  always_on = always_on;
  linger = linger;
  sps = none;
  pps = none;
  info = record { width = none; height = none };
  frames_relayed = 0;
  reconnects = 0;
  subs = [];
  ready = false;
  wake = false;
  task = idle;
  last_activity = now;
}

-- the truth value of `bytes | None`
unfoldable pub truthy : Option Bytes → Bool
truthy none = false
truthy (some b) = not (is_nil b)

unfoldable pub has_type : ℕ → Bytes → Bool
has_type t n = elim (nal_type n) [ none ↦ false | some k ↦ k == t ]

-- `[n for n in iter_nals(payload) if n]`
unfoldable pub non_empty : List Bytes → List Bytes
non_empty [] = []
non_empty (n ∷ ns) = if is_nil n then non_empty ns else n ∷ non_empty ns

-- the loop that caches parameter sets
unfoldable pub cache_param : Bytes → Stream → Stream
cache_param n s =
    if has_type nal_sps n
    then record s { sps = some n }
    else if has_type nal_pps n
    then record s { pps = some n }
    else s

unfoldable pub cache_params : List Bytes → Stream → Stream
unfolding cache_param
cache_params [] s = s
cache_params (n ∷ ns) s = cache_params ns (cache_param n s)

-- `any(nal_type(n) == NAL_SPS for n in nals)`
unfoldable pub any_sps : List Bytes → Bool
any_sps [] = false
any_sps (n ∷ ns) = has_type nal_sps n || any_sps ns

-- `[self.sps, self.pps, *nals]`, where both are cached
abbrev pub prepend : Option Bytes → Option Bytes → List Bytes → List Bytes
prepend (some sps) (some pps) nals = sps ∷ pps ∷ nals
prepend none pps nals = nals
prepend (some sps) none nals = nals

unfoldable pub with_params : Bool → Stream → List Bytes → List Bytes
unfolding any_sps truthy
with_params keyframe s nals =
    if keyframe && truthy s.sps && truthy s.pps && not (any_sps nals)
    then prepend s.sps s.pps nals
    else nals

-- `sub.queue.put_nowait(item)`, with its handler of `QueueFull`
unfoldable pub put_nowait : HubFrame → Subscriber → Subscriber
put_nowait item sub =
    if ltb (length sub.queue) queue_size
    then record sub { queue = sub.queue ++ item ∷ [] }
    else record sub { dropped = sub.dropped + 1; waiting_key = true }

-- the body of the loop over the subscribers
unfoldable pub offer : HubFrame → Subscriber → Subscriber
unfolding put_nowait
offer item sub =
    if sub.waiting_key
    then (if item.keyframe then put_nowait item (record sub { waiting_key = false }) else sub)
    else put_nowait item sub

-- `_on_frame` behind the early return
unfoldable pub relay : List Bytes → ℕ → Bool → Stream → Stream
unfolding cache_params with_params truthy offer
relay nals ts90k keyframe s =
    let cached = cache_params nals s in
    let item : HubFrame = record {
      nals = with_params keyframe cached nals;
      ts90k = ts90k;
      keyframe = keyframe;
    } in
    record cached {
      ready = cached.ready || (truthy cached.sps && truthy cached.pps);
      frames_relayed = cached.frames_relayed + 1;
      subs = map (offer item) cached.subs;
    }

-- `_on_frame`
unfoldable pub on_frame : Bytes → ℕ → Bool → Stream → Stream
unfolding relay non_empty
on_frame payload ts90k keyframe s =
    let nals = non_empty (iter_nals payload) in
    if is_nil nals then s else relay nals ts90k keyframe s
