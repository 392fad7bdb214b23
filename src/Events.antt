-- ===== src/Events.antt =====
-- src/msgate/events/hub.py: the hub that fans events out. A subscriber is the identity of its queue
-- with what waits in it; the set of subscribers is a list, in the order in which they came. Payloads
-- are the events themselves in place of their JSON text.
use msgate.Prelude.{
  ℕ, ◌+◌, ◌-◌, Bool, true, not, Option, none, some, List, [], ◌∷◌, ◌++◌, map, Text, codes, text_eq,
  leb, ltb, ◌==◌, if◌then◌else◌, filter, length, drop,
}
use msgate.Metrics.{MetricsRegistry, on_event}
use msgate.Prelude.Texts.{starts_with}
use mathlib.Core.Option
pub mod Delivery

pub record TrafficEvent : Type 0 where
  pub kind : Text
  pub message : Text
  pub fields : List (Text × Text)
  pub ts : ℕ

pub record Subscriber : Type 0 where
  pub queue_id : ℕ
  pub waiting : List TrafficEvent

pub record EventHub : Type 0 where
  pub history_size : ℕ
  pub history : List TrafficEvent
  pub subscribers : List Subscriber
  pub auth_errors : ℕ
  pub metrics : Option MetricsRegistry
  pub webhook_urls : List Text
  -- What the webhooks have been asked to post, the latest last.
  pub posted : List (Text × TrafficEvent)

-- `deque(maxlen=…).append`
unfoldable pub push_bounded {ℓ} : {A : Type ℓ} → ℕ → List A → A → List A
push_bounded size xs x = let ys = xs ++ (x ∷ []) in drop (length ys - size) ys

-- `asyncio.Queue(maxsize=256)`
abbrev pub queue_size : ℕ
queue_size = 256

abbrev pub has_room : Subscriber → Bool
has_room q = ltb (length q.waiting) queue_size

abbrev pub put : TrafficEvent → Subscriber → Subscriber
put e q = record q { waiting = q.waiting ++ (e ∷ []) }

-- `WebhookNotifier.on_event`, with `notify`.
abbrev pub wants_hook : Text → Bool
wants_hook kind =
    if starts_with (codes "queue.") kind
    then true
    else if text_eq kind (codes "ews.health")
    then true
    else text_eq kind (codes "backend.health")

-- One thread for each URL.
unfoldable pub notify :
    List Text → TrafficEvent → List (Text × TrafficEvent) → List (Text × TrafficEvent)
notify urls e posted = if wants_hook e.kind then posted ++ map (λ u. (u, e)) urls else posted

unfoldable pub publish_sync : TrafficEvent → EventHub → EventHub
unfolding push_bounded notify
publish_sync e hub = record hub {
  history = push_bounded hub.history_size hub.history e;
  auth_errors = if text_eq e.kind (codes "auth.fail") then hub.auth_errors + 1 else hub.auth_errors;
  metrics = Option.map (on_event e.kind) hub.metrics;
  posted = notify hub.webhook_urls e hub.posted;
  subscribers = map (put e) (filter has_room hub.subscribers);
}

-- `if events: events.publish_sync(…)`
unfoldable pub announce : Text → Text → List (Text × Text) → ℕ → Option EventHub → Option EventHub
announce kind message fields ts hub =
    Option.map (publish_sync (record { kind = kind; message = message; fields = fields; ts = ts }))
      hub

unfoldable pub discard : ℕ → List Subscriber → List Subscriber
discard id qs = filter (λ q. not (q.queue_id == id)) qs

-- The history is put into the new queue; `none` where it does not fit, and the call waits.
unfoldable pub subscribe : ℕ → EventHub → Option (Subscriber × EventHub)
subscribe id hub =
    let q : Subscriber = record { queue_id = id; waiting = hub.history } in
    if leb (length hub.history) queue_size
    then some (q, record hub { subscribers = hub.subscribers ++ (q ∷ []) })
    else none

unfoldable pub unsubscribe : ℕ → EventHub → EventHub
unfolding discard
unsubscribe id hub = record hub { subscribers = discard id hub.subscribers }
