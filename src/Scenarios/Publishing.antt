-- ===== src/Scenarios/Publishing.antt =====
-- A hub with room for two events in its history.
use msgate.Prelude.{ℕ, ◌≡◌, refl, none, List, [], ◌∷◌, Text, codes, All, map}
use msgate.Events.{
  TrafficEvent, EventHub, publish_sync, subscribe, unsubscribe, push_bounded, notify,
}
use msgate.Events.Delivery.{
  HubCall, publishes, subscribes, apply_call, hub_after, Fits, hub_after-history, hub_after-Fits,
}

abbrev empty_hub : EventHub
empty_hub = record {
  history_size = 2;
  history = [];
  subscribers = [];
  auth_errors = 0;
  metrics = none;
  webhook_urls = codes "http://hook" ∷ [];
  posted = [];
}

abbrev event : Text → ℕ → TrafficEvent
event kind ts = record { kind = kind; message = codes "m"; fields = []; ts = ts }

abbrev calls : List HubCall
calls =
    publishes (event (codes "queue.sent") 4)
    ∷ publishes (event (codes "auth.ok") 3)
    ∷ subscribes 1
    ∷ publishes (event (codes "auth.fail") 2)
    ∷ publishes (event (codes "smtp.data") 1)
    ∷ []

posted_once : map (λ p. p.0) (hub_after calls empty_hub).posted ≡ codes "http://hook" ∷ []
unfolding hub_after apply_call publish_sync subscribe unsubscribe push_bounded notify
posted_once = refl

hub_after-history_example :
    (hub_after calls empty_hub).history
    ≡ event (codes "auth.ok") 3 ∷ event (codes "queue.sent") 4 ∷ []
hub_after-history_example = hub_after-history calls empty_hub refl

published_run : All Fits (hub_after calls empty_hub).subscribers
published_run = hub_after-Fits calls empty_hub tt
