-- ===== src/Events/Delivery.antt =====
-- What the hub of src/msgate/events/hub.py keeps and what it hands on.
use msgate.Prelude.{
  ℕ, zero, suc, ◌+◌, ◌-◌, ◌≤◌, ◌≡◌, refl, sym, ap, ◌∙◌, inl, inr, not, none, some, List, [], ◌∷◌,
  ◌++◌, map, length, drop, filter, All, All-append, arith, leb, ltb→lt, leb→le, length-append,
  Bool-cases, ◌==◌,
}
use msgate.Events.{
  TrafficEvent, Subscriber, EventHub, push_bounded, queue_size, has_room, put, publish_sync,
  subscribe, unsubscribe, discard,
}

-- The calls that change a hub.
pub data HubCall : Type 0 where
  publishes : TrafficEvent → HubCall
  subscribes : ℕ → HubCall
  unsubscribes : ℕ → HubCall

-- A call of `subscribe` whose queue is too small for the history does not come back, and is passed
-- over.
unfoldable pub apply_call : HubCall → EventHub → EventHub
unfolding publish_sync subscribe unsubscribe
apply_call (publishes e) hub = publish_sync e hub
apply_call (subscribes id) hub = elim (subscribe id hub) [ none ↦ hub | some x ↦ x.1 ]
apply_call (unsubscribes id) hub = unsubscribe id hub

-- After a history of calls, the latest first.
unfoldable pub hub_after : List HubCall → EventHub → EventHub
hub_after [] hub = hub
hub_after (c ∷ calls) hub = apply_call c (hub_after calls hub)

-- The events of a history, in the order in which they were published.
abbrev pub published : List HubCall → List TrafficEvent
published [] = []
published (publishes e ∷ calls) = published calls ++ (e ∷ [])
published (subscribes id ∷ calls) = published calls
published (unsubscribes id ∷ calls) = published calls

abbrev pub last {ℓ} : {A : Type ℓ} → ℕ → List A → List A
last n xs = drop (length xs - n) xs

module _ {ℓ} {A : Type ℓ} where
  length-drop : (n : ℕ) (xs : List A) → length (drop n xs) ≡ length xs - n
  length-drop zero xs = omega arith
  length-drop (suc n) [] = omega arith
  length-drop (suc n) (x ∷ xs) = omega (arith, length-drop n xs)

  drop-append : (n : ℕ) (xs ys : List A) → n ≤ length xs → drop n xs ++ ys ≡ drop n (xs ++ ys)
  drop-append zero xs ys h = refl
  drop-append (suc n) [] ys h = absurd (omega arith)
  drop-append (suc n) (x ∷ xs) ys h = drop-append n xs ys (omega arith)

  drop-nil : (n : ℕ) → Path (List A) (drop n []) []
  drop-nil zero = refl
  drop-nil (suc n) = refl

  drop-drop : (n m : ℕ) (xs : List A) → drop n (drop m xs) ≡ drop (m + n) xs
  drop-drop n zero xs = ground arith
  drop-drop n (suc m) [] = drop-nil n ∙ sym (drop-nil (suc m + n))
  drop-drop n (suc m) (x ∷ xs) =
      let e : suc (m + n) ≡ suc m + n = omega arith in
      drop-drop n m xs ∙ ap (λ k. drop k (x ∷ xs)) e

  push_bounded-last :
      (n : ℕ) (xs : List A) (x : A) → push_bounded n (last n xs) x ≡ last n (xs ++ (x ∷ []))
  unfolding push_bounded
  push_bounded-last n xs x =
      let skipped = length xs - n in
      let kept : drop skipped xs ++ (x ∷ []) ≡ drop skipped (xs ++ (x ∷ [])) =
        drop-append skipped xs (x ∷ []) (omega arith) in
      let total = length-append xs (x ∷ []) in
      let all = xs ++ (x ∷ []) in
      rw kept (
        drop-drop _ skipped all
        ∙ ap (λ k. drop k all) (omega (arith, total, length-drop skipped all)))

same_size : (c : HubCall) (hub : EventHub) → (apply_call c hub).history_size ≡ hub.history_size
unfolding apply_call publish_sync subscribe unsubscribe
same_size (publishes e) hub = refl
same_size (subscribes id) hub = ground arith
same_size (unsubscribes id) hub = refl

hub_after_size :
    (calls : List HubCall) (hub : EventHub) → (hub_after calls hub).history_size ≡ hub.history_size
unfolding hub_after
hub_after_size [] hub = refl
hub_after_size (c ∷ calls) hub = same_size c (hub_after calls hub) ∙ hub_after_size calls hub

-- Whatever subscribers come and go, a hub that starts with an empty history keeps the last events
-- published, in their order, as many as its size says.
pub hub_after-history :
    (calls : List HubCall) (hub : EventHub)
    → hub.history ≡ []
    → (hub_after calls hub).history ≡ last hub.history_size (published calls)
unfolding hub_after apply_call publish_sync subscribe unsubscribe
hub_after-history [] hub h = h ∙ sym (drop-nil (0 - hub.history_size))
hub_after-history (publishes e ∷ calls) hub h =
    rw (hub_after_size calls hub, hub_after-history calls hub h)
      (push_bounded-last hub.history_size (published calls) e)
hub_after-history (subscribes id ∷ calls) hub h = ground (arith, hub_after-history calls hub h)
hub_after-history (unsubscribes id ∷ calls) hub h = hub_after-history calls hub h

abbrev pub Fits : Subscriber → Type 0
Fits q = length q.waiting ≤ queue_size

put-Fits : (e : TrafficEvent) (qs : List Subscriber) → All Fits (map (put e) (filter has_room qs))
put-Fits e [] = tt
put-Fits e (q ∷ qs) = elim (Bool-cases (has_room q)) [
  | inl r ↦ rw r (omega (arith, ltb→lt _ _ r, length-append q.waiting (e ∷ [])), put-Fits e qs)
  | inr r ↦ rw r (put-Fits e qs)
]

discard-Fits : (id : ℕ) (qs : List Subscriber) → All Fits qs → All Fits (discard id qs)
unfolding discard
discard-Fits id [] h = tt
discard-Fits id (q ∷ qs) h = elim (Bool-cases (not (q.queue_id == id))) [
  | inl r ↦ rw (r, discard) (h.0, discard-Fits id qs h.1)
  | inr r ↦ rw (r, discard) (discard-Fits id qs h.1)
]

subscribe-Fits :
    (id : ℕ) (s : EventHub)
    → All Fits s.subscribers
    → All Fits (apply_call (subscribes id) s).subscribers
unfolding apply_call subscribe
subscribe-Fits id s h = elim (Bool-cases (leb (length s.history) queue_size)) [
  | inl r ↦
      rw (r, All, apply_call, subscribe) (All-append Fits s.subscribers _ h (leb→le _ _ r, tt))
  | inr r ↦ rw (r, All, apply_call, subscribe) h
]

-- No queue of a subscriber ever holds more than 256 events: a subscriber that is full when an event
-- is published is dropped, and a new one starts with a history that fits.
pub hub_after-Fits :
    (calls : List HubCall) (hub : EventHub)
    → All Fits hub.subscribers
    → All Fits (hub_after calls hub).subscribers
unfolding hub_after apply_call publish_sync unsubscribe
hub_after-Fits [] hub h = h
hub_after-Fits (publishes e ∷ calls) hub h = put-Fits e (hub_after calls hub).subscribers
hub_after-Fits (subscribes id ∷ calls) hub h =
    subscribe-Fits id (hub_after calls hub) (hub_after-Fits calls hub h)
hub_after-Fits (unsubscribes id ∷ calls) hub h =
    discard-Fits id (hub_after calls hub).subscribers (hub_after-Fits calls hub h)
