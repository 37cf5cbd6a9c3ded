-- ===== src/Events/Broker.antt =====
-- class RuntimeEventBroker of events/broker.py: bounded queues that drop their oldest frame.
use incidentlens.Common.{
  ℕ, suc, ◌+◌, ◌≤◌, Bool, true, false, ◌&&◌, not, List, [], ◌∷◌, ◌++◌, map, filter, length,
  if◌then◌else◌, leb, ltb, ◌==◌, ◌≡◌, refl, sym, ap, ◌∙◌, arith, Bool-cases, inl, inr, append_assoc,
  append-nil, length-append, map-id, All, map-map,
}
use incidentlens.Events.Types.{RuntimeEvent}

-- A subscriber's queue, known by its identity, with the count of its overflow.
pub record Subscriber : Type 0 where
  pub queue : ℕ
  pub frames : List RuntimeEvent
  pub dropped : ℕ

pub record Broker : Type 0 where
  pub queue_size : ℕ
  pub subscribers : List Subscriber

-- `queue.full()`: a size of 0 is no bound.
abbrev pub is_full : ℕ → Subscriber → Bool
is_full size s = ltb 0 size && leb size (length s.frames)

abbrev without_first : List RuntimeEvent → List RuntimeEvent
without_first [] = []
without_first (e ∷ frames) = frames

abbrev pub evict : ℕ → Subscriber → Subscriber
evict size s =
    if is_full size s
    then record s { frames = without_first s.frames; dropped = suc s.dropped }
    else s

abbrev pub put_nowait : ℕ → RuntimeEvent → Subscriber → Subscriber
put_nowait size event s = if is_full size s then s else record s { frames = s.frames ++ event ∷ [] }

-- What `publish` does to one queue.
unfoldable pub offer : ℕ → RuntimeEvent → Subscriber → Subscriber
offer size event s = put_nowait size event (evict size s)

unfoldable pub publish : RuntimeEvent → Broker → Broker
unfolding offer
publish event b = record b { subscribers = map (offer b.queue_size event) b.subscribers }

-- `subscribe`, and the end of its context.
abbrev pub subscribe : ℕ → Broker → Broker
subscribe queue b = record b {
  subscribers = b.subscribers ++ record { queue = queue; frames = []; dropped = 0 } ∷ [];
}

abbrev pub unsubscribe : ℕ → Broker → Broker
unsubscribe queue b = record b { subscribers = filter (λ s. not (s.queue == queue)) b.subscribers }

-- `dropped_count`.
abbrev dropped_in : ℕ → List Subscriber → ℕ
dropped_in queue [] = 0
dropped_in queue (s ∷ rest) =
    let later = dropped_in queue rest in if s.queue == queue then s.dropped else later

abbrev pub dropped_count : ℕ → Broker → ℕ
dropped_count queue b = dropped_in queue b.subscribers

abbrev pub offer_all : ℕ → List RuntimeEvent → Subscriber → Subscriber
offer_all size [] s = s
offer_all size (e ∷ events) s = offer_all size events (offer size e s)

abbrev pub publish_all : List RuntimeEvent → Broker → Broker
publish_all [] b = b
publish_all (e ∷ events) b = publish_all events (publish e b)

-- The frames that a queue held and those that came are the ones that it dropped, which it counted,
-- followed by the ones that it holds, of which there are no more than the size.
pub record Keeps (size : ℕ) (events : List RuntimeEvent) (before after : Subscriber) : Type 0 where
  pub same_queue : after.queue ≡ before.queue
  pub lost : List RuntimeEvent
  pub splits : before.frames ++ events ≡ lost ++ after.frames
  pub counted : after.dropped ≡ before.dropped + length lost
  pub bounded : length after.frames ≤ size

pub data EachKeeps (size : ℕ) (events : List RuntimeEvent)
    : List Subscriber → List Subscriber → Type 0 where
  none_left : EachKeeps size events [] []
  one_more :
      {s t : Subscriber} {before after : List Subscriber}
      → Keeps size events s t
      → EachKeeps size events before after
      → EachKeeps size events (s ∷ before) (t ∷ after)

length-append_one :
    (xs : List RuntimeEvent) (e : RuntimeEvent) → length (xs ++ e ∷ []) ≡ suc (length xs)
length-append_one [] e = refl
length-append_one (x ∷ xs) e = ap (λ n. suc n) (length-append_one xs e)

offer-not_full :
    (size : ℕ) (e : RuntimeEvent) (s : Subscriber)
    → leb size (length s.frames) ≡ false
    → offer size e s ≡ record s { frames = s.frames ++ e ∷ [] }
unfolding offer
offer-not_full size e s f = elim (Bool-cases (ltb 0 size)) [
  | inl l ↦ rw (l, f) (rw f refl)
  | inr l ↦ rw l refl
]

offer-full :
    (size : ℕ) (e : RuntimeEvent) (s : Subscriber)
    → ltb 0 size ≡ true
    → leb size (length s.frames) ≡ true
    → leb size (length (without_first s.frames)) ≡ false
    → offer size e s
      ≡ record s { frames = without_first s.frames ++ e ∷ []; dropped = suc s.dropped }
unfolding offer
offer-full size e s low full room = rw (low, full, room) refl

full-Keeps :
    (size : ℕ) (e : RuntimeEvent) (s : Subscriber) (frames : List RuntimeEvent)
    → s.frames ≡ frames
    → 1 ≤ size
    → length frames ≤ size
    → leb size (length frames) ≡ true
    → Keeps size (e ∷ []) s (offer size e s)
full-Keeps size e s [] h low le f = absurd (ground (arith, f))
full-Keeps size e s (x ∷ frames) h low le f =
    let run = offer-full size e s (ground arith) (rw (h, f) refl) (rw h (ground arith)) in
    rw (run, h)
      (record {
        same_queue = refl;
        lost = x ∷ [];
        splits = refl;
        counted = omega arith;
        bounded = rw (length-append_one frames e) le;
      })

offer-Keeps :
    (size : ℕ) (e : RuntimeEvent) (s : Subscriber)
    → 1 ≤ size
    → length s.frames ≤ size
    → Keeps size (e ∷ []) s (offer size e s)
offer-Keeps size e s low le = elim (Bool-cases (leb size (length s.frames))) [
  | inl f ↦ full-Keeps size e s s.frames refl low le f
  | inr f ↦ rw (offer-not_full size e s f) (record {
    same_queue = refl;
    lost = [];
    splits = refl;
    counted = omega arith;
    bounded = rw (length-append_one s.frames e) (ground (arith, f));
  })
]

Keeps-next :
    {size : ℕ} {e : RuntimeEvent} {events : List RuntimeEvent} {s t u : Subscriber}
    → Keeps size (e ∷ []) s t
    → Keeps size events t u
    → Keeps size (e ∷ events) s u
Keeps-next {size} {e} {events} {s} {t} {u} first later = record {
  same_queue = later.same_queue ∙ first.same_queue;
  lost = first.lost ++ later.lost;
  splits =
      sym (append_assoc s.frames (e ∷ []) events)
      ∙ ap (λ frames. frames ++ events) first.splits
      ∙ append_assoc first.lost t.frames events
      ∙ ap (λ frames. first.lost ++ frames) later.splits
      ∙ sym (append_assoc first.lost later.lost u.frames);
  counted = omega (arith, first.counted, later.counted, length-append first.lost later.lost);
  bounded = later.bounded;
}

offer_all-Keeps :
    (size : ℕ) (events : List RuntimeEvent) (s : Subscriber)
    → 1 ≤ size
    → length s.frames ≤ size
    → Keeps size events s (offer_all size events s)
offer_all-Keeps size [] s low le = record {
  same_queue = refl;
  lost = [];
  splits = append-nil s.frames;
  counted = omega arith;
  bounded = le;
}
offer_all-Keeps size (e ∷ events) s low le =
    let first = offer-Keeps size e s low le in
    Keeps-next first (offer_all-Keeps size events (offer size e s) low first.bounded)

publish_all-queues :
    (events : List RuntimeEvent) (b : Broker)
    → (publish_all events b).subscribers ≡ map (offer_all b.queue_size events) b.subscribers
unfolding publish
publish_all-queues [] b = sym (map-id b.subscribers)
publish_all-queues (e ∷ events) b =
    publish_all-queues events (publish e b)
    ∙ map-map (offer_all b.queue_size events) (offer b.queue_size e) b.subscribers

each_queue :
    (size : ℕ) (events : List RuntimeEvent) (subscribers : List Subscriber)
    → 1 ≤ size
    → All (λ s. length s.frames ≤ size) subscribers
    → EachKeeps size events subscribers (map (offer_all size events) subscribers)
each_queue size events [] low h = none_left
each_queue size events (s ∷ rest) low h =
    one_more (offer_all-Keeps size events s low h.0) (each_queue size events rest low h.1)

-- Publishing any events to a broker of bounded queues keeps every subscriber, in order: what its
-- queue held followed by the events is what the queue dropped, oldest first and counted one by one
-- in its overflow, followed by what it holds, which is never more than the queue's size. The queues
-- hold no more than the size to start with, and the size is at least 1.
pub publish_all-EachKeeps :
    (events : List RuntimeEvent) (b : Broker)
    → 1 ≤ b.queue_size
    → All (λ s. length s.frames ≤ b.queue_size) b.subscribers
    → EachKeeps b.queue_size events b.subscribers (publish_all events b).subscribers
publish_all-EachKeeps events b low h =
    rw (publish_all-queues events b) (each_queue b.queue_size events b.subscribers low h)
