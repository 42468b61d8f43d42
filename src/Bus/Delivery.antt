-- ===== src/Bus/Delivery.antt =====
-- server-go/events.go: which events reach a subscriber.
use mathlib.Core.Option
use what_is_it.Prelude.{
  if◌then◌else◌, ltb, ◌++◌, ℕ, suc, ◌≤◌, ◌<◌, ◌==◌, List, [], ◌∷◌, false, ◌≡◌, refl, inl, inr,
  arith, Bool-cases, All, All-imp, Pairwise, length, length-append,
}
use what_is_it.Bus.{
  Event, Channel, EventBus, buffer_size, subscribe, remove_sub, unsubscribe, offer, offer_all,
  publish, buffer_of,
}

-- Every buffer is within its size, and the channels have the numbers of past subscriptions.
pub record IsBus (b : EventBus) : Type 0 where
  pub bounded : All (λ c. length c.buffer ≤ buffer_size) b.subs
  pub issued : All (λ c. c.id < b.next) b.subs
  pub distinct : Pairwise (λ c d. (c.id == d.id) ≡ false) b.subs

pub data BusCall : Type 0 where
  subscribes : BusCall
  unsubscribes : ℕ → BusCall
  publishes : Event → BusCall

unfoldable pub bus_step : BusCall → EventBus → EventBus
bus_step subscribes b = (subscribe b).1
bus_step (unsubscribes id) b = unsubscribe id b
bus_step (publishes ev) b = publish ev b

offer-bounded :
    (ev : Event) (buffer : List Event)
    → length buffer ≤ buffer_size
    → length (offer ev buffer) ≤ buffer_size
unfolding offer
offer-bounded ev buffer h = ground (arith, length-append buffer (ev ∷ []))

offer_all-bounded :
    (ev : Event) (cs : List Channel)
    → All (λ c. length c.buffer ≤ buffer_size) cs
    → All (λ c. length c.buffer ≤ buffer_size) (offer_all ev cs)
unfolding offer_all
offer_all-bounded ev [] h = tt
offer_all-bounded ev (c ∷ cs) h = (offer-bounded ev c.buffer h.0, offer_all-bounded ev cs h.1)

-- What depends on the numbers of the channels alone does not see a publication.
offer_all-All :
    (P : ℕ → Type 0) (ev : Event) (cs : List Channel)
    → All (λ c. P c.id) cs
    → All (λ c. P c.id) (offer_all ev cs)
unfolding offer_all
offer_all-All P ev [] h = tt
offer_all-All P ev (c ∷ cs) h = (h.0, offer_all-All P ev cs h.1)

offer_all-distinct :
    (ev : Event) (cs : List Channel)
    → Pairwise (λ c d. (c.id == d.id) ≡ false) cs
    → Pairwise (λ c d. (c.id == d.id) ≡ false) (offer_all ev cs)
unfolding offer_all
offer_all-distinct ev [] h = tt
offer_all-distinct ev (c ∷ cs) h =
    (offer_all-All (λ n. (c.id == n) ≡ false) ev cs h.0, offer_all-distinct ev cs h.1)

remove_sub-All :
    (P : Channel → Type 0) (id : ℕ) (cs : List Channel) → All P cs → All P (remove_sub id cs)
unfolding remove_sub
remove_sub-All P id [] h = tt
remove_sub-All P id (c ∷ cs) h = elim (Bool-cases (c.id == id)) [
  | inl e ↦ rw e (remove_sub-All P id cs h.1)
  | inr e ↦ rw e (h.0, remove_sub-All P id cs h.1)
]

remove_sub-distinct :
    (R : Channel → Channel → Type 0) (id : ℕ) (cs : List Channel)
    → Pairwise R cs
    → Pairwise R (remove_sub id cs)
unfolding remove_sub
remove_sub-distinct R id [] h = tt
remove_sub-distinct R id (c ∷ cs) h = elim (Bool-cases (c.id == id)) [
  | inl e ↦ rw e (remove_sub-distinct R id cs h.1)
  | inr e ↦ rw e (remove_sub-All (R c) id cs h.0, remove_sub-distinct R id cs h.1)
]

fresh_number :
    (n : ℕ) (cs : List Channel) → All (λ c. c.id < n) cs → All (λ c. (n == c.id) ≡ false) cs
fresh_number n [] h = tt
fresh_number n (c ∷ cs) h = (ground arith, fresh_number n cs h.1)

-- Subscribing, unsubscribing and publishing, in any order, keep every buffer within its 256 events
-- and the channels of the subscribers distinct.
pub bus_step-IsBus : (call : BusCall) (b : EventBus) → IsBus b → IsBus (bus_step call b)
unfolding bus_step subscribe unsubscribe publish
bus_step-IsBus subscribes b v = record {
  bounded = (omega arith, v.bounded);
  issued = (
    omega arith,
    All-imp (λ c. c.id < b.next) (λ c. c.id < suc b.next) (λ c h. omega arith) b.subs v.issued,
  );
  distinct = (fresh_number b.next b.subs v.issued, v.distinct);
}
bus_step-IsBus (unsubscribes id) b v = record {
  bounded = remove_sub-All (λ c. length c.buffer ≤ buffer_size) id b.subs v.bounded;
  issued = remove_sub-All (λ c. c.id < b.next) id b.subs v.issued;
  distinct = remove_sub-distinct (λ c d. (c.id == d.id) ≡ false) id b.subs v.distinct;
}
bus_step-IsBus (publishes ev) b v = record {
  bounded = offer_all-bounded ev b.subs v.bounded;
  issued = offer_all-All (λ n. n < b.next) ev b.subs v.issued;
  distinct = offer_all-distinct ev b.subs v.distinct;
}

buffer_of-offer_all :
    (id : ℕ) (ev : Event) (cs : List Channel)
    → buffer_of id (offer_all ev cs) ≡ Option.map (offer ev) (buffer_of id cs)
unfolding buffer_of offer_all
buffer_of-offer_all id ev [] = refl
buffer_of-offer_all id ev (c ∷ cs) = ground (arith, buffer_of-offer_all id ev cs)

pub offer-room :
    (ev : Event) (buffer : List Event)
    → length buffer < buffer_size
    → offer ev buffer ≡ buffer ++ ev ∷ []
unfolding offer
offer-room ev buffer h = ground arith

-- A published event is appended to the buffer of every subscriber that has room, is dropped for one
-- whose buffer is full, and reaches nobody else.
pub publish-buffer_of :
    (id : ℕ) (ev : Event) (b : EventBus)
    → buffer_of id (publish ev b).subs
      ≡ Option.map
          (λ buffer. if ltb (length buffer) buffer_size then buffer ++ ev ∷ [] else buffer)
          (buffer_of id b.subs)
unfolding publish offer
publish-buffer_of id ev b = buffer_of-offer_all id ev b.subs
