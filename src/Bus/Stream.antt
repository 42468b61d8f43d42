-- ===== src/Bus/Stream.antt =====
-- server-go/events.go and the main loop of `ws` in server-go/ws.go: what one WebSocket subscriber is
-- sent, when publications and the loop's receives come in any order.
use mathlib.Core.List.{Sublistᴰ}
use mathlib.Core.List.{append_assoc, append-nil}
use what_is_it.Prelude.{
  ◌+◌, ◌≤◌, ltb, List, [], ◌∷◌, ◌++◌, ◌≡◌, refl, ap, sym, ◌∙◌, inl, inr, arith, Bool-cases, length,
  length-append,
}
use what_is_it.Bus.{Event, buffer_size, offer}
use what_is_it.Bus.Delivery.{offer-room}

pub record Feed : Type 0 where
  pub buffer : List Event
  pub written : List Event

pub data Turn : Type 0 where
  published : Event → Turn
  receives : Turn

-- `case ev := <-sub: conn.WriteMessage(…, ev.Marshal())`; with an empty buffer the loop waits.
abbrev receive : List Event → List Event → Feed
receive [] written = record { buffer = []; written = written }
receive (ev ∷ buffer) written = record { buffer = buffer; written = written ++ ev ∷ [] }

unfoldable pub turn : Turn → Feed → Feed
turn (published ev) f = record f { buffer = offer ev f.buffer }
turn receives f = receive f.buffer f.written

unfoldable pub run : List Turn → Feed → Feed
unfolding turn
run [] f = f
run (t ∷ ts) f = run ts (turn t f)

abbrev pub events_of : List Turn → List Event
events_of [] = []
events_of (published ev ∷ ts) = ev ∷ events_of ts
events_of (receives ∷ ts) = events_of ts

-- What has been written and what waits, in the order in which it was published.
abbrev pub seen : Feed → List Event
seen f = f.written ++ f.buffer

seen-receive : (buffer written : List Event) → seen (receive buffer written) ≡ written ++ buffer
seen-receive [] written = refl
seen-receive (ev ∷ buffer) written = append_assoc written (ev ∷ []) buffer

length-receive :
    (buffer written : List Event) → length (receive buffer written).buffer ≤ length buffer
length-receive [] written = omega arith
length-receive (ev ∷ buffer) written = omega arith

skip_last : (xs ys : List Event) (e : Event) → Sublistᴰ xs ys → Sublistᴰ xs (ys ++ e ∷ [])
skip_last xs ys e Sublistᴰ.slnil = Sublistᴰ.cons Sublistᴰ.slnil
skip_last xs ys e (Sublistᴰ.cons {l₂ = l} s) = Sublistᴰ.cons (skip_last xs l e s)
skip_last xs ys e (Sublistᴰ.cons-cons {l₁ = k} {l₂ = l} p s) =
    Sublistᴰ.cons-cons p (skip_last k l e s)

same_last :
    (xs ys : List Event) (e : Event) → Sublistᴰ xs ys → Sublistᴰ (xs ++ e ∷ []) (ys ++ e ∷ [])
same_last xs ys e Sublistᴰ.slnil = Sublistᴰ.cons-cons refl Sublistᴰ.slnil
same_last xs ys e (Sublistᴰ.cons {l₂ = l} s) = Sublistᴰ.cons (same_last xs l e s)
same_last xs ys e (Sublistᴰ.cons-cons {l₁ = k} {l₂ = l} p s) =
    Sublistᴰ.cons-cons p (same_last k l e s)

seen-offer :
    (ev : Event) (f : Feed) (sent : List Event)
    → Sublistᴰ (seen f) sent
    → Sublistᴰ (f.written ++ offer ev f.buffer) (sent ++ ev ∷ [])
unfolding offer
seen-offer ev f sent h = elim (Bool-cases (ltb (length f.buffer) buffer_size)) [
  | inl e ↦ rw (e, ← append_assoc f.written f.buffer (ev ∷ [])) (same_last (seen f) sent ev h)
  | inr e ↦ rw e (skip_last (seen f) sent ev h)
]

run-Sublist :
    (ts : List Turn) (f : Feed) (sent : List Event)
    → Sublistᴰ (seen f) sent
    → Sublistᴰ (seen (run ts f)) (sent ++ events_of ts)
unfolding run turn
run-Sublist [] f sent h = rw append-nil h
run-Sublist (published ev ∷ ts) f sent h =
    rw (← append_assoc sent (ev ∷ []) (events_of ts))
      (run-Sublist ts (turn (published ev) f) (sent ++ ev ∷ []) (seen-offer ev f sent h))
run-Sublist (receives ∷ ts) f sent h =
    run-Sublist ts (receive f.buffer f.written) sent (rw (seen-receive f.buffer f.written) h)

abbrev pub new_feed : Feed
new_feed = record { buffer = []; written = [] }

-- Whatever the order of publications and receives, a subscriber is sent a subsequence of what was
-- published since it subscribed: nothing twice, nothing out of order, nothing made up.
pub run-in_order : (ts : List Turn) → Sublistᴰ (seen (run ts new_feed)) (events_of ts)
run-in_order ts = run-Sublist ts new_feed [] Sublistᴰ.slnil

run-all :
    (ts : List Turn) (f : Feed)
    → length f.buffer + length (events_of ts) ≤ buffer_size
    → seen (run ts f) ≡ seen f ++ events_of ts
unfolding run turn
run-all [] f h = sym (append-nil (seen f))
run-all (published ev ∷ ts) f h =
    run-all ts (turn (published ev) f)
      (omega (arith, ap length roomy, length-append f.buffer (ev ∷ [])))
    ∙ ap (λ (l : List Event). (f.written ++ l) ++ events_of ts) roomy
    ∙ ap (λ (l : List Event). l ++ events_of ts) (sym (append_assoc f.written f.buffer (ev ∷ [])))
    ∙ append_assoc (seen f) (ev ∷ []) (events_of ts)
  where
    roomy : offer ev f.buffer ≡ f.buffer ++ ev ∷ []
    roomy = offer-room ev f.buffer (omega arith)
run-all (receives ∷ ts) f h =
    run-all ts (receive f.buffer f.written) (omega (arith, length-receive f.buffer f.written))
    ∙ ap (λ (l : List Event). l ++ events_of ts) (seen-receive f.buffer f.written)

-- A subscriber is sent every event, in order, while no more than 256 have been published since it
-- subscribed, however slow its loop is.
pub run_complete :
    (ts : List Turn) → length (events_of ts) ≤ buffer_size → seen (run ts new_feed) ≡ events_of ts
run_complete ts h = run-all ts new_feed (omega arith)
