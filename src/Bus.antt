-- ===== src/Bus.antt =====
-- server-go/events.go: the events that the server pushes and the bus that hands them to the
-- WebSocket subscribers. A channel is named by the number of its `Subscribe`; its buffer is a list.
pub mod Delivery
pub mod Stream
use what_is_it.Prelude.{
  ℕ, suc, ◌+◌, ltb, ◌==◌, Text, bytes, List, [], ◌∷◌, ◌++◌, Bool, true, false, if◌then◌else◌,
  length, Option, none, some,
}

pub record Event : Type 0 where
  pub kind : Text
  pub qr : Text
  pub phone : Text
  pub chat : Text
  pub call_id : Text
  pub from : Text
  pub video : Bool
  pub state : Text
  pub options : Text
  pub code : Text
  pub error : Text

-- `&Event{Type: kind}`
abbrev pub event : Text → Event
event kind = record {
  kind = kind;
  qr = [];
  phone = [];
  chat = [];
  call_id = [];
  from = [];
  video = false;
  state = [];
  options = [];
  code = [];
  error = [];
}

abbrev pub ev_qr : Text → Event
ev_qr qr = record (event (bytes "qr")) { qr = qr }

abbrev pub ev_linked : Text → Event
ev_linked phone = record (event (bytes "linked")) { phone = phone }

abbrev pub ev_message : Text → Event
ev_message chat = record (event (bytes "message")) { chat = chat }

abbrev pub ev_receipt : Text → Event
ev_receipt chat = record (event (bytes "receipt")) { chat = chat }

abbrev pub ev_chats : Event
ev_chats = event (bytes "chats")

abbrev pub ev_logged_out : Event
ev_logged_out = event (bytes "logged_out")

abbrev pub ev_pair_code : Text → Event
ev_pair_code code = record (event (bytes "pair_code")) { code = code }

abbrev pub ev_passkey_req : Text → Event
ev_passkey_req options = record (event (bytes "passkey_request")) { options = options }

abbrev pub ev_passkey_conf : Text → Event
ev_passkey_conf code = record (event (bytes "passkey_confirmation")) { code = code }

abbrev pub ev_passkey_err : Text → Event
ev_passkey_err err = record (event (bytes "passkey_error")) { error = err }

abbrev pub ev_incoming_call : Text → Text → Bool → Event
ev_incoming_call call_id from video = record (event (bytes "incoming_call")) {
  call_id = call_id;
  from = from;
  video = video;
}

abbrev pub ev_call_state : Text → Text → Event
ev_call_state call_id state = record (event (bytes "call_state")) {
  call_id = call_id;
  state = state;
}

pub record Channel : Type 0 where
  pub id : ℕ
  pub buffer : List Event

pub record EventBus : Type 0 where
  pub subs : List Channel
  pub next : ℕ

abbrev pub new_event_bus : EventBus
new_event_bus = record { subs = []; next = 0 }

abbrev pub buffer_size : ℕ
buffer_size = 256

-- `ch := make(chan *Event, 256)` is a channel that no other subscriber has.
unfoldable pub subscribe : EventBus → ℕ × EventBus
subscribe b =
    (b.next, record { subs = record { id = b.next; buffer = [] } ∷ b.subs; next = suc b.next })

unfoldable pub remove_sub : ℕ → List Channel → List Channel
remove_sub id [] = []
remove_sub id (c ∷ cs) = let rest = remove_sub id cs in if c.id == id then rest else c ∷ rest

unfoldable pub unsubscribe : ℕ → EventBus → EventBus
unfolding remove_sub
unsubscribe id b = record b { subs = remove_sub id b.subs }

-- `select { case ch <- ev: default: }`
unfoldable pub offer : Event → List Event → List Event
offer ev buffer = if ltb (length buffer) buffer_size then buffer ++ ev ∷ [] else buffer

unfoldable pub offer_all : Event → List Channel → List Channel
offer_all ev [] = []
offer_all ev (c ∷ cs) = record c { buffer = offer ev c.buffer } ∷ offer_all ev cs

unfoldable pub publish : Event → EventBus → EventBus
unfolding offer_all
publish ev b = record b { subs = offer_all ev b.subs }

-- The buffer of a subscriber, if it is subscribed.
unfoldable pub buffer_of : ℕ → List Channel → Option (List Event)
buffer_of id [] = none
buffer_of id (c ∷ cs) = if c.id == id then some c.buffer else buffer_of id cs
