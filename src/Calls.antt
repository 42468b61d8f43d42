-- ===== src/Calls.antt =====
-- server-go/calls.go: the registry of active and pending calls. The call engine is a third-party
-- package: what it answers is an argument of each operation, and its `Call` is the id, the peer and
-- the video flag that the registry reads of it. Media relays are in the modules of the audio path.
pub mod Lifecycle
pub mod Answering
use what_is_it.Prelude.{
  ℕ, ℤ, Text, bytes, List, [], ◌∷◌, ◌++◌, Option, none, some, Bool, true, false, if◌then◌else◌,
  Dict, lookup, insert, delete, Arrangement, ◌≡◌, refl, ◌⊎◌, inl, inr,
}
use what_is_it.Wire.{CallRecord}
use what_is_it.Store.{HistoryStore, add_call, mark_call_answered}
use what_is_it.Bus.{EventBus, publish, ev_call_state, ev_incoming_call}
use what_is_it.State.{AppState, publishing}

-- What a call of another package answers: a value, or the text of its error.
pub data Answer {ℓ} (A : Type ℓ) : Type ℓ where
  ok : A → Answer A
  err : Text → Answer A

pub Answer-cases {ℓ} :
    {A : Type ℓ} (o : Answer A) → ((a : A) × (o ≡ ok a)) ⊎ ((e : Text) × (o ≡ err e))
Answer-cases (ok a) = inl (a, refl)
Answer-cases (err e) = inr (e, refl)

-- A call of the engine, as the registry sees it.
pub record Call : Type 0 where
  pub id : Text
  pub peer : Text
  pub is_video : Bool

pub record CallRelay : Type 0 where
  pub id : Text
  pub peer : Text
  pub video : Bool
  pub muted : Bool
  pub camera_on : Bool

pub record CallRegistry : Type 0 where
  pub relays : Dict CallRelay
  pub incoming : Dict Call

abbrev pub new_call_registry : CallRegistry
new_call_registry = record { relays = []; incoming = [] }

-- The registry holds a pointer to the state that the handlers share, so its operations act on both.
pub record Phone : Type 0 where
  pub app : AppState
  pub calls : CallRegistry

abbrev pub new_relay : Text → Text → Bool → CallRelay
new_relay id peer video = record {
  id = id;
  peer = peer;
  video = video;
  muted = false;
  camera_on = false;
}

pub record CallSummary : Type 0 where
  pub call_id : Text
  pub peer : Text
  pub video : Bool

unfoldable pub summaries_of : Dict CallRelay → List CallSummary
summaries_of [] = []
summaries_of ((k, c) ∷ rest) =
    record { call_id = c.id; peer = c.peer; video = c.video } ∷ summaries_of rest

-- `List`: in the order in which Go visits the map.
unfoldable pub list : Arrangement → CallRegistry → List CallSummary
unfolding summaries_of
list order r = order.arrange CallSummary (summaries_of r.relays)

abbrev with_relay : CallRelay → CallRegistry → CallRegistry
with_relay relay r = record r { relays = insert relay.id relay r.relays }

-- `record`, with the time that the clock shows.
unfoldable pub record_call : Text → Text → Text → Bool → Bool → ℤ → AppState → AppState
record_call id peer dir video missed now a = record a {
  store =
      add_call
        (record { id = id; peer = peer; dir = dir; video = video; missed = missed; time = now })
        a.store;
}

-- `engine` is none while the engine is not installed, and then what `CallWithOptions` answers.
unfoldable pub start_outgoing : Option (Answer Call) → Bool → ℤ → Phone → Answer Text × Phone
unfolding record_call
start_outgoing none video now p = (err (bytes "call engine not initialized"), p)
start_outgoing (some (err e)) video now p = (err e, p)
start_outgoing (some (ok call)) video now p = (
  ok call.id,
  record {
    app =
        publishing (ev_call_state call.id (bytes "calling"))
          (record_call call.id call.peer (bytes "out") video false now p.app);
    calls = with_relay (new_relay call.id call.peer video) p.calls;
  },
)

abbrev without_incoming : Text → Phone → Phone
without_incoming call_id p = record p {
  calls = record p.calls { incoming = delete call_id p.calls.incoming };
}

abbrev answered_app : Call → AppState → AppState
answered_app call a =
    publishing (ev_call_state call.id (bytes "connecting"))
      (record a { store = mark_call_answered call.id a.store })

abbrev answer_call : Answer (Unit {0}) → Bool → Call → Phone → Answer Text × Phone
answer_call (err e) video call p = (err e, p)
answer_call (ok _) video call p = (
  ok call.id,
  record {
    app = answered_app call p.app;
    calls = with_relay (new_relay call.id call.peer video) p.calls;
  },
)

-- `answer` is what `call.Answer()` returns. The pending call is taken out in any case.
unfoldable pub accept_incoming : Text → Bool → Answer (Unit {0}) → Phone → Answer Text × Phone
accept_incoming call_id video answer p = elim (lookup call_id p.calls.incoming) [
  | none ↦ (err (bytes "no such incoming call"), without_incoming call_id p)
  | some call ↦ answer_call answer video call (without_incoming call_id p)
]

unfoldable pub reject_incoming : Text → Answer (Unit {0}) → Phone → Answer (Unit {0}) × Phone
reject_incoming call_id rejected p = elim (lookup call_id p.calls.incoming) [
  | none ↦ (err (bytes "no such incoming call"), without_incoming call_id p)
  | some call ↦ (rejected, without_incoming call_id p)
]

abbrev without_relay : Text → Phone → Phone
without_relay call_id p = record p {
  calls = record p.calls { relays = delete call_id p.calls.relays };
}

unfoldable pub hangup : Text → Answer (Unit {0}) → Phone → Answer (Unit {0}) × Phone
hangup call_id hung_up p = elim (lookup call_id p.calls.relays) [
  | none ↦ (err (bytes "no such call"), without_relay call_id p)
  | some relay ↦ (hung_up, without_relay call_id p)
]

unfoldable pub update_relay : Text → (CallRelay → CallRelay) → Phone → Phone
update_relay call_id f p = elim (lookup call_id p.calls.relays) [
  | none ↦ p
  | some relay ↦ record p {
    calls = record p.calls { relays = insert call_id (f relay) p.calls.relays };
  }
]

unfoldable pub set_muted : Text → Bool → Phone → Phone
unfolding update_relay
set_muted call_id muted = update_relay call_id (λ relay. record relay { muted = muted })

unfoldable pub set_camera : Text → Bool → Phone → Phone
unfolding update_relay
set_camera call_id on = update_relay call_id (λ relay. record relay { camera_on = on })

unfoldable pub on_incoming_call : Call → ℤ → Phone → Phone
unfolding record_call
on_incoming_call call now p = record {
  app =
      publishing (ev_incoming_call call.id call.peer call.is_video)
        (record_call call.id call.peer (bytes "in") call.is_video true now p.app);
  calls = record p.calls { incoming = insert call.id call p.calls.incoming };
}

-- The callback that `attachMedia` installs for the end of a call.
unfoldable pub on_end : Text → Text → Phone → Phone
on_end call_id reason p = record {
  app = publishing (ev_call_state call_id (bytes "ended:" ++ reason)) p.app;
  calls = record p.calls { relays = delete call_id p.calls.relays };
}
