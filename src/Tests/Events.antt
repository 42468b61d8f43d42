-- ===== src/Tests/Events.antt =====
-- The theorems on the session and on the calls at concrete events.
use what_is_it.Prelude.{pos, Text, bytes, none, some, true, false, ◌≡◌, refl, arith, lookup}
use what_is_it.Calls.{
  Answer, ok, err, Phone, new_relay, accept_incoming, reject_incoming, on_incoming_call,
}
use what_is_it.Calls.Lifecycle.{IsRegistry, rings, CallStep-IsRegistry}
use what_is_it.Calls.Answering.{taken_once, ringing_call, no_such_incoming, missed_call}
use what_is_it.Store.CallHistory.{find_call}
use what_is_it.Whatsapp.{Jid}
use what_is_it.Whatsapp.Session.{MessageEvent}
use what_is_it.Tests.{call_ada, chat_ada, new_phone}

abbrev ada : Jid
ada = record { user = bytes "ada"; server = bytes "s.whatsapp.net" }

abbrev good_day : MessageEvent
good_day = record {
  id = bytes "m4";
  chat = ada;
  sender = ada;
  time = pos 8;
  is_from_me = false;
  payload = record {
    conversation = bytes "good day";
    extended = none;
    image = none;
    video = none;
    audio = none;
    document = none;
    sticker = none;
    reaction = none;
  };
}

no_calls-IsRegistry : IsRegistry new_phone.calls
unfolding lookup
no_calls-IsRegistry = record {
  relay_keys = λ k c e. ground arith;
  incoming_keys = λ k c e. ground arith;
}

abbrev ringing : Phone
ringing = on_incoming_call call_ada (pos 3) new_phone

CallStep-IsRegistry_example : IsRegistry ringing.calls
CallStep-IsRegistry_example =
    CallStep-IsRegistry new_phone ringing no_calls-IsRegistry (rings call_ada (pos 3) refl)

taken_once_example :
    ((accept_incoming
        (bytes "c1")
        true
        (ok tt)
        (accept_incoming (bytes "c1") true (ok tt) ringing).1).0
      ≡ err no_such_incoming)
    × ((reject_incoming
          (bytes "c1")
          (ok tt)
          (accept_incoming (bytes "c1") true (ok tt) ringing).1).0
        ≡ err no_such_incoming)
    × ((accept_incoming
          (bytes "c1")
          true
          (ok tt)
          (reject_incoming (bytes "c1") (ok tt) ringing).1).0
        ≡ err no_such_incoming)
    × ((reject_incoming (bytes "c1") (ok tt) (reject_incoming (bytes "c1") (ok tt) ringing).1).0
        ≡ err no_such_incoming)
taken_once_example = taken_once (bytes "c1") true true (ok tt) (ok tt) ringing

ringing_call_example :
    (find_call (bytes "c1") ringing.app.store ≡ some (missed_call call_ada (pos 3) true))
    × ((accept_incoming (bytes "c1") true (ok tt) ringing).0 ≡ ok (bytes "c1"))
    × (lookup (bytes "c1") (accept_incoming (bytes "c1") true (ok tt) ringing).1.calls.relays
        ≡ some (new_relay (bytes "c1") chat_ada true))
    × (find_call (bytes "c1") (accept_incoming (bytes "c1") true (ok tt) ringing).1.app.store
        ≡ some (missed_call call_ada (pos 3) false))
    × ((e : Text)
        → find_call (bytes "c1") (accept_incoming (bytes "c1") true (err e) ringing).1.app.store
          ≡ some (missed_call call_ada (pos 3) true))
    × ((answer : Answer (Unit {0}))
        → find_call (bytes "c1") (reject_incoming (bytes "c1") answer ringing).1.app.store
          ≡ some (missed_call call_ada (pos 3) true))
ringing_call_example = ringing_call call_ada (pos 3) true new_phone refl
