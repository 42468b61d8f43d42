-- ===== src/Calls/Answering.antt =====
-- server-go/calls.go: an incoming call is answered or declined once, and the history tells which.
use what_is_it.Prelude.{
  ℤ, Text, bytes, text_eq, text_eq_refl, is_empty, none, some, Bool, true, false, ◌≡◌, arith,
  lookup, lookup-insert, lookup-delete,
}
use what_is_it.Wire.{CallRecord}
use what_is_it.Store.CallHistory.{find_call, find_call-add_call, find_call-mark_call_answered}
use what_is_it.Calls.{
  Answer, ok, err, Call, Phone, new_relay, accept_incoming, reject_incoming, hangup,
  on_incoming_call, record_call,
}

accept_incoming-incoming :
    (id : Text) (video : Bool) (answer : Answer (Unit {0})) (p : Phone)
    → lookup id (accept_incoming id video answer p).1.calls.incoming ≡ none
unfolding accept_incoming
accept_incoming-incoming id video (err x) p =
    ground (arith, lookup-delete id id p.calls.incoming, text_eq_refl id)
accept_incoming-incoming id video (ok _) p =
    ground (arith, lookup-delete id id p.calls.incoming, text_eq_refl id)

reject_incoming-incoming :
    (id : Text) (answer : Answer (Unit {0})) (p : Phone)
    → lookup id (reject_incoming id answer p).1.calls.incoming ≡ none
unfolding reject_incoming
reject_incoming-incoming id answer p =
    ground (arith, lookup-delete id id p.calls.incoming, text_eq_refl id)

abbrev pub no_such_incoming : Text
no_such_incoming = bytes "no such incoming call"

not_pending :
    (id : Text) (video : Bool) (answer : Answer (Unit {0})) (p : Phone)
    → lookup id p.calls.incoming ≡ none
    → ((accept_incoming id video answer p).0 ≡ err no_such_incoming)
      × ((reject_incoming id answer p).0 ≡ err no_such_incoming)
unfolding accept_incoming reject_incoming
not_pending id video answer p e = (rw (e, accept_incoming), rw (e, reject_incoming))

-- A pending call is answered or declined at most once: after either, whatever the engine said to
-- it, both are refused.
pub taken_once :
    (id : Text) (video again : Bool) (answer later : Answer (Unit {0})) (p : Phone)
    → ((accept_incoming id again later (accept_incoming id video answer p).1).0
        ≡ err no_such_incoming)
      × ((reject_incoming id later (accept_incoming id video answer p).1).0 ≡ err no_such_incoming)
      × ((accept_incoming id again later (reject_incoming id answer p).1).0 ≡ err no_such_incoming)
      × ((reject_incoming id later (reject_incoming id answer p).1).0 ≡ err no_such_incoming)
taken_once id video again answer later p =
    let (a, b) =
      not_pending id again later (accept_incoming id video answer p).1
        (accept_incoming-incoming id video answer p) in
    let (c, d) =
      not_pending id again later (reject_incoming id answer p).1
        (reject_incoming-incoming id answer p) in
    (a, b, c, d)

-- A hang-up removes the relay, so a second one finds no call; other relays stay.
pub hangup_once :
    (id : Text) (answer later : Answer (Unit {0})) (p : Phone)
    → ((hangup id later (hangup id answer p).1).0 ≡ err (bytes "no such call"))
      × ((other : Text)
          → text_eq id other ≡ false
          → lookup other (hangup id answer p).1.calls.relays ≡ lookup other p.calls.relays)
unfolding hangup
hangup_once id answer later p = (
  ground (arith, lookup-delete id id p.calls.relays, text_eq_refl id),
  λ other e. ground (arith, lookup-delete id other p.calls.relays),
)

abbrev pub missed_call : Call → ℤ → Bool → CallRecord
missed_call call now missed = record {
  id = call.id;
  peer = call.peer;
  dir = bytes "in";
  video = call.is_video;
  missed = missed;
  time = now;
}

-- A call that rings is in the history as missed. If it is accepted and the engine answers it, there
-- is a relay for it with the peer of the call and the video flag of the request, and the history has
-- it as answered; if the engine fails, or it is declined, it stays missed.
pub ringing_call :
    (call : Call) (now : ℤ) (video : Bool) (p : Phone)
    → is_empty call.id ≡ false
    → (find_call call.id (on_incoming_call call now p).app.store ≡ some (missed_call call now true))
      × ((accept_incoming call.id video (ok tt) (on_incoming_call call now p)).0 ≡ ok call.id)
      × (lookup call.id
            (accept_incoming call.id video (ok tt) (on_incoming_call call now p)).1.calls.relays
          ≡ some (new_relay call.id call.peer video))
      × (find_call call.id
            (accept_incoming call.id video (ok tt) (on_incoming_call call now p)).1.app.store
          ≡ some (missed_call call now false))
      × ((e : Text)
          → find_call call.id
              (accept_incoming call.id video (err e) (on_incoming_call call now p)).1.app.store
            ≡ some (missed_call call now true))
      × ((answer : Answer (Unit {0}))
          → find_call call.id
              (reject_incoming call.id answer (on_incoming_call call now p)).1.app.store
            ≡ some (missed_call call now true))
unfolding on_incoming_call accept_incoming reject_incoming record_call
ringing_call call now video p named = (
  rung,
  rw (pending, accept_incoming),
  rw (pending, accept_incoming) (rw (lookup-insert, text_eq_refl)),
  rw (pending, accept_incoming)
      (find_call-mark_call_answered call.id (missed_call call now true) _ rung),
  (λ e. rw (pending, accept_incoming) rung),
  λ answer. rw (pending, reject_incoming) rung,
)
  where
    rung :
        find_call call.id (on_incoming_call call now p).app.store ≡ some (missed_call call now true)
    rung = find_call-add_call (missed_call call now true) p.app.store named

    pending : lookup call.id (on_incoming_call call now p).calls.incoming ≡ some call
    pending = rw (lookup-insert, text_eq_refl)
