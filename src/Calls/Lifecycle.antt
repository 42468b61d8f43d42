-- ===== src/Calls/Lifecycle.antt =====
-- server-go/calls.go: the life of a call in the registry and in the call history.
use what_is_it.Prelude.{
  ℤ, Text, text_eq_iff, Option, none, some, Bool, ◌≡◌, refl, inl, inr, arith, Option-cases, lookup,
  insert, delete, lookup-insert, lookup-delete,
}
use what_is_it.Calls.{
  Answer, ok, err, Call, CallRelay, CallRegistry, Phone, new_relay, start_outgoing, accept_incoming,
  reject_incoming, hangup, set_muted, set_camera, update_relay, on_incoming_call, on_end,
}

-- The maps of the registry are keyed by the ids of what they hold.
pub record IsRegistry (r : CallRegistry) : Type 0 where
  pub relay_keys : (k : Text) (c : CallRelay) → lookup k r.relays ≡ some c → c.id ≡ k
  pub incoming_keys : (k : Text) (c : Call) → lookup k r.incoming ≡ some c → c.id ≡ k

-- What the app, the engine and the peer can do to the registry.
pub data CallStep (p : Phone) : Phone → Type 0 where
  places :
      (engine : Option (Answer Call)) (video : Bool) (now : ℤ) {q : Phone}
      → q ≡ (start_outgoing engine video now p).1
      → CallStep p q
  rings : (call : Call) (now : ℤ) {q : Phone} → q ≡ on_incoming_call call now p → CallStep p q
  accepts :
      (id : Text) (video : Bool) (answer : Answer (Unit {0})) {q : Phone}
      → q ≡ (accept_incoming id video answer p).1
      → CallStep p q
  rejects :
      (id : Text) (answer : Answer (Unit {0})) {q : Phone}
      → q ≡ (reject_incoming id answer p).1
      → CallStep p q
  hangs_up :
      (id : Text) (answer : Answer (Unit {0})) {q : Phone}
      → q ≡ (hangup id answer p).1
      → CallStep p q
  mutes : (id : Text) (muted : Bool) {q : Phone} → q ≡ set_muted id muted p → CallStep p q
  turns_camera : (id : Text) (on : Bool) {q : Phone} → q ≡ set_camera id on p → CallStep p q
  ends : (id reason : Text) {q : Phone} → q ≡ on_end id reason p → CallStep p q

inserted_relay :
    (r : CallRegistry) (relay : CallRelay)
    → IsRegistry r
    → IsRegistry (record r { relays = insert relay.id relay r.relays })
inserted_relay r relay v = record {
  relay_keys = λ k c e.
      ground
        (arith, lookup-insert relay.id k relay r.relays, text_eq_iff relay.id k, v.relay_keys k c);
  incoming_keys = v.incoming_keys;
}

removed_incoming :
    (r : CallRegistry) (id : Text)
    → IsRegistry r
    → IsRegistry (record r { incoming = delete id r.incoming })
removed_incoming r id v = record {
  relay_keys = v.relay_keys;
  incoming_keys =
      λ k c e. ground (arith, lookup-delete id k r.incoming, text_eq_iff id k, v.incoming_keys k c);
}

removed_relay :
    (r : CallRegistry) (id : Text)
    → IsRegistry r
    → IsRegistry (record r { relays = delete id r.relays })
removed_relay r id v = record {
  relay_keys =
      λ k c e. ground (arith, lookup-delete id k r.relays, text_eq_iff id k, v.relay_keys k c);
  incoming_keys = v.incoming_keys;
}

inserted_incoming :
    (r : CallRegistry) (call : Call)
    → IsRegistry r
    → IsRegistry (record r { incoming = insert call.id call r.incoming })
inserted_incoming r call v = record {
  relay_keys = v.relay_keys;
  incoming_keys = λ k c e.
      ground (
        arith,
        lookup-insert call.id k call r.incoming,
        text_eq_iff call.id k,
        v.incoming_keys k c,
      );
}

update_relay-IsRegistry :
    (id : Text) (f : CallRelay → CallRelay) (p : Phone)
    → ((c : CallRelay) → (f c).id ≡ c.id)
    → IsRegistry p.calls
    → IsRegistry (update_relay id f p).calls
unfolding update_relay
update_relay-IsRegistry id f p same v = elim (Option-cases (lookup id p.calls.relays)) [
  | inl e ↦ rw (e, update_relay) v
  | inr (c, e) ↦
      rw (e, update_relay)
        (record {
          relay_keys = λ k d found. ground (
            arith,
            lookup-insert id k (f c) p.calls.relays,
            text_eq_iff id k,
            v.relay_keys k d,
            same c,
            v.relay_keys id c e,
          );
          incoming_keys = v.incoming_keys;
        })
]

accept_incoming-IsRegistry :
    (id : Text) (video : Bool) (answer : Answer (Unit {0})) (p : Phone)
    → IsRegistry p.calls
    → IsRegistry (accept_incoming id video answer p).1.calls
unfolding accept_incoming
accept_incoming-IsRegistry id video (err x) p v = elim (Option-cases (lookup id p.calls.incoming)) [
  | inl e ↦ rw (e, accept_incoming) (removed_incoming p.calls id v)
  | inr (call, e) ↦ rw (e, accept_incoming) (removed_incoming p.calls id v)
]
accept_incoming-IsRegistry id video (ok _) p v = elim (Option-cases (lookup id p.calls.incoming)) [
  | inl e ↦ rw (e, accept_incoming) (removed_incoming p.calls id v)
  | inr (call, e) ↦
      rw (e, accept_incoming)
        (inserted_relay (record p.calls { incoming = delete id p.calls.incoming })
          (new_relay call.id call.peer video) (removed_incoming p.calls id v))
]

reject_incoming-IsRegistry :
    (id : Text) (answer : Answer (Unit {0})) (p : Phone)
    → IsRegistry p.calls
    → IsRegistry (reject_incoming id answer p).1.calls
unfolding reject_incoming
reject_incoming-IsRegistry id answer p v = elim (Option-cases (lookup id p.calls.incoming)) [
  | inl e ↦ rw (e, reject_incoming) (removed_incoming p.calls id v)
  | inr (call, e) ↦ rw (e, reject_incoming) (removed_incoming p.calls id v)
]

hangup-IsRegistry :
    (id : Text) (answer : Answer (Unit {0})) (p : Phone)
    → IsRegistry p.calls
    → IsRegistry (hangup id answer p).1.calls
unfolding hangup
hangup-IsRegistry id answer p v = elim (Option-cases (lookup id p.calls.relays)) [
  | inl e ↦ rw (e, hangup) (removed_relay p.calls id v)
  | inr (call, e) ↦ rw (e, hangup) (removed_relay p.calls id v)
]

start_outgoing-IsRegistry :
    (engine : Option (Answer Call)) (video : Bool) (now : ℤ) (p : Phone)
    → IsRegistry p.calls
    → IsRegistry (start_outgoing engine video now p).1.calls
unfolding start_outgoing
start_outgoing-IsRegistry none video now p v = v
start_outgoing-IsRegistry (some (err e)) video now p v = v
start_outgoing-IsRegistry (some (ok call)) video now p v =
    inserted_relay p.calls (new_relay call.id call.peer video) v

-- Every relay and every pending call stands under its own id, whatever the app, the engine and the
-- peers do.
pub CallStep-IsRegistry : (p q : Phone) → IsRegistry p.calls → CallStep p q → IsRegistry q.calls
unfolding on_incoming_call on_end set_muted set_camera
CallStep-IsRegistry p q v (places engine video now e) =
    rw e (start_outgoing-IsRegistry engine video now p v)
CallStep-IsRegistry p q v (rings call now e) = rw e (inserted_incoming p.calls call v)
CallStep-IsRegistry p q v (accepts id video answer e) =
    rw e (accept_incoming-IsRegistry id video answer p v)
CallStep-IsRegistry p q v (rejects id answer e) = rw e (reject_incoming-IsRegistry id answer p v)
CallStep-IsRegistry p q v (hangs_up id answer e) = rw e (hangup-IsRegistry id answer p v)
CallStep-IsRegistry p q v (mutes id muted e) = rw e (update_relay-IsRegistry id _ p (λ c. refl) v)
CallStep-IsRegistry p q v (turns_camera id on e) =
    rw e (update_relay-IsRegistry id _ p (λ c. refl) v)
CallStep-IsRegistry p q v (ends id reason e) = rw e (removed_relay p.calls id v)
