-- ===== src/Web/CallUpkeep.antt =====
-- server-go/web.go: the requests on calls keep the shared state well formed.
use what_is_it.Prelude.{
  ℤ, Text, bytes, Option, none, some, Bool, false, arith, inl, inr, Option-cases, lookup,
}
use what_is_it.Store.{mark_call_answered}
use what_is_it.Store.Operation.{perform, call, answered}
use what_is_it.Bus.{Event, ev_call_state}
use what_is_it.State.{AppState, publishing, is_linked}
use what_is_it.State.Invariant.{IsApp, perform-Keeps, publishing-IsApp}
use what_is_it.Calls.{
  Answer-cases, Phone, start_outgoing, accept_incoming, reject_incoming, hangup, record_call,
  set_muted, set_camera, update_relay,
}
use what_is_it.Web.{World, Outcome}
use what_is_it.Web.Chats.{when_linked}
use what_is_it.Web.Calling.{call_start, call_accept, call_reject, call_end}

-- An outcome leaves a well-formed state.
abbrev pub Leaves : Outcome → Type 0
Leaves o = IsApp o.1.app

-- A call in the history and its event.
pub recorded-IsApp :
    (ev : Event) (id peer dir : Text) (video missed : Bool) (now : ℤ) (a : AppState)
    → IsApp a
    → IsApp (publishing ev (record_call id peer dir video missed now a))
unfolding record_call perform
recorded-IsApp ev id peer dir video missed now a v =
    publishing-IsApp ev a _ (perform-Keeps (call _) a.store) v

answered-IsApp :
    (ev : Event) (id : Text) (a : AppState)
    → IsApp a
    → IsApp (publishing ev (record a { store = mark_call_answered id a.store }))
unfolding perform
answered-IsApp ev id a v = publishing-IsApp ev a _ (perform-Keeps (answered id) a.store) v

pub call_start-Leaves :
    (w : World) (body : Option (Text × Bool)) (p : Phone)
    → IsApp p.app
    → Leaves (call_start w body p)
unfolding call_start when_linked is_linked start_outgoing
call_start-Leaves w none p v = ground arith
call_start-Leaves w (some b) p v = elim (Option-cases w.engine) [
  | inl h ↦ ground arith
  | inr (call_with, h) ↦ elim (Answer-cases (call_with b.0 b.1)) [
    | inl (c, h') ↦ ground (
      arith,
      recorded-IsApp (ev_call_state c.id (bytes "calling")) c.id c.peer (bytes "out") b.1 false
          w.now p.app v,
    )
    | inr (e, h') ↦ ground arith
  ]
]

pub call_accept-Leaves :
    (w : World) (body : Option (Text × Bool)) (p : Phone)
    → IsApp p.app
    → Leaves (call_accept w body p)
unfolding call_accept accept_incoming
call_accept-Leaves w none p v = ground arith
call_accept-Leaves w (some b) p v = elim (Option-cases (lookup b.0 p.calls.incoming)) [
  | inl h ↦ ground arith
  | inr (c, h) ↦
      ground (arith, answered-IsApp (ev_call_state c.id (bytes "connecting")) c.id p.app v)
]

pub call_reject-Leaves :
    (w : World) (body : Option Text) (p : Phone) → IsApp p.app → Leaves (call_reject w body p)
unfolding call_reject reject_incoming
call_reject-Leaves w none p v = v
call_reject-Leaves w (some id) p v = ground arith

pub call_end-Leaves :
    (w : World) (body : Option Text) (p : Phone) → IsApp p.app → Leaves (call_end w body p)
unfolding call_end hangup
call_end-Leaves w none p v = v
call_end-Leaves w (some id) p v = ground arith

pub relay-Leaves :
    (id : Text) (b : Bool) (p : Phone)
    → IsApp p.app
    → IsApp (set_muted id b p).app × IsApp (set_camera id b p).app
unfolding set_muted set_camera update_relay
relay-Leaves id b p v = (ground arith, ground arith)
