-- ===== src/State.antt =====
-- server-go/state.go: the state that the handlers share. The pending passkey ceremony is a channel
-- of capacity one; a channel is named by the number of its creation, and its slot is what it holds.
pub mod Invariant
use what_is_it.Prelude.{
  ℕ, suc, ◌==◌, Text, is_empty, not, List, [], ◌∷◌, Option, none, some, Bool, true, false,
  if◌then◌else◌,
}
use what_is_it.Store.{HistoryStore, new_store, set_phone}
use what_is_it.Bus.{Event, EventBus, new_event_bus, publish}

pub record PasskeyAssertion : Type 0 where
  pub credential_id : Text
  pub assertion_json : Text

pub record PasskeyAnswer : Type 0 where
  pub assertion : Option PasskeyAssertion
  pub cancelled : Bool

pub record Slot : Type 0 where
  pub id : ℕ
  pub held : Option PasskeyAnswer

pub record AppState : Type 0 where
  pub token : Text
  pub store : HistoryStore
  pub bus : EventBus
  pub qr : Text
  pub phone : Text
  pub pair_code : Text
  pub passkey_pending : Text
  pub passkey_answer : Option ℕ
  pub slots : List Slot
  pub next_slot : ℕ

-- `NewAppState` over the store that was loaded.
abbrev pub new_app_state : Text → HistoryStore → AppState
new_app_state token store = record {
  token = token;
  store = store;
  bus = new_event_bus;
  qr = [];
  phone = [];
  pair_code = [];
  passkey_pending = [];
  passkey_answer = none;
  slots = [];
  next_slot = 0;
}

unfoldable pub is_linked : AppState → Bool
is_linked a = not (is_empty a.phone)

-- The two critical sections of `SetPhone`.
abbrev pub set_own_phone : Text → AppState → AppState
set_own_phone phone a = record a { phone = phone }

abbrev pub set_store_phone : Text → AppState → AppState
set_store_phone phone a = record a { store = set_phone phone a.store }

-- `SetPhone`, when nothing runs in between.
unfoldable pub set_phone_number : Text → AppState → AppState
unfolding set_phone
set_phone_number phone a = set_store_phone phone (set_own_phone phone a)

unfoldable pub set_qr : Text → AppState → AppState
set_qr qr a = record a { qr = qr }

unfoldable pub set_pair_code : Text → AppState → AppState
set_pair_code code a = record a { pair_code = code }

unfoldable pub take_passkey_pending : AppState → Option Text × AppState
take_passkey_pending a =
    if is_empty a.passkey_pending
    then (none, a)
    else (some a.passkey_pending, record a { passkey_pending = [] })

unfoldable pub set_passkey_pending : Text → AppState → AppState
set_passkey_pending options a = record a { passkey_pending = options }

-- `select { case ch <- answer: default: }`: whether the answer was taken, and the slots after.
unfoldable pub send_answer : ℕ → PasskeyAnswer → List Slot → Bool × List Slot
send_answer id answer [] = (false, [])
send_answer id answer (s ∷ ss) =
    let (sent, rest) = send_answer id answer ss in
    if s.id == id
    then elim s.held [
      | none ↦ (true, record s { held = some answer } ∷ ss)
      | some old ↦ (false, s ∷ ss)
    ]
    else (sent, s ∷ rest)

abbrev pub cancelled_answer : PasskeyAnswer
cancelled_answer = record { assertion = none; cancelled = true }

abbrev cancel_old : Option ℕ → List Slot → List Slot
cancel_old none slots = slots
cancel_old (some old) slots = (send_answer old cancelled_answer slots).1

unfoldable pub install_passkey_answer : AppState → ℕ × AppState
unfolding send_answer
install_passkey_answer a = (
  a.next_slot,
  record a {
    passkey_answer = some a.next_slot;
    slots = record { id = a.next_slot; held = none } ∷ cancel_old a.passkey_answer a.slots;
    next_slot = suc a.next_slot;
  },
)

unfoldable pub take_passkey_answer : AppState → Option ℕ × AppState
take_passkey_answer a = (a.passkey_answer, record a { passkey_answer = none })

abbrev pub publishing : Event → AppState → AppState
publishing ev a = record a { bus = publish ev a.bus }
