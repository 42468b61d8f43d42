-- ===== src/State/Invariant.antt =====
-- server-go/state.go: what the shared state keeps to, and the steps of a handler that keep it so.
use what_is_it.Prelude.{Arrangement}
use what_is_it.Store.{HistoryStore}
use what_is_it.Store.Operation.{Operation, perform}
use what_is_it.Store.Invariant.{IsValid}
use what_is_it.Store.Validity.{perform-IsValid}
use what_is_it.Store.Query.{take_snapshot}
use what_is_it.Bus.{Event}
use what_is_it.Bus.Delivery.{IsBus, bus_step, bus_step-IsBus, publishes}
use what_is_it.State.{AppState, publishing}

-- The store and the bus are well formed. The phone number of the store need not be that of the state:
-- `SetPhone` sets one after the other.
pub record IsApp (a : AppState) : Type 0 where
  pub store : IsValid a.store
  pub bus : IsBus a.bus

-- A step of a session on the store: it stays well formed.
pub record Keeps (s t : HistoryStore) : Type 0 where
  pub valid : IsValid s → IsValid t

pub Keeps-refl : (s : HistoryStore) → Keeps s s
Keeps-refl s = record { valid = λ v. v }

pub Keeps-trans : {s t u : HistoryStore} → Keeps s t → Keeps t u → Keeps s u
Keeps-trans {s} {t} {u} h k = record { valid = λ v. k.valid (h.valid v) }

pub perform-Keeps : (op : Operation) (s : HistoryStore) → Keeps s (perform op s)
perform-Keeps op s = record { valid = λ v. perform-IsValid op s v }

take_snapshot-IsValid :
    (order : Arrangement) (s : HistoryStore) → IsValid s → IsValid ((take_snapshot order s).1)
unfolding take_snapshot
take_snapshot-IsValid order s v = record {
  chat_keys = v.chat_keys;
  conversations = v.conversations;
  named = v.named;
  status_keys = v.status_keys;
  posts = v.posts;
  history = v.history;
}

pub take_snapshot-Keeps :
    (order : Arrangement) (s : HistoryStore) → Keeps s ((take_snapshot order s).1)
unfolding take_snapshot
take_snapshot-Keeps order s = record { valid = λ v. take_snapshot-IsValid order s v }

-- A handler that changes the store by such steps and publishes an event keeps the state well formed.
pub publishing-IsApp :
    (ev : Event) (a : AppState) (t : HistoryStore)
    → Keeps a.store t
    → IsApp a
    → IsApp (publishing ev (record a { store = t }))
unfolding bus_step
publishing-IsApp ev a t k v = record {
  store = k.valid v.store;
  bus = bus_step-IsBus (publishes ev) a.bus v.bus;
}

pub stored-IsApp :
    (a : AppState) (t : HistoryStore) → Keeps a.store t → IsApp a → IsApp (record a { store = t })
stored-IsApp a t k v = record { store = k.valid v.store; bus = v.bus }
