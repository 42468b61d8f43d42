-- ===== src/Adapter/Upkeep.antt =====
-- adapter/routes.go: the events of the webhook keep the adapter's state well formed.
use what_is_it.Prelude.{
  Text, bytes, text_eq, [], Option, none, some, or_else, Bool, true, false, ◌≡◌, refl, inl, inr,
  Bool-cases, Option-cases, if◌then◌else◌,
}
use what_is_it.Wire.{Message}
use what_is_it.Adapter.Json.{Fields, member, as_string, as_object, get_string}
use what_is_it.Adapter.Store.{HistoryStore}
use what_is_it.Adapter.Store.Invariant.{
  IsHistory, set_phone-IsHistory, set_name-IsHistory, upsert_message-IsHistory,
  bump_unread-IsHistory, set_status-IsHistory,
}
use what_is_it.Adapter.Hub.{BackendEvent}
use what_is_it.Adapter.Hub.Delivery.{IsHub, broadcasts, hub_step, hub_step-IsHub}
use what_is_it.Adapter.Gateway.{World, Adapter, broadcasting, proxy}
use what_is_it.Adapter.Webhook.{
  webhook, webhook_event, store_upsert, message_upsert, message_update, contacts_upsert,
  connection_update,
}

pub record IsAdapter (a : Adapter) : Type 0 where
  pub history : IsHistory a.store
  pub sockets : IsHub a.hub

pub same-IsAdapter : (a b : Adapter) → b.store ≡ a.store → b.hub ≡ a.hub → IsAdapter a → IsAdapter b
same-IsAdapter a b e h v = record { history = rw e v.history; sockets = rw h v.sockets }

pub broadcasting-IsAdapter :
    (ev : BackendEvent) (a : Adapter) → IsAdapter a → IsAdapter (broadcasting ev a)
unfolding broadcasting hub_step
broadcasting-IsAdapter ev a v =
    let (h, e, k) = hub_step-IsHub (broadcasts ev) a.hub v.sockets in
    rw (e, broadcasting) (record { history = v.history; sockets = k })

pub stored-IsAdapter :
    (s : HistoryStore) (a : Adapter)
    → IsHistory s
    → IsAdapter a
    → IsAdapter (record a { store = s })
stored-IsAdapter s a h v = record { history = h; sockets = v.sockets }

pub announced-IsAdapter :
    (ev : BackendEvent) (s : HistoryStore) (a : Adapter)
    → IsHistory s
    → IsAdapter a
    → IsAdapter (broadcasting ev (record a { store = s }))
announced-IsAdapter ev s a h v = broadcasting-IsAdapter ev _ (stored-IsAdapter s a h v)

-- A request to the gateway changes none of it.
pub asked-IsAdapter :
    (w : World) (method path : Text) (body : Option Fields) (a : Adapter)
    → IsAdapter a
    → IsAdapter (proxy w method path body a).1
unfolding proxy
asked-IsAdapter w method path body a v = same-IsAdapter a _ refl refl v

pub if-IsAdapter :
    (b : Bool) (a c : Adapter) → IsAdapter a → IsAdapter c → IsAdapter (if b then a else c)
if-IsAdapter true a c v w = v
if-IsAdapter false a c v w = w

store_upsert-IsHistory :
    (m : Message) (push_name : Text) (s : HistoryStore)
    → IsHistory s
    → IsHistory (store_upsert m push_name s)
unfolding store_upsert
store_upsert-IsHistory m push_name s v = upsert_message-IsHistory m _ (
    set_name-IsHistory m.chat push_name _ (elim (Bool-cases m.from_me) [
      | inl e ↦ rw e v
      | inr e ↦ rw e (bump_unread-IsHistory m.chat s v)
    ]))

message_upsert-IsAdapter :
    (w : World) (content : Fields) (a : Adapter)
    → IsAdapter a
    → IsAdapter (message_upsert w content a)
unfolding message_upsert
message_upsert-IsAdapter w content a v =
    elim (Option-cases (as_object (member (bytes "message") content))) [
      | inl e ↦ rw (e, message_upsert) v
      | inr (msg, e) ↦
          rw (e, message_upsert)
            (announced-IsAdapter _ _ a
              (store_upsert-IsHistory _ (get_string content (bytes "pushName")) a.store v.history)
              v)
    ]

connection_update-IsAdapter :
    (content : Fields) (a : Adapter) → IsAdapter a → IsAdapter (connection_update content a)
unfolding connection_update
connection_update-IsAdapter content a v =
    if-IsAdapter (text_eq (or_else (as_string (member (bytes "state") content)) []) (bytes "open"))
      _ _
      (announced-IsAdapter _ _ a
        (set_phone-IsHistory (get_string content (bytes "wuid")) a.store v.history) v)
      (if-IsAdapter
        (text_eq (or_else (as_string (member (bytes "state") content)) []) (bytes "close")) _ _
        (announced-IsAdapter _ _ a (set_phone-IsHistory [] a.store v.history) v) v)

webhook_event-IsAdapter :
    (w : World) (kind : Text) (content : Fields) (a : Adapter)
    → IsAdapter a
    → IsAdapter (webhook_event w kind content a)
unfolding webhook_event message_update contacts_upsert
webhook_event-IsAdapter w kind content a v =
    if-IsAdapter (text_eq kind (bytes "messages.upsert")) _ _
      (message_upsert-IsAdapter w content a v)
      (if-IsAdapter (text_eq kind (bytes "messages.update")) _ _
        (announced-IsAdapter _ _ a (set_status-IsHistory _ _ _ a.store v.history) v)
        (if-IsAdapter (text_eq kind (bytes "contacts.upsert")) _ _ (broadcasting-IsAdapter _ a v) (
          if-IsAdapter (text_eq kind (bytes "connection.update")) _ _
            (connection_update-IsAdapter content a v) v)))

pub webhook-IsAdapter :
    (w : World) (is_post : Bool) (event : Option Fields) (a : Adapter)
    → IsAdapter a
    → IsAdapter (webhook w is_post event a).1
unfolding webhook
webhook-IsAdapter w false event a v = v
webhook-IsAdapter w true none a v = v
webhook-IsAdapter w true (some event) a v = webhook_event-IsAdapter w _ _ a v
