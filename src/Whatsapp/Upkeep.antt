-- ===== src/Whatsapp/Upkeep.antt =====
-- server-go/client.go and server-go/history.go: every event of the session keeps the state well formed.
use what_is_it.Prelude.{
  pos, ltb, Text, is_empty, text_eq, List, [], ◌∷◌, Option, none, some, Bool, true, false, ◌&&◌,
  not, Arrangement, if◌then◌else◌,
}
use what_is_it.Wire.{Message, StatusEntry}
use what_is_it.Store.{HistoryStore, set_phone}
use what_is_it.Store.Operation.{perform, name, phone, meta, upsert, status, post, newer_post}
use what_is_it.Store.Validity.{perform-IsValid}
use what_is_it.Bus.Delivery.{bus_step, bus_step-IsBus, publishes}
use what_is_it.Bus.{Event, ev_message, ev_receipt, ev_chats, ev_linked, ev_logged_out}
use what_is_it.State.{AppState, publishing, set_phone_number, set_qr, set_passkey_pending}
use what_is_it.State.Invariant.{
  IsApp, Keeps, Keeps-refl, Keeps-trans, perform-Keeps, take_snapshot-Keeps, publishing-IsApp,
}
use what_is_it.Whatsapp.{Directory, contact_name, status_broadcast}
use what_is_it.Whatsapp.History.{
  WebMessage, SyncConversation, add_post, add_message, parse_web_message, status_from_web_message,
  sync_message, sync_messages, sync_conversation, sync_conversations, on_history_sync,
}
use what_is_it.Whatsapp.Session.{
  MessageEvent, message_of, is_status_post, is_direct_chat, on_message, set_statuses, on_receipt,
  on_linked, on_logged_out, on_passkey_request, WaEvent, handle_event, pair_success, connected,
  logged_out, passkey_request, passkey_confirmation, passkey_error, message, history_sync, receipt,
  other,
}

-- A branch of the handler that does nothing keeps the store too.
pub if-Keeps : (b : Bool) (s t : HistoryStore) → Keeps s t → Keeps s (if b then t else s)
if-Keeps true s t k = k
if-Keeps false s t k = Keeps-refl s

pub else-Keeps : (b : Bool) (s t : HistoryStore) → Keeps s t → Keeps s (if b then s else t)
else-Keeps true s t k = Keeps-refl s
else-Keeps false s t k = k

pub publication-IsApp : (ev : Event) (a : AppState) → IsApp a → IsApp (publishing ev a)
publication-IsApp ev a v = publishing-IsApp ev a a.store (Keeps-refl a.store) v

pub set_phone-IsApp :
    (p : Text) (ev : Event) (a : AppState)
    → IsApp a
    → IsApp (publishing ev (record a { phone = p; store = set_phone p (set_phone p a.store) }))
unfolding perform bus_step set_phone
set_phone-IsApp p ev a v = record {
  store =
      perform-IsValid (phone p) (set_phone p a.store) (perform-IsValid (phone p) a.store v.store);
  bus = bus_step-IsBus (publishes ev) a.bus v.bus;
}

on_message-IsApp :
    (w : Directory) (e : MessageEvent) (a : AppState) → IsApp a → IsApp (on_message w e a)
unfolding on_message perform
on_message-IsApp w e a v =
    publishing-IsApp (ev_message (w.jid_text e.chat)) a _
      (Keeps-trans
        (Keeps-trans (perform-Keeps (upsert (message_of w e)) a.store)
          (if-Keeps (is_status_post e) _ _ (perform-Keeps (post _) _)))
        (if-Keeps
          (is_direct_chat e
            && (not (is_empty (contact_name w e.sender))
                && not (text_eq (contact_name w e.sender) e.sender.user)))
          _ _ (perform-Keeps (name _ (contact_name w e.sender)) _)))
      v

set_statuses-Keeps :
    (chat : Text) (ids : List Text) (st : Text) (s : HistoryStore)
    → Keeps s (set_statuses chat ids st s)
unfolding set_statuses perform
set_statuses-Keeps chat [] st s = Keeps-refl s
set_statuses-Keeps chat (id ∷ ids) st s =
    Keeps-trans (perform-Keeps (status chat id st) s) (set_statuses-Keeps chat ids st _)

on_receipt-IsApp :
    (chat : Text) (ids : List Text) (read : Bool) (a : AppState)
    → IsApp a
    → IsApp (on_receipt chat ids read a)
unfolding on_receipt
on_receipt-IsApp chat [] read a v = v
on_receipt-IsApp chat (id ∷ ids) read a v =
    publishing-IsApp (ev_receipt chat) a _ (set_statuses-Keeps chat (id ∷ ids) _ a.store) v

add_post-Keeps : (o : Option StatusEntry) (s : HistoryStore) → Keeps s (add_post o s)
unfolding perform
add_post-Keeps none s = Keeps-refl s
add_post-Keeps (some entry) s = perform-Keeps (newer_post entry) s

add_message-Keeps : (o : Option Message) (s : HistoryStore) → Keeps s (add_message o s)
unfolding perform
add_message-Keeps none s = Keeps-refl s
add_message-Keeps (some msg) s = perform-Keeps (upsert msg) s

sync_message-Keeps :
    (w : Directory) (chat : Text) (m : Option WebMessage) (s : HistoryStore)
    → Keeps s (sync_message w chat m s)
unfolding sync_message
sync_message-Keeps w chat none s = Keeps-refl s
sync_message-Keeps w chat (some web) s =
    Keeps-trans
      (if-Keeps (text_eq chat status_broadcast) s _
        (add_post-Keeps (status_from_web_message w web) s))
      (add_message-Keeps (parse_web_message chat web) _)

sync_messages-Keeps :
    (w : Directory) (chat : Text) (ms : List (Option WebMessage)) (s : HistoryStore)
    → Keeps s (sync_messages w chat ms s)
unfolding sync_messages
sync_messages-Keeps w chat [] s = Keeps-refl s
sync_messages-Keeps w chat (m ∷ ms) s =
    Keeps-trans (sync_message-Keeps w chat m s) (sync_messages-Keeps w chat ms _)

sync_conversation-Keeps :
    (w : Directory) (c : SyncConversation) (s : HistoryStore) → Keeps s (sync_conversation w c s)
unfolding sync_conversation perform
sync_conversation-Keeps w c s = else-Keeps (is_empty c.id) s _ (
    Keeps-trans
      (Keeps-trans (else-Keeps (is_empty c.name) s _ (perform-Keeps (name c.id c.name) s))
        (perform-Keeps (meta c.id c.name (pos c.unread_count) (ltb 0 c.pinned)) _))
      (sync_messages-Keeps w c.id c.messages _))

sync_conversations-Keeps :
    (w : Directory) (cs : List SyncConversation) (s : HistoryStore)
    → Keeps s (sync_conversations w cs s)
unfolding sync_conversations
sync_conversations-Keeps w [] s = Keeps-refl s
sync_conversations-Keeps w (c ∷ cs) s =
    Keeps-trans (sync_conversation-Keeps w c s) (sync_conversations-Keeps w cs _)

on_history_sync-IsApp :
    (order : Arrangement) (w : Directory) (convs : Option (List SyncConversation)) (a : AppState)
    → IsApp a
    → IsApp ((on_history_sync order w convs a).1)
unfolding on_history_sync
on_history_sync-IsApp order w none a v = v
on_history_sync-IsApp order w (some convs) a v =
    publishing-IsApp ev_chats a _
      (Keeps-trans (sync_conversations-Keeps w convs a.store) (take_snapshot-Keeps order _)) v

on_passkey_request-IsApp :
    (options : Option Text) (a : AppState) → IsApp a → IsApp (on_passkey_request options a)
unfolding on_passkey_request set_passkey_pending
on_passkey_request-IsApp none a v = publication-IsApp _ a v
on_passkey_request-IsApp (some opts) a v =
    publication-IsApp _ _ (record { store = v.store; bus = v.bus })

on_linked-IsApp : (p : Text) (a : AppState) → IsApp a → IsApp (on_linked p a)
unfolding on_linked set_phone_number
on_linked-IsApp p a v = set_phone-IsApp p (ev_linked p) a v

on_logged_out-IsApp : (a : AppState) → IsApp a → IsApp (on_logged_out a)
unfolding on_logged_out set_phone_number set_qr
on_logged_out-IsApp a v =
    let h = set_phone-IsApp [] ev_logged_out a v in record { store = h.store; bus = h.bus }

-- Every event of the session, a history sync included, keeps the state well formed: the store to its
-- invariant and the bus to its own.
pub handle_event-IsApp :
    (order : Arrangement) (w : Directory) (e : WaEvent) (a : AppState)
    → IsApp a
    → IsApp (handle_event order w e a)
unfolding handle_event
handle_event-IsApp order w (pair_success p) a v = on_linked-IsApp p a v
handle_event-IsApp order w (connected none) a v = v
handle_event-IsApp order w (connected (some p)) a v = on_linked-IsApp p a v
handle_event-IsApp order w logged_out a v = on_logged_out-IsApp a v
handle_event-IsApp order w (passkey_request options) a v = on_passkey_request-IsApp options a v
handle_event-IsApp order w (passkey_confirmation code) a v = publication-IsApp _ a v
handle_event-IsApp order w (passkey_error error) a v = publication-IsApp _ a v
handle_event-IsApp order w (message e) a v = on_message-IsApp w e a v
handle_event-IsApp order w (history_sync convs) a v = on_history_sync-IsApp order w convs a v
handle_event-IsApp order w (receipt chat ids read) a v = on_receipt-IsApp chat ids read a v
handle_event-IsApp order w other a v = v
