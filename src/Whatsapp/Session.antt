-- ===== src/Whatsapp/Session.antt =====
-- server-go/client.go: the events of the WhatsApp session, as they change the shared state. Pairing
-- restarts, presence and the download of media are calls of the client that change none of it.
use what_is_it.Prelude.{
  ℤ, Text, bytes, is_empty, text_eq, not, ◌&&◌, List, [], ◌∷◌, Option, none, some, Bool,
  if◌then◌else◌, Arrangement,
}
use what_is_it.Wire.{Message}
use what_is_it.Store.{HistoryStore, set_name, set_phone, set_status, upsert_message, add_status}
use what_is_it.Bus.{
  ev_linked, ev_message, ev_receipt, ev_logged_out, ev_passkey_req, ev_passkey_conf, ev_passkey_err,
}
use what_is_it.State.{AppState, publishing, set_phone_number, set_qr, set_passkey_pending}
use what_is_it.Whatsapp.{
  Jid, Directory, Payload, contact_name, default_user_server, broadcast_server,
}
use what_is_it.Whatsapp.Extract.{extract_message}
use what_is_it.Whatsapp.History.{SyncConversation, on_history_sync, kind_of}

-- `events.Message`: its `Info` and its content.
pub record MessageEvent : Type 0 where
  pub id : Text
  pub chat : Jid
  pub sender : Jid
  pub time : ℤ
  pub is_from_me : Bool
  pub payload : Payload

-- The message that `onMessage` stores.
unfoldable pub message_of : Directory → MessageEvent → Message
unfolding extract_message
message_of w e =
    record (extract_message e.payload (record {
      id = e.id;
      chat = w.jid_text e.chat;
      text = [];
      dir = if e.is_from_me then bytes "out" else bytes "in";
      time = e.time;
      status = bytes "received";
      reply_to = [];
      reactions = [];
      media = none;
      from_me = e.is_from_me;
    })) { status = if e.is_from_me then bytes "sent" else bytes "received" }

unfoldable pub is_status_post : MessageEvent → Bool
is_status_post e =
    text_eq e.chat.server broadcast_server && (not e.is_from_me && not (is_empty e.sender.user))

abbrev record_post : Directory → MessageEvent → Message → HistoryStore → HistoryStore
record_post w e msg s =
    if is_status_post e
    then add_status
        (record {
          sender = w.jid_text e.sender;
          name = contact_name w e.sender;
          text = msg.text;
          kind = kind_of msg.media;
          time = msg.time;
          media = msg.media;
        })
        s
    else s

unfoldable pub is_direct_chat : MessageEvent → Bool
is_direct_chat e =
    not e.is_from_me
    && (text_eq e.chat.server default_user_server && text_eq e.chat.user e.sender.user)

abbrev update_name : Directory → MessageEvent → HistoryStore → HistoryStore
update_name w e s =
    let name = contact_name w e.sender in
    if is_direct_chat e && (not (is_empty name) && not (text_eq name e.sender.user))
    then set_name (w.jid_text e.chat) name s
    else s

unfoldable pub on_message : Directory → MessageEvent → AppState → AppState
unfolding message_of is_status_post is_direct_chat
on_message w e a =
    let msg = message_of w e in
    publishing (ev_message (w.jid_text e.chat))
      (record a { store = update_name w e (record_post w e msg (upsert_message msg a.store)) })

unfoldable pub set_statuses : Text → List Text → Text → HistoryStore → HistoryStore
set_statuses chat [] status s = s
set_statuses chat (id ∷ ids) status s = set_statuses chat ids status (set_status chat id status s)

-- `read` is whether the receipt's type is read or read-self.
unfoldable pub on_receipt : Text → List Text → Bool → AppState → AppState
unfolding set_statuses
on_receipt chat [] read a = a
on_receipt chat (id ∷ ids) read a = publishing (ev_receipt chat) (record a {
  store = set_statuses chat (id ∷ ids) (if read then bytes "read" else bytes "delivered") a.store;
})

unfoldable pub on_linked : Text → AppState → AppState
unfolding set_phone_number
on_linked phone a =
    let a' = set_phone_number phone a in
    publishing (ev_linked phone) (record a' { store = set_phone phone a'.store })

unfoldable pub on_logged_out : AppState → AppState
unfolding set_phone_number set_qr
on_logged_out a =
    let a' = set_phone_number [] a in
    publishing ev_logged_out (set_qr [] (record a' { store = set_phone [] a'.store }))

-- `options` is the JSON text of the request's public key, and none if it has no public key.
unfoldable pub on_passkey_request : Option Text → AppState → AppState
unfolding set_passkey_pending
on_passkey_request none a =
    publishing (ev_passkey_err (bytes "passkey request had no public key")) a
on_passkey_request (some opts) a = publishing (ev_passkey_req opts) (set_passkey_pending opts a)

-- `connected` carries the phone of the stored session, if there is one.
pub data WaEvent : Type 0 where
  pair_success : (phone : Text) → WaEvent
  connected : (phone : Option Text) → WaEvent
  logged_out : WaEvent
  passkey_request : (options : Option Text) → WaEvent
  passkey_confirmation : (code : Text) → WaEvent
  passkey_error : (error : Text) → WaEvent
  message : MessageEvent → WaEvent
  history_sync : Option (List SyncConversation) → WaEvent
  receipt : (chat : Text) → (ids : List Text) → (read : Bool) → WaEvent
  other : WaEvent

unfoldable pub handle_event : Arrangement → Directory → WaEvent → AppState → AppState
unfolding on_message on_receipt on_linked on_logged_out on_passkey_request on_history_sync
handle_event order w (pair_success phone) a = on_linked phone a
handle_event order w (connected none) a = a
handle_event order w (connected (some phone)) a = on_linked phone a
handle_event order w logged_out a = on_logged_out a
handle_event order w (passkey_request options) a = on_passkey_request options a
handle_event order w (passkey_confirmation code) a = publishing (ev_passkey_conf code) a
handle_event order w (passkey_error error) a = publishing (ev_passkey_err error) a
handle_event order w (message e) a = on_message w e a
handle_event order w (history_sync convs) a = (on_history_sync order w convs a).1
handle_event order w (receipt chat ids read) a = on_receipt chat ids read a
handle_event order w other a = a
