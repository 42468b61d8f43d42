-- ===== src/Whatsapp/History.antt =====
-- server-go/history.go: the store is filled from a history sync.
use what_is_it.Prelude.{
  ℕ, pos, ltb, Text, bytes, is_empty, text_eq, List, [], ◌∷◌, Option, none, some, Bool,
  if◌then◌else◌, millis_of_seconds, Arrangement,
}
use what_is_it.Wire.{Message, MediaRef, StatusEntry}
use what_is_it.Store.{HistoryStore, set_name, upsert_chat_meta, upsert_message, add_status_if_newer}
use what_is_it.Store.Query.{Snapshot, take_snapshot}
use what_is_it.Bus.{ev_chats}
use what_is_it.State.{AppState, publishing}
use what_is_it.Calls.{ok, err}
use what_is_it.Whatsapp.{Directory, Payload, contact_name, status_broadcast}
use what_is_it.Whatsapp.Extract.{extract_web_fields}

pub record MessageKey : Type 0 where
  pub from_me : Bool
  pub id : Text
  pub participant : Text

-- `waWeb.WebMessageInfo`; the time is a `uint64` of seconds.
pub record WebMessage : Type 0 where
  pub message : Option Payload
  pub key : Option MessageKey
  pub timestamp : ℕ

pub record SyncConversation : Type 0 where
  pub id : Text
  pub name : Text
  pub unread_count : ℕ
  pub pinned : ℕ
  pub messages : List (Option WebMessage)

abbrev parse_parts : Text → ℕ → Option Payload → Option MessageKey → Option Message
parse_parts chat seconds (some m) (some key) =
    if is_empty key.id
    then none
    else some (record {
      id = key.id;
      chat = chat;
      text = (extract_web_fields m).text;
      dir = if key.from_me then bytes "out" else bytes "in";
      time = millis_of_seconds seconds;
      status = if key.from_me then bytes "sent" else [];
      reply_to = (extract_web_fields m).reply_to;
      reactions = [];
      media = (extract_web_fields m).media;
      from_me = key.from_me;
    })
parse_parts chat seconds (some m) none = none
parse_parts chat seconds none key = none

unfoldable pub parse_web_message : Text → WebMessage → Option Message
unfolding extract_web_fields
parse_web_message chat web = parse_parts chat web.timestamp web.message web.key

abbrev pub kind_of : Option MediaRef → Text
kind_of none = bytes "text"
kind_of (some m) = m.kind

-- The name of a sender: `contactName` of its JID, or the sender itself if it cannot be parsed.
abbrev sender_name : Directory → Text → Text
sender_name w sender = elim (w.parse_jid sender) [ ok jid ↦ contact_name w jid | err e ↦ sender ]

abbrev status_parts : Directory → ℕ → Option Payload → Option MessageKey → Option StatusEntry
status_parts w seconds (some m) (some key) =
    if key.from_me
    then none
    else if is_empty key.participant
    then none
    else some (record {
      sender = key.participant;
      name = sender_name w key.participant;
      text = (extract_web_fields m).text;
      kind = kind_of (extract_web_fields m).media;
      time = millis_of_seconds seconds;
      media = (extract_web_fields m).media;
    })
status_parts w seconds (some m) none = none
status_parts w seconds none key = none

unfoldable pub status_from_web_message : Directory → WebMessage → Option StatusEntry
unfolding extract_web_fields contact_name
status_from_web_message w web = status_parts w web.timestamp web.message web.key

abbrev pub add_post : Option StatusEntry → HistoryStore → HistoryStore
add_post none s = s
add_post (some entry) s = add_status_if_newer entry s

abbrev pub add_message : Option Message → HistoryStore → HistoryStore
add_message none s = s
add_message (some msg) s = upsert_message msg s

unfoldable pub sync_message : Directory → Text → Option WebMessage → HistoryStore → HistoryStore
unfolding status_from_web_message parse_web_message
sync_message w chat none s = s
sync_message w chat (some web) s =
    add_message (parse_web_message chat web)
      (if text_eq chat status_broadcast then add_post (status_from_web_message w web) s else s)

unfoldable pub sync_messages :
    Directory → Text → List (Option WebMessage) → HistoryStore → HistoryStore
unfolding sync_message
sync_messages w chat [] s = s
sync_messages w chat (m ∷ ms) s = sync_messages w chat ms (sync_message w chat m s)

-- `SetName` does nothing for an empty name, as the guard around it.
unfoldable pub sync_conversation : Directory → SyncConversation → HistoryStore → HistoryStore
unfolding sync_messages
sync_conversation w conv s =
    if is_empty conv.id
    then s
    else sync_messages w conv.id conv.messages (
        upsert_chat_meta conv.id conv.name (pos conv.unread_count) (ltb 0 conv.pinned)
          (if is_empty conv.name then s else set_name conv.id conv.name s))

unfoldable pub sync_conversations : Directory → List SyncConversation → HistoryStore → HistoryStore
unfolding sync_conversation
sync_conversations w [] s = s
sync_conversations w (c ∷ cs) s = sync_conversations w cs (sync_conversation w c s)

-- `onHistorySync`: the snapshot that `Flush` takes, if any, and the state after it.
unfoldable pub on_history_sync :
    Arrangement → Directory → Option (List SyncConversation) → AppState → Option Snapshot × AppState
unfolding sync_conversations
on_history_sync order w none a = (none, a)
on_history_sync order w (some convs) a =
    let (snap, s) = take_snapshot order (sync_conversations w convs a.store) in
    (some snap, publishing ev_chats (record a { store = s }))
