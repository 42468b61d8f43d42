-- ===== src/Adapter/Chats.antt =====
-- adapter/routes.go: the handlers of chats and messages.
use what_is_it.Prelude.{
  ℤ, Text, bytes, is_empty, ◌||◌, List, [], ◌∷◌, ◌++◌, Option, none, some, or_else, true,
  if◌then◌else◌, Dict, insert, has_prefix,
}
use what_is_it.Wire.{Message}
use what_is_it.Calls.{Answer, ok, err}
use what_is_it.Web.Chats.{inbound_ids}
use what_is_it.Adapter.Json.{
  Items, Fields, boolean, string, array, object, end, field, member, as_string, as_object,
}
use what_is_it.Adapter.Snapshot.{encode_texts}
use what_is_it.Adapter.Store
use what_is_it.Adapter.Store.{HistoryStore, upsert_message, mark_read, add_reaction}
use what_is_it.Adapter.Hub.{backend_event}
use what_is_it.Adapter.Gateway.{World, Adapter, broadcasting, message_path, chat_path, proxy}
use what_is_it.Adapter.Reply.{
  Outcome, Upload, Form, succeed, fail, value_of, relayed, done, with_id, with_chats, with_messages,
}

unfoldable pub get_chats : World → Adapter → Outcome
unfolding Store.chats
get_chats w a = succeed (with_chats (Store.chats w.order a.store)) a

unfoldable pub get_messages : Text → Adapter → Outcome
unfolding Store.messages
get_messages chat a =
    if is_empty chat
    then fail 400 (bytes "chat required") a
    else succeed (with_messages (Store.messages chat 200 a.store)) a

-- `getMessageID`
unfoldable pub message_id : Fields → Text
unfolding member
message_id resp = elim (as_object (member (bytes "key") resp)) [
  | none ↦ []
  | some key ↦ or_else (as_string (member (bytes "id") key)) []
]

-- The body of the request to the gateway; with a message to reply to it quotes that.
unfoldable pub text_request : (chat text reply_to : Text) → Fields
text_request chat text reply_to = field (bytes "number") (string chat) (
    field (bytes "text") (string text) (
      if is_empty reply_to
      then end
      else field (bytes "quoted")
          (object (
            field (bytes "key") (object (field (bytes "id") (string reply_to) end)) (
              field (bytes "message") (object (field (bytes "conversation") (string text) end))
                end)))
          end))

unfoldable pub sent_message : ℤ → (id chat text : Text) → Message
sent_message now id chat text = record {
  id = id;
  chat = chat;
  text = text;
  dir = bytes "out";
  time = now;
  status = bytes "sent";
  reply_to = [];
  reactions = [];
  media = none;
  from_me = true;
}

abbrev pub record_sent : World → (chat text : Text) → Option Fields → Adapter → Outcome
record_sent w chat text none a = fail 500 (bytes "invalid response") a
record_sent w chat text (some resp) a = succeed (with_id (message_id resp)) (
    broadcasting (record (backend_event (bytes "message")) { chat = chat })
      (record a {
        store = upsert_message (sent_message w.now (message_id resp) chat text) a.store;
      }))

abbrev pub send_text : World → (chat text reply_to : Text) → Adapter → Outcome
send_text w chat text reply_to a =
    relayed (λ body. record_sent w chat text (w.unmarshal body))
      (proxy w (bytes "POST") (message_path a (bytes "/text"))
        (some (text_request chat text reply_to)) a)

abbrev pub text_at : Text → Fields → Text
text_at key body = or_else (as_string (member key body)) []

unfoldable pub send : World → Option Fields → Adapter → Outcome
unfolding member text_request proxy message_path message_id sent_message
send w none a = fail 400 (bytes "bad request") a
send w (some body) a =
    if is_empty (text_at (bytes "chat") body) || is_empty (text_at (bytes "text") body)
    then fail 400 (bytes "chat and text required") a
    else send_text w (text_at (bytes "chat") body) (text_at (bytes "text") body)
        (text_at (bytes "replyTo") body) a

unfoldable pub media_type : Text → Text
media_type mime =
    if has_prefix (bytes "image/") mime
    then bytes "image"
    else if has_prefix (bytes "video/") mime
    then bytes "video"
    else if has_prefix (bytes "audio/") mime
    then bytes "audio"
    else bytes "document"

-- `os.WriteFile`, whose error is dropped.
abbrev write_file : World → Text → Text → Adapter → Adapter
write_file w name content a = record a {
  files = if w.disk_takes then insert name content a.files else a.files;
}

unfoldable pub media_request : Adapter → (chat : Text) → Upload → Fields
unfolding media_type
media_request a chat up = field (bytes "number") (string chat) (
    field (bytes "mediatype") (string (media_type up.mime)) (
      field (bytes "media") (string (a.media_public_url ++ (bytes "/" ++ up.file_name))) (
        field (bytes "fileName") (string up.file_name)
          (field (bytes "mimetype") (string up.mime) end))))

abbrev upload : World → (chat : Text) → Upload → Answer Text → Adapter → Outcome
upload w chat up (err e) a = fail 400 e a
upload w chat up (ok content) a =
    relayed (λ body. succeed done)
      (proxy w (bytes "POST") (message_path a (bytes "/sendMedia")) (some (media_request a chat up))
        (write_file w up.file_name content a))

abbrev upload_file : World → (chat : Text) → Option Upload → Adapter → Outcome
upload_file w chat none a = fail 400 (bytes "file required") a
upload_file w chat (some up) a = upload w chat up up.content a

unfoldable pub send_media : World → Answer Form → Adapter → Outcome
unfolding proxy message_path media_request
send_media w (err e) a = fail 400 (bytes "bad multipart: " ++ e) a
send_media w (ok form) a =
    if is_empty form.chat
    then fail 400 (bytes "chat required") a
    else upload_file w form.chat form.file a

abbrev read_request : Text → List Text → Fields
read_request chat ids =
    field (bytes "readMessages")
      (array (
        Items.item
          (object (
            field (bytes "remoteJid") (string chat)
              (field (bytes "messageIds") (array (encode_texts ids)) end)))
          Items.nil))
      end

-- The gateway is told of the messages of others; what it answers is dropped.
abbrev tell_read : World → Text → List Text → Adapter → Adapter
tell_read w chat [] a = a
tell_read w chat (id ∷ ids) a =
    (proxy w (bytes "POST") (chat_path a (bytes "/read-messages"))
      (some (read_request chat (id ∷ ids))) a).1

unfoldable pub read : World → Option (Dict Text) → Adapter → Outcome
unfolding inbound_ids Store.messages proxy chat_path encode_texts
read w none a = fail 400 (bytes "bad request") a
read w (some body) a =
    let chat = value_of (bytes "chat") body in
    let a' = tell_read w chat (inbound_ids (Store.messages chat 50 a.store)) a in
    if is_empty chat
    then fail 400 (bytes "chat required") a
    else succeed done (record a' { store = mark_read chat a'.store })

abbrev reaction_request : (chat message_id emoji : Text) → Fields
reaction_request chat id emoji = field (bytes "reaction") (string emoji) (
    field (bytes "key")
      (object (
        field (bytes "remoteJid") (string chat)
          (field (bytes "id") (string id) (field (bytes "fromMe") (boolean true) end))))
      end)

-- The reaction is stored whatever the gateway answers.
unfoldable pub react : World → Option (Dict Text) → Adapter → Outcome
unfolding proxy message_path
react w none a = fail 400 (bytes "bad request") a
react w (some body) a =
    let chat = value_of (bytes "chat") body in
    let id = value_of (bytes "messageId") body in
    let emoji = value_of (bytes "emoji") body in
    let a' =
      (proxy w (bytes "POST") (message_path a (bytes "/sendReaction"))
        (some (reaction_request chat id emoji)) a).1 in
    if is_empty chat || is_empty id
    then fail 400 (bytes "chat and messageId required") a
    else succeed done (record a' { store = add_reaction chat id emoji a'.store })
