-- ===== src/Adapter/Webhook.antt =====
-- adapter/routes.go: the webhook by which the gateway reports messages, statuses and the connection.
use what_is_it.Prelude.{
  ℕ, pos, Text, bytes, text_eq, [], Option, none, some, or_else, Bool, true, false, if◌then◌else◌,
}
use what_is_it.Wire.{Message, MediaRef}
use what_is_it.Adapter.Json.{
  Fields, Numbers, member, as_string, as_bool, as_object, as_int, fields_or_nil, get_string,
}
use what_is_it.Adapter.Store.{
  HistoryStore, bump_unread, set_name, upsert_message, set_status, set_phone,
}
use what_is_it.Adapter.Hub.{backend_event}
use what_is_it.Adapter.Gateway.{World, Adapter, broadcasting}

abbrev media : Text → Text → Text → Text → Text → MediaRef
media kind url thumb caption mime = record {
  kind = kind;
  url = url;
  thumb_url = thumb;
  caption = caption;
  mime = mime;
}

abbrev or_sticker : Option Fields → Option MediaRef
or_sticker none = none
or_sticker (some s) =
    some
      (media (bytes "sticker") (get_string s (bytes "url")) [] [] (get_string s (bytes "mimetype")))

abbrev or_document : Option Fields → Option MediaRef → Option MediaRef
or_document none rest = rest
or_document (some d) rest = some (
    media (bytes "document") (get_string d (bytes "url")) [] (get_string d (bytes "caption"))
      (get_string d (bytes "mimetype")))

abbrev or_audio : Option Fields → Option MediaRef → Option MediaRef
or_audio none rest = rest
or_audio (some a) rest =
    some
      (media (bytes "audio") (get_string a (bytes "url")) [] [] (get_string a (bytes "mimetype")))

-- The image and the video read the same fields.
abbrev or_picture : Text → Option Fields → Option MediaRef → Option MediaRef
or_picture kind none rest = rest
or_picture kind (some p) rest = some (
    media kind (get_string p (bytes "url")) (get_string p (bytes "jpegThumbnail"))
      (get_string p (bytes "caption")) (get_string p (bytes "mimetype")))

-- The media of a message, the first sub-message that is there.
unfoldable pub media_of : Fields → Option MediaRef
unfolding get_string member
media_of msg = or_picture (bytes "image") (as_object (member (bytes "imageMessage") msg)) (
    or_picture (bytes "video") (as_object (member (bytes "videoMessage") msg)) (
      or_audio (as_object (member (bytes "audioMessage") msg)) (
        or_document (as_object (member (bytes "documentMessage") msg))
          (or_sticker (as_object (member (bytes "stickerMessage") msg))))))

abbrev text_or_media : Option Text → Option Fields → Fields → Text × Option MediaRef
text_or_media (some conversation) ext msg = (conversation, none)
text_or_media none (some ext) msg = (or_else (as_string (member (bytes "text") ext)) [], none)
text_or_media none none msg = ([], media_of msg)

unfoldable pub content_of : Fields → Text × Option MediaRef
unfolding media_of member
content_of msg =
    text_or_media (as_string (member (bytes "conversation") msg))
      (as_object (member (bytes "extendedTextMessage") msg)) msg

-- The message that `handleMessageUpsert` stores. Its time is the timestamp as the gateway gives it.
unfoldable pub webhook_message : Numbers → (content msg key : Fields) → Message
unfolding content_of member
webhook_message n content msg key =
    let from_me = or_else (as_bool (member (bytes "fromMe") key)) false in
    record {
      id = or_else (as_string (member (bytes "id") key)) [];
      chat = or_else (as_string (member (bytes "remoteJid") key)) [];
      text = (content_of msg).0;
      dir = if from_me then bytes "out" else bytes "in";
      time = or_else (as_int n (member (bytes "messageTimestamp") content)) (pos 0);
      status = if from_me then bytes "sent" else bytes "received";
      reply_to = [];
      reactions = [];
      media = (content_of msg).1;
      from_me = from_me;
    }

unfoldable pub store_upsert : Message → Text → HistoryStore → HistoryStore
store_upsert m push_name s =
    upsert_message m (set_name m.chat push_name (if m.from_me then s else bump_unread m.chat s))

abbrev upsert_fields : World → Fields → Option Fields → Adapter → Adapter
upsert_fields w content none a = a
upsert_fields w content (some msg) a =
    let m = webhook_message w.numbers content msg (fields_or_nil (member (bytes "key") msg)) in
    broadcasting (record (backend_event (bytes "message")) { chat = m.chat })
      (record a { store = store_upsert m (get_string content (bytes "pushName")) a.store })

unfoldable pub message_upsert : World → Fields → Adapter → Adapter
unfolding webhook_message store_upsert get_string member
message_upsert w content a =
    upsert_fields w content (as_object (member (bytes "message") content)) a

unfoldable pub message_update : Fields → Adapter → Adapter
unfolding member
message_update content a =
    let key = fields_or_nil (member (bytes "key") content) in
    let chat = or_else (as_string (member (bytes "remoteJid") key)) [] in
    let id = or_else (as_string (member (bytes "id") key)) [] in
    let status = or_else (as_string (member (bytes "status") content)) (bytes "delivered") in
    broadcasting (record (backend_event (bytes "receipt")) { chat = chat })
      (record a { store = set_status chat id status a.store })

unfoldable pub contacts_upsert : Adapter → Adapter
contacts_upsert a = broadcasting (backend_event (bytes "chats")) a

unfoldable pub connection_update : Fields → Adapter → Adapter
unfolding member get_string
connection_update content a =
    let state = or_else (as_string (member (bytes "state") content)) [] in
    let phone = get_string content (bytes "wuid") in
    if text_eq state (bytes "open")
    then broadcasting (record (backend_event (bytes "linked")) { phone = phone; linked = true })
        (record a { store = set_phone phone a.store })
    else if text_eq state (bytes "close")
    then broadcasting (backend_event (bytes "logged_out"))
        (record a { store = set_phone [] a.store })
    else a

-- The `switch` of `handleWebhook`. The deletion of a message does nothing.
unfoldable pub webhook_event : World → Text → Fields → Adapter → Adapter
unfolding message_upsert message_update contacts_upsert connection_update
webhook_event w kind content a =
    if text_eq kind (bytes "messages.upsert")
    then message_upsert w content a
    else if text_eq kind (bytes "messages.update")
    then message_update content a
    else if text_eq kind (bytes "contacts.upsert")
    then contacts_upsert a
    else if text_eq kind (bytes "connection.update")
    then connection_update content a
    else a

-- What `handleWebhook` does with the decoded event: `none` is a body that is no JSON object.
unfoldable pub webhook : World → (is_post : Bool) → Option Fields → Adapter → ℕ × Adapter
unfolding webhook_event member
webhook w false event a = (405, a)
webhook w true none a = (400, a)
webhook w true (some event) a = (
  200,
  webhook_event w (or_else (as_string (member (bytes "event") event)) [])
      (fields_or_nil (member (bytes "data") event)) a,
)
