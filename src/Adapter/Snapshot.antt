-- ===== src/Adapter/Snapshot.antt =====
-- adapter/store.go: the snapshot file. `Flush` writes the store as JSON by the tags of its structs, and
-- `NewHistoryStoreFromPath` reads it value by value. A text is what JSON can hold: the program takes
-- every text from a JSON decoder, whose texts are valid UTF-8.
pub mod Roundtrip
use what_is_it.Prelude.{
  ℤ, pos, Text, bytes, is_empty, List, [], ◌∷◌, ◌++◌, Option, none, some, or_else, Bool, true,
  false, if◌then◌else◌, Dict, insert,
}
use what_is_it.Wire.{Message, MediaRef, Conversation}
use what_is_it.Adapter.Json.{
  Json, Items, Fields, Numbers, null, boolean, number, string, array, object, nil, item, end, field,
  member, as_string, as_bool, as_object, as_array, as_int, get_string, get_bool,
}
use what_is_it.Adapter.Store.{HistoryStore, new_history_store}

-- A field of a struct with the option `omitempty`.
abbrev pub omit_text : Text → Text → Fields → Fields
omit_text key t rest = if is_empty t then rest else field key (string t) rest

unfoldable pub encode_media : MediaRef → Fields
encode_media m = field (bytes "kind") (string m.kind) (
    field (bytes "url") (string m.url) (
      omit_text (bytes "thumb_url") m.thumb_url
        (omit_text (bytes "caption") m.caption (omit_text (bytes "mime") m.mime end))))

unfoldable pub encode_texts : List Text → Items
encode_texts [] = nil
encode_texts (t ∷ ts) = item (string t) (encode_texts ts)

abbrev pub omit_texts : List Text → Fields → Fields
omit_texts [] rest = rest
omit_texts (t ∷ ts) rest = field (bytes "reactions") (array (encode_texts (t ∷ ts))) rest

abbrev pub omit_media : Option MediaRef → Fields → Fields
omit_media none rest = rest
omit_media (some m) rest = field (bytes "media") (object (encode_media m)) rest

unfoldable pub encode_message : Numbers → Message → Fields
unfolding encode_texts encode_media
encode_message n m = field (bytes "id") (string m.id) (
    field (bytes "chat") (string m.chat) (
      field (bytes "text") (string m.text) (
        field (bytes "dir") (string m.dir) (
          field (bytes "time") (number (n.literal m.time)) (
            field (bytes "status") (string m.status) (
              omit_text (bytes "reply_to") m.reply_to (
                omit_texts m.reactions
                  (omit_media m.media (field (bytes "from_me") (boolean m.from_me) end)))))))))

unfoldable pub encode_messages : Numbers → List Message → Items
unfolding encode_message
encode_messages n [] = nil
encode_messages n (m ∷ ms) = item (object (encode_message n m)) (encode_messages n ms)

-- A slice that has never been appended to is nil, and printed as null.
abbrev pub encode_slice : Numbers → List Message → Json
encode_slice n [] = null
encode_slice n (m ∷ ms) = array (encode_messages n (m ∷ ms))

unfoldable pub encode_conversation : Numbers → Conversation → Fields
unfolding encode_messages
encode_conversation n c = field (bytes "messages") (encode_slice n c.messages) (
    field (bytes "unread") (number (n.literal c.unread))
      (field (bytes "pinned") (boolean c.pinned) end))

unfoldable pub encode_chats : Numbers → Dict Conversation → Fields
unfolding encode_conversation
encode_chats n [] = end
encode_chats n ((jid, c) ∷ rest) =
    field jid (object (encode_conversation n c)) (encode_chats n rest)

unfoldable pub encode_names : Dict Text → Fields
encode_names [] = end
encode_names ((jid, name) ∷ rest) = field jid (string name) (encode_names rest)

-- `Flush`: what the file holds. The QR code and the pair code are not part of it.
unfoldable pub flush : Numbers → HistoryStore → Fields
unfolding encode_chats encode_names
flush n s = field (bytes "chats") (object (encode_chats n s.chats)) (
    field (bytes "names") (object (encode_names s.names))
      (field (bytes "phone") (string s.phone) end))

unfoldable pub load_texts : Items → List Text
load_texts nil = []
load_texts (item (string t) rest) = t ∷ load_texts rest
load_texts (item _ rest) = load_texts rest

unfoldable pub load_media : Fields → MediaRef
unfolding get_string
load_media m = record {
  kind = get_string m (bytes "kind");
  url = get_string m (bytes "url");
  thumb_url = get_string m (bytes "thumb_url");
  caption = get_string m (bytes "caption");
  mime = get_string m (bytes "mime");
}

unfoldable pub load_message : Numbers → Fields → Message
unfolding get_string get_bool member load_texts load_media
load_message n m = record {
  id = get_string m (bytes "id");
  chat = get_string m (bytes "chat");
  text = get_string m (bytes "text");
  dir = get_string m (bytes "dir");
  time = or_else (as_int n (member (bytes "time") m)) (pos 0);
  status = get_string m (bytes "status");
  reply_to = get_string m (bytes "reply_to");
  reactions = elim (as_array (member (bytes "reactions") m)) [
    | none ↦ []
    | some xs ↦ load_texts xs
  ];
  media = elim (as_object (member (bytes "media") m)) [
    | none ↦ none
    | some md ↦ some (load_media md)
  ];
  from_me = get_bool m (bytes "from_me");
}

unfoldable pub load_messages : Numbers → Items → List Message
unfolding load_message
load_messages n nil = []
load_messages n (item (object m) rest) = load_message n m ∷ load_messages n rest
load_messages n (item _ rest) = load_messages n rest

unfoldable pub load_conversation : Numbers → Fields → Conversation
unfolding load_messages member
load_conversation n c = record {
  messages = elim (as_array (member (bytes "messages") c)) [
    | none ↦ []
    | some xs ↦ load_messages n xs
  ];
  unread = or_else (as_int n (member (bytes "unread") c)) (pos 0);
  pinned = or_else (as_bool (member (bytes "pinned") c)) false;
}

unfoldable pub load_chats : Numbers → Fields → Dict Conversation → Dict Conversation
unfolding load_conversation
load_chats n end d = d
load_chats n (field jid (object c) rest) d =
    load_chats n rest (insert jid (load_conversation n c) d)
load_chats n (field jid _ rest) d = load_chats n rest d

unfoldable pub load_names : Fields → Dict Text → Dict Text
load_names end d = d
load_names (field jid (string name) rest) d = load_names rest (insert jid name d)
load_names (field jid _ rest) d = load_names rest d

-- `NewHistoryStoreFromPath`: `none` is a file that cannot be read or is no JSON object.
unfoldable pub load : Numbers → Option Fields → HistoryStore
unfolding load_chats load_names member
load n none = new_history_store
load n (some snap) = record new_history_store {
  chats = elim (as_object (member (bytes "chats") snap)) [
    | none ↦ []
    | some cs ↦ load_chats n cs []
  ];
  names = elim (as_object (member (bytes "names") snap)) [ none ↦ [] | some ns ↦ load_names ns [] ];
  phone = or_else (as_string (member (bytes "phone") snap)) [];
}
