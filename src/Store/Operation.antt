-- ===== src/Store/Operation.antt =====
-- The operations of server-go/store.go that change the store, as data: what the event handlers and
-- the HTTP handlers can do to it, in any order.
use what_is_it.Prelude.{ℤ, Text, Bool, List, [], ◌∷◌}
use what_is_it.Wire.{Message, CallRecord, StatusEntry}
use what_is_it.Store.{
  HistoryStore, reset_seed, set_name, set_phone, upsert_chat_meta, upsert_message, bump_unread,
  mark_read, set_status, add_reaction, add_call, mark_call_answered, add_status,
  add_status_if_newer,
}

pub data Operation : Type 0 where
  reset : Operation
  name : (jid name : Text) → Operation
  phone : Text → Operation
  meta : (chat name : Text) → (unread : ℤ) → (pinned : Bool) → Operation
  upsert : Message → Operation
  bump : (chat : Text) → Operation
  read : (chat : Text) → Operation
  status : (chat id status : Text) → Operation
  reaction : (chat id reaction : Text) → Operation
  call : CallRecord → Operation
  answered : (id : Text) → Operation
  post : StatusEntry → Operation
  newer_post : StatusEntry → Operation

unfoldable pub perform : Operation → HistoryStore → HistoryStore
perform reset = reset_seed
perform (name jid n) = set_name jid n
perform (phone p) = set_phone p
perform (meta chat n unread pinned) = upsert_chat_meta chat n unread pinned
perform (upsert msg) = upsert_message msg
perform (bump chat) = bump_unread chat
perform (read chat) = mark_read chat
perform (status chat id st) = set_status chat id st
perform (reaction chat id r) = add_reaction chat id r
perform (call rec) = add_call rec
perform (answered id) = mark_call_answered id
perform (post entry) = add_status entry
perform (newer_post entry) = add_status_if_newer entry

unfoldable pub perform_all : List Operation → HistoryStore → HistoryStore
perform_all [] s = s
perform_all (op ∷ ops) s = perform_all ops (perform op s)
