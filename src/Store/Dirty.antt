-- ===== src/Store/Dirty.antt =====
-- server-go/store.go: the dirty flag, by which the periodic flush decides whether to write.
use what_is_it.Prelude.{Text, true, ◌≡◌, refl, ◌⊎◌, inr, arith}
use what_is_it.Wire.{Message}
use what_is_it.Store.{
  HistoryStore, reset_seed, set_name, set_phone, upsert_chat_meta, upsert_message, bump_unread,
  mark_read, update_message, set_status, add_reaction, add_call, mark_call_answered, add_status,
  add_status_if_newer,
}
use what_is_it.Store.Operation.{
  Operation, perform, reset, name, phone, meta, upsert, bump, read, status, reaction, call,
  answered, post, newer_post,
}

abbrev pub Marked : HistoryStore → HistoryStore → Type 0
Marked s t = (t ≡ s) ⊎ (t.dirty ≡ true)

update_message-Marked :
    (chat id : Text) (f : Message → Message) (s : HistoryStore)
    → Marked s (update_message chat id f s)
unfolding update_message
update_message-Marked chat id f s = ground arith

-- An operation either leaves the store exactly as it was or marks it dirty: no change escapes the
-- next periodic flush.
pub perform-Marked : (op : Operation) (s : HistoryStore) → Marked s (perform op s)
unfolding perform set_phone bump_unread reset_seed upsert_chat_meta upsert_message set_status
    add_reaction
perform-Marked reset s = inr refl
perform-Marked (name jid n) s = unfold set_name in ground arith
perform-Marked (phone p) s = inr refl
perform-Marked (meta chat n unread pinned) s = inr refl
perform-Marked (upsert msg) s = inr refl
perform-Marked (bump chat) s = inr refl
perform-Marked (read chat) s = unfold mark_read in ground arith
perform-Marked (status chat id st) s = update_message-Marked chat id _ s
perform-Marked (reaction chat id r) s = update_message-Marked chat id _ s
perform-Marked (call rec) s = unfold add_call in ground arith
perform-Marked (answered id) s = unfold mark_call_answered in ground arith
perform-Marked (post entry) s = unfold add_status in ground arith
perform-Marked (newer_post entry) s = unfold add_status_if_newer in ground arith
