-- ===== src/Store/Board/Refined.antt =====
-- server-go/store.go: every operation of the store does to the board what it means.
use what_is_it.Prelude.{
  ℤ, Text, is_empty, List, [], ◌∷◌, Bool, true, false, refl, sym, ap, arith, inl, inr, Bool-cases,
  Option-cases, if◌then◌else◌, lookup, insert, lookup-insert, update_first,
}
use what_is_it.Wire.{CallRecord}
use what_is_it.Store.{
  HistoryStore, reset_seed, set_phone, upsert_chat_meta, upsert_message, bump_unread, mark_read,
  set_status, add_reaction, add_call, add_call_to, call_has_id, mark_call_answered,
}
use what_is_it.Store.Operation.{
  Operation, perform, perform_all, reset, name, phone, meta, upsert, bump, read, status, reaction,
  call, answered, post, newer_post,
}
use what_is_it.Store.Board.{
  Board, at_key, named, received, bumped, read_of, meta_of, board_step, board_steps,
}
use what_is_it.Store.Board.Simulation.{
  Shows, put_conversation-Shows, unchanged-Shows, set_name-Shows, add_status-Shows,
  add_status_if_newer-Shows, talk-stored, talk-missing, update_message-Shows,
}

with_names-Shows :
    (chat n : Text) (s : HistoryStore) (b : Board)
    → Shows s b
    → Shows
        (record s { names = if is_empty n then s.names else insert chat n s.names })
        (named chat n b)
unfolding at_key
with_names-Shows chat n s b v = elim (Bool-cases (is_empty n)) [
  | inl e ↦ rw e v
  | inr e ↦ rw e (record {
    talks = v.talks;
    names_of = λ c. ground (arith, lookup-insert chat c n s.names, v.names_of c);
    posts_of = v.posts_of;
    numbers = v.numbers;
  })
]

upsert_chat_meta-Shows :
    (chat n : Text) (unread : ℤ) (pinned : Bool) (s : HistoryStore) (b : Board)
    → Shows s b
    → Shows (upsert_chat_meta chat n unread pinned s) (board_step (meta chat n unread pinned) b)
unfolding upsert_chat_meta board_step
upsert_chat_meta-Shows chat n unread pinned s b v =
    let v' = with_names-Shows chat n s b v in
    put_conversation-Shows chat _ (meta_of unread pinned) _ (named chat n b)
      (ap (meta_of unread pinned) (v'.talks chat)) v'

mark_read-Shows :
    (chat : Text) (s : HistoryStore) (b : Board)
    → Shows s b
    → Shows (mark_read chat s) (board_step (read chat) b)
unfolding mark_read board_step
mark_read-Shows chat s b v = elim (Option-cases (lookup chat s.chats)) [
  | inl e ↦
      rw (e, mark_read)
        (unchanged-Shows chat read_of s b (rw (sym (talk-missing chat s b e v)) refl) v)
  | inr (conv, e) ↦
      rw (e, mark_read)
        (put_conversation-Shows chat _ read_of s b (ap read_of (talk-stored chat conv s b e v)) v)
]

-- The board has no calls.
with_calls-Shows :
    (calls : List CallRecord) (s : HistoryStore) (b : Board)
    → Shows s b
    → Shows (record s { calls = calls; dirty = true }) b
with_calls-Shows calls s b v = record {
  talks = v.talks;
  names_of = v.names_of;
  posts_of = v.posts_of;
  numbers = v.numbers;
}

add_call-Shows :
    (rec : CallRecord) (s : HistoryStore) (b : Board) → Shows s b → Shows (add_call rec s) b
unfolding add_call
add_call-Shows rec s b v = elim (Bool-cases (is_empty rec.id)) [
  | inl e ↦ rw e v
  | inr e ↦ rw e (with_calls-Shows (add_call_to rec s.calls) s b v)
]

mark_call_answered-Shows :
    (id : Text) (s : HistoryStore) (b : Board) → Shows s b → Shows (mark_call_answered id s) b
unfolding mark_call_answered
mark_call_answered-Shows id s b v =
    elim (Option-cases (update_first (call_has_id id) (λ c. record c { missed = false }) s.calls)) [
      | inl e ↦ rw (e, mark_call_answered) v
      | inr (new, e) ↦ rw (e, mark_call_answered) (with_calls-Shows new s b v)
    ]

perform-Shows :
    (op : Operation) (s : HistoryStore) (b : Board)
    → Shows s b
    → Shows (perform op s) (board_step op b)
unfolding perform board_step reset_seed set_phone upsert_message bump_unread set_status add_reaction
    lookup
perform-Shows reset s b v = record {
  talks = λ c. refl;
  names_of = λ c. refl;
  posts_of = λ c. refl;
  numbers = v.numbers;
}
perform-Shows (name jid n) s b v = set_name-Shows jid n s b v
perform-Shows (phone p) s b v = record {
  talks = v.talks;
  names_of = v.names_of;
  posts_of = v.posts_of;
  numbers = refl;
}
perform-Shows (meta chat n unread pinned) s b v = upsert_chat_meta-Shows chat n unread pinned s b v
perform-Shows (upsert msg) s b v =
    put_conversation-Shows msg.chat _ (received msg) s b (ap (received msg) (v.talks msg.chat)) v
perform-Shows (bump chat) s b v =
    put_conversation-Shows chat _ bumped s b (ap bumped (v.talks chat)) v
perform-Shows (read chat) s b v = mark_read-Shows chat s b v
perform-Shows (status chat id st) s b v = update_message-Shows chat id _ s b v
perform-Shows (reaction chat id r) s b v = update_message-Shows chat id _ s b v
perform-Shows (call rec) s b v = add_call-Shows rec s b v
perform-Shows (answered id) s b v = mark_call_answered-Shows id s b v
perform-Shows (post entry) s b v = add_status-Shows entry s b v
perform-Shows (newer_post entry) s b v = add_status_if_newer-Shows entry s b v

-- After any operations in any order, from a store that shows a board, the store shows the board that the
-- operations lead to when each of them, but the reset that clears all but the phone number, changes the
-- conversation, the name or the status update of its own JID, or the phone number, and nothing else: how the
-- maps keep their keys and whether the file is to be written cannot be told.
pub perform_all-Shows :
    (ops : List Operation) (s : HistoryStore) (b : Board)
    → Shows s b
    → Shows (perform_all ops s) (board_steps ops b)
unfolding perform_all board_steps
perform_all-Shows [] s b v = v
perform_all-Shows (op ∷ ops) s b v =
    perform_all-Shows ops (perform op s) (board_step op b) (perform-Shows op s b v)
