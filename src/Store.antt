-- ===== src/Store.antt =====
-- server-go/store.go: `HistoryStore` and the operations that change it. Each runs under the store's
-- mutex, so an operation is one function from the old state to the new one.
pub mod Operation
pub mod Conversations
pub mod Invariant
pub mod Validity
pub mod Dirty
pub mod Merge
pub mod Arrival
pub mod CallHistory
pub mod Query
pub mod Posts
pub mod Board
use what_is_it.Prelude.{
  ℕ, ℤ, pos, ltb_ℤ, leb, increment, Text, is_empty, text_eq, List, [], ◌∷◌, ◌++◌, Option, none,
  some, or_else, Bool, true, false, not, if◌then◌else◌, Dict, lookup, insert, slice_stable,
  keep_last, update_first,
}
use what_is_it.Wire.{Message, MediaRef, Conversation, CallRecord, StatusEntry}

pub record HistoryStore : Type 0 where
  pub chats : Dict Conversation
  pub names : Dict Text
  pub statuses : Dict StatusEntry
  pub phone : Text
  pub calls : List CallRecord
  pub dirty : Bool

abbrev pub max_messages : ℕ
max_messages = 5000

abbrev pub max_calls : ℕ
max_calls = 300

-- `NewHistoryStore` when there is no readable snapshot.
abbrev pub new_store : HistoryStore
new_store = record { chats = []; names = []; statuses = []; phone = []; calls = []; dirty = false }

-- `&conversation{}`
abbrev pub new_conversation : Conversation
new_conversation = record { messages = []; unread = pos 0; pinned = false }

unfoldable pub reset_seed : HistoryStore → HistoryStore
reset_seed s = record s { chats = []; names = []; statuses = []; calls = []; dirty = true }

unfoldable pub set_name : Text → Text → HistoryStore → HistoryStore
set_name jid name s =
    if is_empty name then s else record s { names = insert jid name s.names; dirty = true }

unfoldable pub set_phone : Text → HistoryStore → HistoryStore
set_phone phone s = record s { phone = phone; dirty = true }

-- `conv := s.chats[chat]; if conv == nil { conv = &conversation{} … }`
abbrev pub conversation_at : Text → HistoryStore → Conversation
conversation_at chat s = or_else (lookup chat s.chats) new_conversation

abbrev pub put_conversation : Text → Conversation → HistoryStore → HistoryStore
put_conversation chat conv s = record s { chats = insert chat conv s.chats; dirty = true }

unfoldable pub upsert_chat_meta : Text → Text → ℤ → Bool → HistoryStore → HistoryStore
upsert_chat_meta chat name unread pinned s =
    let conv = conversation_at chat s in
    put_conversation chat
      (record conv {
        unread = if ltb_ℤ (pos 0) unread then unread else conv.unread;
        pinned = pinned;
      })
      (record s { names = if is_empty name then s.names else insert chat name s.names })

-- The loop's test `conv.Messages[i].ID == id`.
abbrev pub has_id : Text → Message → Bool
has_id id m = text_eq m.id id

abbrev pub earlier : Message → Message → Bool
earlier a b = ltb_ℤ a.time b.time

-- A message that is there already takes what the new one brings.
unfoldable pub merge_message : Message → Message → Message
merge_message msg old = record old {
  status = if is_empty msg.status then old.status else msg.status;
  text = if is_empty msg.text then old.text else msg.text;
  media = elim msg.media [ none ↦ old.media | some m ↦ some m ];
}

unfoldable pub append_message : Message → List Message → List Message
append_message msg msgs = keep_last max_messages (slice_stable earlier (msgs ++ msg ∷ []))

unfoldable pub upsert_messages : Message → List Message → List Message
unfolding merge_message append_message
upsert_messages msg msgs =
    or_else (update_first (has_id msg.id) (merge_message msg) msgs) (append_message msg msgs)

unfoldable pub upsert_message : Message → HistoryStore → HistoryStore
upsert_message msg s =
    let conv = conversation_at msg.chat s in
    put_conversation msg.chat (record conv { messages = upsert_messages msg conv.messages }) s

unfoldable pub bump_unread : Text → HistoryStore → HistoryStore
bump_unread chat s =
    let conv = conversation_at chat s in
    put_conversation chat (record conv { unread = increment conv.unread }) s

unfoldable pub mark_read : Text → HistoryStore → HistoryStore
mark_read chat s = elim (lookup chat s.chats) [
  | none ↦ s
  | some conv ↦ put_conversation chat (record conv { unread = pos 0 }) s
]

-- The loop of `SetStatus` and `AddReaction`: the first message with the id is changed in place.
unfoldable pub update_message : Text → Text → (Message → Message) → HistoryStore → HistoryStore
update_message chat id f s = elim (lookup chat s.chats) [
  | none ↦ s
  | some conv ↦ elim (update_first (has_id id) f conv.messages) [
    | none ↦ s
    | some msgs ↦ put_conversation chat (record conv { messages = msgs }) s
  ]
]

unfoldable pub set_status : Text → Text → Text → HistoryStore → HistoryStore
unfolding update_message
set_status chat id status = update_message chat id (λ m. record m { status = status })

unfoldable pub add_reaction : Text → Text → Text → HistoryStore → HistoryStore
unfolding update_message
add_reaction chat id reaction =
    update_message chat id
      (λ m. record m { reactions = if is_empty reaction then [] else reaction ∷ [] })

abbrev pub call_has_id : Text → CallRecord → Bool
call_has_id id c = text_eq c.id id

unfoldable pub add_call_to : CallRecord → List CallRecord → List CallRecord
add_call_to rec calls =
    or_else (update_first (call_has_id rec.id) (λ _. rec) calls)
      (keep_last max_calls (calls ++ rec ∷ []))

unfoldable pub add_call : CallRecord → HistoryStore → HistoryStore
add_call rec s =
    if is_empty rec.id then s else record s { calls = add_call_to rec s.calls; dirty = true }

unfoldable pub mark_call_answered : Text → HistoryStore → HistoryStore
mark_call_answered id s =
    elim (update_first (call_has_id id) (λ c. record c { missed = false }) s.calls) [
      | none ↦ s
      | some calls ↦ record s { calls = calls; dirty = true }
    ]

unfoldable pub add_status : StatusEntry → HistoryStore → HistoryStore
add_status entry s =
    if is_empty entry.sender
    then s
    else record s { statuses = insert entry.sender entry s.statuses; dirty = true }

-- `cur, ok := s.statuses[entry.Sender]; ok && cur.Time >= entry.Time`
unfoldable pub has_newer : StatusEntry → HistoryStore → Bool
has_newer entry s = elim (lookup entry.sender s.statuses) [
  | none ↦ false
  | some cur ↦ not (ltb_ℤ cur.time entry.time)
]

unfoldable pub add_status_if_newer : StatusEntry → HistoryStore → HistoryStore
unfolding has_newer
add_status_if_newer entry s =
    if is_empty entry.sender
    then s
    else if has_newer entry s
    then s
    else record s { statuses = insert entry.sender entry s.statuses; dirty = true }
