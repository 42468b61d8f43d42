-- ===== src/Store/Board.antt =====
-- server-go/store.go: the store as its clients see it. Of each JID there is a conversation, a name and a
-- status update; in which order the maps keep them, and whether a file has to be written, is forgotten.
pub mod Simulation
pub mod Refined
use what_is_it.Prelude.{
  ℤ, pos, ltb_ℤ, increment, Text, is_empty, text_eq, text_eq_iff, List, [], ◌∷◌, Option, none, some,
  or_else, Bool, true, false, not, ◌≡◌, refl, sym, ap, text_eq→eq, arith, inl, inr, Bool-cases,
  Option-cases, if◌then◌else◌, lookup, insert, lookup-insert, update_first,
}
use what_is_it.Wire.{Message, Conversation, StatusEntry, CallRecord}
use what_is_it.Store.{
  HistoryStore, new_conversation, conversation_at, put_conversation, has_id, upsert_messages,
  reset_seed, set_name, set_phone, upsert_chat_meta, upsert_message, bump_unread, mark_read,
  update_message, set_status, add_reaction, add_call, add_call_to, call_has_id, mark_call_answered,
  add_status, add_status_if_newer, has_newer,
}
use what_is_it.Store.Operation.{
  Operation, perform, perform_all, reset, name, phone, meta, upsert, bump, read, status, reaction,
  call, answered, post, newer_post,
}

pub record Board : Type 0 where
  pub talk : Text → Conversation
  pub name_of : Text → Option Text
  pub post_of : Text → Option StatusEntry
  pub number : Text

abbrev pub empty_board : Board
empty_board = record {
  talk = λ c. new_conversation;
  name_of = λ c. none;
  post_of = λ c. none;
  number = [];
}

unfoldable pub at_key : {A : Type 0} → Text → A → (Text → A) → Text → A
at_key k v f j = if text_eq k j then v else f j

abbrev pub talk_at : Text → (Conversation → Conversation) → Board → Board
talk_at chat f b = record b { talk = at_key chat (f (b.talk chat)) b.talk }

abbrev pub named : Text → Text → Board → Board
named jid n b = if is_empty n then b else record b { name_of = at_key jid (some n) b.name_of }

abbrev pub post_on : StatusEntry → Board → Board
post_on entry b =
    if is_empty entry.sender
    then b
    else record b { post_of = at_key entry.sender (some entry) b.post_of }

abbrev pub is_news : StatusEntry → Option StatusEntry → Bool
is_news entry none = true
is_news entry (some old) = ltb_ℤ old.time entry.time

abbrev pub received : Message → Conversation → Conversation
received msg conv = record conv { messages = upsert_messages msg conv.messages }

abbrev pub bumped : Conversation → Conversation
bumped conv = record conv { unread = increment conv.unread }

abbrev pub read_of : Conversation → Conversation
read_of conv = record conv { unread = pos 0 }

abbrev pub meta_of : ℤ → Bool → Conversation → Conversation
meta_of unread pinned conv = record conv {
  unread = if ltb_ℤ (pos 0) unread then unread else conv.unread;
  pinned = pinned;
}

abbrev pub edited : Text → (Message → Message) → Conversation → Conversation
edited id f conv = record conv {
  messages = or_else (update_first (has_id id) f conv.messages) conv.messages;
}

-- What an operation of the store means.
unfoldable pub board_step : Operation → Board → Board
unfolding at_key
board_step reset b = record empty_board { number = b.number }
board_step (name jid n) b = named jid n b
board_step (phone p) b = record b { number = p }
board_step (meta chat n unread pinned) b = talk_at chat (meta_of unread pinned) (named chat n b)
board_step (upsert msg) b = talk_at msg.chat (received msg) b
board_step (bump chat) b = talk_at chat bumped b
board_step (read chat) b = talk_at chat read_of b
board_step (status chat id st) b = talk_at chat (edited id (λ m. record m { status = st })) b
board_step (reaction chat id r) b =
    talk_at chat (edited id (λ m. record m { reactions = if is_empty r then [] else r ∷ [] })) b
board_step (call rec) b = b
board_step (answered id) b = b
board_step (post entry) b = post_on entry b
board_step (newer_post entry) b =
    if is_news entry (b.post_of entry.sender) then post_on entry b else b

unfoldable pub board_steps : List Operation → Board → Board
board_steps [] b = b
board_steps (op ∷ ops) b = board_steps ops (board_step op b)
