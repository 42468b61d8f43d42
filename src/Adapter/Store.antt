-- ===== src/Adapter/Store.antt =====
-- adapter/store.go: `HistoryStore` of the adapter and its operations, each under the mutex.
pub mod Invariant
pub mod Agreement
pub mod Shared
use what_is_it.Prelude.{
  ℕ, ℤ, pos, negsuc, ◌-◌, ltb, ltb_ℤ, increment, Text, bytes, length, is_empty, has_suffix, List,
  [], ◌∷◌, ◌++◌, Option, none, some, or_else, Bool, true, false, ◌&&◌, if◌then◌else◌, Dict, lookup,
  insert, keep_last, update_first, Arrangement, sort_slice, get_last?, drop,
}
use what_is_it.Wire.{Message, MediaRef, ChatSummary, Conversation}
use what_is_it.Store.{new_conversation, has_id}
use what_is_it.Store.Query.{preview_of, time_of, chat_before}

pub record HistoryStore : Type 0 where
  pub chats : Dict Conversation
  pub names : Dict Text
  pub phone : Text
  pub qr : Text
  pub pair_code : Text

abbrev pub new_history_store : HistoryStore
new_history_store = record { chats = []; names = []; phone = []; qr = []; pair_code = [] }

-- The literal 2000 of `UpsertMessage`.
abbrev pub message_cap : ℕ
message_cap = 2000

unfoldable pub set_phone : Text → HistoryStore → HistoryStore
set_phone phone s = record s { phone = phone }

unfoldable pub set_qr : Text → HistoryStore → HistoryStore
set_qr qr s = record s { qr = qr }

unfoldable pub set_pair_code : Text → HistoryStore → HistoryStore
set_pair_code code s = record s { pair_code = code }

unfoldable pub set_name : Text → Text → HistoryStore → HistoryStore
set_name jid name s = if is_empty name then s else record s { names = insert jid name s.names }

unfoldable pub conversation_at : Text → HistoryStore → Conversation
conversation_at chat s = or_else (lookup chat s.chats) new_conversation

abbrev pub put_conversation : Text → Conversation → HistoryStore → HistoryStore
put_conversation chat conv s = record s { chats = insert chat conv s.chats }

unfoldable pub upsert_chat_meta : Text → Text → ℤ → Bool → HistoryStore → HistoryStore
unfolding set_name conversation_at
upsert_chat_meta chat name unread pinned s =
    let conv = conversation_at chat s in
    put_conversation chat
      (record conv {
        unread = if ltb_ℤ (pos 0) unread then unread else conv.unread;
        pinned = pinned;
      })
      (set_name chat name s)

-- Unlike the store of server-go, a message that is there takes the reactions of the new one.
unfoldable pub merge_message : Message → Message → Message
merge_message msg old = record old {
  status = if is_empty msg.status then old.status else msg.status;
  text = if is_empty msg.text then old.text else msg.text;
  media = elim msg.media [ none ↦ old.media | some m ↦ some m ];
  reactions = elim msg.reactions [ [] ↦ old.reactions | r ∷ rs ↦ r ∷ rs ];
}

unfoldable pub upsert_messages : Message → List Message → List Message
unfolding merge_message
upsert_messages msg msgs =
    or_else (update_first (has_id msg.id) (merge_message msg) msgs)
      (keep_last message_cap (msgs ++ msg ∷ []))

unfoldable pub upsert_message : Message → HistoryStore → HistoryStore
unfolding conversation_at upsert_messages
upsert_message msg s =
    let conv = conversation_at msg.chat s in
    put_conversation msg.chat (record conv { messages = upsert_messages msg conv.messages }) s

unfoldable pub bump_unread : Text → HistoryStore → HistoryStore
unfolding conversation_at
bump_unread chat s =
    let conv = conversation_at chat s in
    put_conversation chat (record conv { unread = increment conv.unread }) s

unfoldable pub mark_read : Text → HistoryStore → HistoryStore
mark_read chat s = elim (lookup chat s.chats) [
  | none ↦ s
  | some conv ↦ put_conversation chat (record conv { unread = pos 0 }) s
]

-- The loop of `SetStatus` and of `AddReaction`.
unfoldable pub update_message : Text → Text → (Message → Message) → HistoryStore → HistoryStore
update_message chat id f s = elim (lookup chat s.chats) [
  | none ↦ s
  | some conv ↦ elim (update_first (has_id id) f conv.messages) [
    | none ↦ s
    | some msgs ↦ put_conversation chat (record conv { messages = msgs }) s
  ]
]

unfoldable pub set_status : Text → Text → Text → HistoryStore → HistoryStore
unfolding update_message
set_status chat id status = update_message chat id (λ m. record m { status = status })

unfoldable pub add_reaction : Text → Text → Text → HistoryStore → HistoryStore
unfolding update_message
add_reaction chat id reaction =
    update_message chat id
      (λ m. record m { reactions = if is_empty reaction then [] else reaction ∷ [] })

unfoldable pub name_for : Text → HistoryStore → Text
name_for jid s = or_else (lookup jid s.names) jid

-- `len(jid) > 4 && strings.HasSuffix(jid, "@g.us")`
unfoldable pub is_group : Text → Bool
is_group jid = ltb 4 (length jid) && has_suffix jid (bytes "@g.us")

unfoldable pub summary : HistoryStore → Text → Conversation → ChatSummary
unfolding is_group name_for
summary s jid conv =
    let last = get_last? conv.messages in
    record {
      id = jid;
      name = name_for jid s;
      preview = preview_of last;
      time = time_of last;
      unread = conv.unread;
      pinned = conv.pinned;
      group = is_group jid;
    }

unfoldable pub summaries : HistoryStore → Dict Conversation → List ChatSummary
unfolding summary
summaries s [] = []
summaries s ((jid, conv) ∷ rest) = summary s jid conv ∷ summaries s rest

unfoldable pub chats : Arrangement → HistoryStore → List ChatSummary
unfolding summaries sort_slice
chats order s = sort_slice order chat_before (summaries s s.chats)

-- The last `limit` messages; no caller passes a negative limit.
unfoldable pub messages : Text → ℕ → HistoryStore → List Message
messages chat limit s = elim (lookup chat s.chats) [
  | none ↦ []
  | some conv ↦ keep_last limit conv.messages
]
