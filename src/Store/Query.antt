-- ===== src/Store/Query.antt =====
-- server-go/store.go: what the store is asked. The order in which Go visits a map and leaves equal
-- elements is an `Arrangement`.
pub mod Chats
pub mod Messages
use what_is_it.Prelude.{
  ℕ, ℤ, pos, negsuc, ◌+◌, ◌-◌, ltb, leb, ltb_ℤ, Text, bytes, length, is_empty, text_eq, has_suffix,
  List, [], ◌∷◌, ◌++◌, Option, none, some, or_else, Bool, true, false, ◌&&◌, bool_ne, if◌then◌else◌,
  Dict, lookup, insert, Arrangement, sort_slice, get_last?, drop,
}
use what_is_it.Wire.{Message, MediaRef, ChatSummary, Conversation, CallRecord, StatusEntry}
use what_is_it.Store.{HistoryStore, new_store}

unfoldable pub name_for : Text → HistoryStore → Text
name_for jid s = or_else (lookup jid s.names) jid

unfoldable pub message_count : Text → HistoryStore → ℕ
message_count chat s = elim (lookup chat s.chats) [ none ↦ 0 | some conv ↦ length conv.messages ]

abbrev first? : List Message → Option Message
first? [] = none
first? (m ∷ ms) = some m

unfoldable pub oldest_message : Text → HistoryStore → Option Message
oldest_message chat s = elim (lookup chat s.chats) [
  | none ↦ none
  | some conv ↦ first? conv.messages
]

-- The paper clip, U+1F4CE, in UTF-8, and a space.
abbrev pub clip : Text
clip = 0xf0 ∷ 0x9f ∷ 0x93 ∷ 0x8e ∷ 0x20 ∷ []

abbrev media_preview : Option MediaRef → Text
media_preview none = []
media_preview (some m) = clip ++ m.kind

abbrev pub preview_of : Option Message → Text
preview_of none = []
preview_of (some last) = if is_empty last.text then media_preview last.media else last.text

abbrev pub time_of : Option Message → ℤ
time_of none = pos 0
time_of (some last) = last.time

-- `strings.HasSuffix(jid, "@broadcast")`
abbrev pub is_broadcast : Text → Bool
is_broadcast jid = has_suffix jid (bytes "@broadcast")

-- `len(jid) > 4 && jid[len(jid)-4:] == "@g.us"`
unfoldable pub is_group : Text → Bool
is_group jid = ltb 4 (length jid) && text_eq (drop (length jid - 4) jid) (bytes "@g.us")

unfoldable pub summary : HistoryStore → Text → Conversation → ChatSummary
unfolding is_group name_for
summary s jid conv =
    let last = get_last? conv.messages in
    record {
      id = jid;
      name = name_for jid s;
      preview = preview_of last;
      time = time_of last;
      unread = conv.unread;
      pinned = conv.pinned;
      group = is_group jid;
    }

unfoldable pub summaries : HistoryStore → Dict Conversation → List ChatSummary
unfolding summary
summaries s [] = []
summaries s ((jid, conv) ∷ rest) =
    let others = summaries s rest in
    if is_broadcast jid then others else summary s jid conv ∷ others

-- Pinned chats first, then the newest.
abbrev pub chat_before : ChatSummary → ChatSummary → Bool
chat_before a b = if bool_ne a.pinned b.pinned then a.pinned else ltb_ℤ b.time a.time

unfoldable pub chats : Arrangement → HistoryStore → List ChatSummary
unfolding summaries sort_slice
chats order s = sort_slice order chat_before (summaries s s.chats)

-- The last `limit` messages. `none` is the panic of `make` at a negative length.
unfoldable pub messages : Text → ℤ → HistoryStore → Option (List Message)
messages chat limit s = elim (lookup chat s.chats) [
  | none ↦ some []
  | some conv ↦ elim limit [
    | negsuc n ↦ none
    | pos n ↦ some (
        if ltb n (length conv.messages)
        then drop (length conv.messages - n) conv.messages
        else conv.messages)
  ]
]

abbrev pub newer_status : StatusEntry → StatusEntry → Bool
newer_status a b = ltb_ℤ b.time a.time

abbrev pub status_values : Dict StatusEntry → List StatusEntry
status_values [] = []
status_values ((k, e) ∷ rest) = e ∷ status_values rest

unfoldable pub statuses : Arrangement → HistoryStore → List StatusEntry
unfolding sort_slice
statuses order s = sort_slice order newer_status (status_values s.statuses)

abbrev pub newer_call : CallRecord → CallRecord → Bool
newer_call a b = ltb_ℤ b.time a.time

unfoldable pub calls : Arrangement → HistoryStore → List CallRecord
unfolding sort_slice
calls order s = sort_slice order newer_call s.calls

-- `snapshot`
pub record Snapshot : Type 0 where
  pub chats : Dict Conversation
  pub names : Dict Text
  pub phone : Text
  pub calls : List CallRecord
  pub statuses : List StatusEntry

-- What `Flush` does under its lock: the snapshot that it then hands to `json.Marshal`, and the store after it.
-- The marshalling and the file come after the lock is released and are not modelled.
unfoldable pub take_snapshot : Arrangement → HistoryStore → Snapshot × HistoryStore
unfolding statuses
take_snapshot order s = (
  record {
    chats = s.chats;
    names = s.names;
    phone = s.phone;
    calls = s.calls;
    statuses = statuses order s;
  },
  record s { dirty = false },
)

unfoldable pub needs_flush : HistoryStore → Bool
needs_flush s = s.dirty
