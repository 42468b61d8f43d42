-- ===== src/Store/Invariant.antt =====
-- server-go/store.go: what the whole store keeps to, under every operation that changes it.
use what_is_it.Prelude.{
  ℤ, ◌≤◌, Text, text_eq, is_empty, List, Bool, false, ◌≡◌, inl, inr, arith, Bool-cases,
  Option-cases, if◌then◌else◌, All, Pairwise, length, update_first, Dict, lookup, insert,
  DistinctKeys, DistinctKeys-insert, All-insert, All-lookup, text_eq→eq,
}
use what_is_it.Wire.{Message, Conversation, CallRecord, StatusEntry}
use what_is_it.Store.{
  HistoryStore, new_store, max_calls, set_name, conversation_at, put_conversation, upsert_chat_meta,
  upsert_message, mark_read, has_id, update_message,
}
use what_is_it.Store.Conversations.{
  IsConversation, IsConversation-new, KeepsPlace, update_first-IsConversation,
  upsert_messages-IsConversation,
}

abbrev pub HoldsConversation : Text × Conversation → Type 0
HoldsConversation e = IsConversation e.0 e.1.messages

abbrev pub HoldsName : Text × Text → Type 0
HoldsName e = is_empty e.1 ≡ false

-- A status update stands under its sender.
abbrev pub HoldsStatus : Text × StatusEntry → Type 0
HoldsStatus e = (e.1.sender ≡ e.0) × (is_empty e.0 ≡ false)

abbrev pub OtherCall : CallRecord → CallRecord → Type 0
OtherCall a b = text_eq a.id b.id ≡ false

pub record IsCallHistory (calls : List CallRecord) : Type 0 where
  pub distinct : Pairwise OtherCall calls
  pub bounded : length calls ≤ max_calls

pub record IsValid (s : HistoryStore) : Type 0 where
  pub chat_keys : DistinctKeys s.chats
  pub conversations : All HoldsConversation s.chats
  pub named : All HoldsName s.names
  pub status_keys : DistinctKeys s.statuses
  pub posts : All HoldsStatus s.statuses
  pub history : IsCallHistory s.calls

pub new_store-IsValid : IsValid new_store
new_store-IsValid = record {
  chat_keys = tt;
  conversations = tt;
  named = tt;
  status_keys = tt;
  posts = tt;
  history = record { distinct = tt; bounded = omega arith };
}

-- The conversation of a chat, new or not, keeps to its invariant.
pub conversation_at-IsConversation :
    (chat : Text) (s : HistoryStore)
    → All HoldsConversation s.chats
    → IsConversation chat (conversation_at chat s).messages
conversation_at-IsConversation chat s h = elim (Option-cases (lookup chat s.chats)) [
  | inl e ↦ rw e (IsConversation-new chat)
  | inr (c, e) ↦ rw e (All-lookup HoldsConversation chat s.chats e h)
]

pub put_conversation-IsValid :
    (chat : Text) (c : Conversation) (s : HistoryStore)
    → IsConversation chat c.messages
    → IsValid s
    → IsValid (put_conversation chat c s)
put_conversation-IsValid chat c s h v = record {
  chat_keys = DistinctKeys-insert chat c s.chats v.chat_keys;
  conversations =
      All-insert HoldsConversation chat c s.chats (λ j e. rw (text_eq→eq j chat e) h)
        v.conversations;
  named = v.named;
  status_keys = v.status_keys;
  posts = v.posts;
  history = v.history;
}

name-HoldsName :
    (jid n : Text) (names : Dict Text)
    → is_empty n ≡ false
    → All HoldsName names
    → All HoldsName (insert jid n names)
name-HoldsName jid n names e h = All-insert HoldsName jid n names (λ j _. e) h

pub set_name-IsValid : (jid n : Text) (s : HistoryStore) → IsValid s → IsValid (set_name jid n s)
unfolding set_name
set_name-IsValid jid n s v = elim (Bool-cases (is_empty n)) [
  | inl e ↦ rw e v
  | inr e ↦ rw e (record {
    chat_keys = v.chat_keys;
    conversations = v.conversations;
    named = name-HoldsName jid n s.names e v.named;
    status_keys = v.status_keys;
    posts = v.posts;
    history = v.history;
  })
]

pub upsert_chat_meta-IsValid :
    (chat n : Text) (unread : ℤ) (pinned : Bool) (s : HistoryStore)
    → IsValid s
    → IsValid (upsert_chat_meta chat n unread pinned s)
unfolding upsert_chat_meta
upsert_chat_meta-IsValid chat n unread pinned s v =
    put_conversation-IsValid chat _
      (record s { names = if is_empty n then s.names else insert chat n s.names })
      (conversation_at-IsConversation chat s v.conversations)
      (record {
        chat_keys = v.chat_keys;
        conversations = v.conversations;
        named = elim (Bool-cases (is_empty n)) [
          | inl e ↦ rw e v.named
          | inr e ↦ rw e (name-HoldsName chat n s.names e v.named)
        ];
        status_keys = v.status_keys;
        posts = v.posts;
        history = v.history;
      })

pub upsert_message-IsValid :
    (msg : Message) (s : HistoryStore) → IsValid s → IsValid (upsert_message msg s)
unfolding upsert_message
upsert_message-IsValid msg s v =
    put_conversation-IsValid msg.chat _ s
      (upsert_messages-IsConversation msg (conversation_at msg.chat s).messages
        (conversation_at-IsConversation msg.chat s v.conversations))
      v

pub mark_read-IsValid : (chat : Text) (s : HistoryStore) → IsValid s → IsValid (mark_read chat s)
unfolding mark_read
mark_read-IsValid chat s v = elim (Option-cases (lookup chat s.chats)) [
  | inl e ↦ rw (e, mark_read) v
  | inr (c, e) ↦
      rw (e, mark_read)
        (put_conversation-IsValid chat _ s
          (All-lookup HoldsConversation chat s.chats e v.conversations) v)
]

pub update_message-IsValid :
    (chat id : Text) (f : Message → Message) (s : HistoryStore)
    → KeepsPlace f
    → IsValid s
    → IsValid (update_message chat id f s)
unfolding update_message
update_message-IsValid chat id f s k v = elim (Option-cases (lookup chat s.chats)) [
  | inl e ↦ rw (e, update_message) v
  | inr (c, e) ↦
      rw (e, update_message)
        (elim (Option-cases (update_first (has_id id) f c.messages)) [
          | inl u ↦ rw (u, update_message) v
          | inr (new, u) ↦
              rw (u, update_message)
                (put_conversation-IsValid chat _ s
                  (update_first-IsConversation (has_id id) k c.messages new u
                    (All-lookup HoldsConversation chat s.chats e v.conversations))
                  v)
        ])
]
