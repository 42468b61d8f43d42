-- ===== src/Adapter/Store/Invariant.antt =====
-- adapter/store.go: what the adapter's history keeps to under each of its operations.
use what_is_it.Prelude.{
  ℤ, ◌≤◌, Text, text_eq→eq, is_empty, List, [], ◌∷◌, ◌++◌, some, Bool, false, ◌≡◌, refl, inl, inr,
  arith, Bool-cases, Option-cases, All, Pairwise, length, All-append, All-keep_last,
  Pairwise-append, Pairwise-keep_last, keep_last, length-keep_last, update_first, update_first-none,
  update_first-All, update_first-Pairwise, length-update_first, lookup, DistinctKeys,
  DistinctKeys-insert, All-insert, All-lookup,
}
use what_is_it.Wire.{Message, Conversation}
use what_is_it.Store.{has_id}
use what_is_it.Store.Conversations.{OtherId}
use what_is_it.Adapter.Store.{
  HistoryStore, new_history_store, message_cap, set_phone, set_qr, set_pair_code, set_name,
  conversation_at, put_conversation, upsert_chat_meta, merge_message, upsert_messages,
  upsert_message, bump_unread, mark_read, update_message, set_status, add_reaction,
}

-- No two messages have one id, all are of the chat, and there are at most 2000. They are in the order
-- of their arrival.
pub record IsThread (chat : Text) (msgs : List Message) : Type 0 where
  pub distinct : Pairwise OtherId msgs
  pub own : All (λ m. m.chat ≡ chat) msgs
  pub bounded : length msgs ≤ message_cap

abbrev pub HoldsThread : Text × Conversation → Type 0
HoldsThread e = IsThread e.0 e.1.messages

pub record IsHistory (s : HistoryStore) : Type 0 where
  pub chat_keys : DistinctKeys s.chats
  pub name_keys : DistinctKeys s.names
  pub threads : All HoldsThread s.chats

pub new_history_store-IsHistory : IsHistory new_history_store
new_history_store-IsHistory = record { chat_keys = tt; name_keys = tt; threads = tt }

pub same-IsHistory :
    (s t : HistoryStore) → t.chats ≡ s.chats → t.names ≡ s.names → IsHistory s → IsHistory t
same-IsHistory s t e h v = record {
  chat_keys = rw e v.chat_keys;
  name_keys = rw h v.name_keys;
  threads = rw e v.threads;
}

-- A change of messages that leaves id and chat alone.
record KeepsId (f : Message → Message) : Type 0 where
  id : (m : Message) → (f m).id ≡ m.id
  chat : (m : Message) → (f m).chat ≡ m.chat

update_first-IsThread :
    (test : Message → Bool) {f : Message → Message}
    → KeepsId f
    → {chat : Text} (msgs new : List Message) → update_first test f msgs ≡ some new
    → IsThread chat msgs
    → IsThread chat new
update_first-IsThread test {f} k {chat} msgs new e v = record {
  distinct = rw e at (
      update_first-Pairwise test f OtherId (λ a b _ h. rw (k.id a) h) (λ a b _ h. rw (k.id b) h)
        msgs v.distinct);
  own =
      rw e at (update_first-All test f (λ m. m.chat ≡ chat) (λ m _ h. rw (k.chat m) h) msgs v.own);
  bounded = rw (rw e at (length-update_first test f msgs)) v.bounded;
}

appended-IsThread :
    (msg : Message) (msgs : List Message)
    → All (λ m. has_id msg.id m ≡ false) msgs
    → IsThread msg.chat msgs
    → IsThread msg.chat (keep_last message_cap (msgs ++ msg ∷ []))
appended-IsThread msg msgs fresh v = record {
  distinct =
      Pairwise-keep_last OtherId message_cap (msgs ++ msg ∷ [])
        (Pairwise-append OtherId msgs msg v.distinct fresh);
  own =
      All-keep_last (λ m. m.chat ≡ msg.chat) message_cap (msgs ++ msg ∷ [])
        (All-append (λ m. m.chat ≡ msg.chat) msgs (msg ∷ []) v.own (refl, tt));
  bounded = omega (arith, length-keep_last message_cap (msgs ++ msg ∷ []));
}

upsert_messages-IsThread :
    (msg : Message) (msgs : List Message)
    → IsThread msg.chat msgs
    → IsThread msg.chat (upsert_messages msg msgs)
unfolding upsert_messages merge_message
upsert_messages-IsThread msg msgs v =
    elim (Option-cases (update_first (has_id msg.id) (merge_message msg) msgs)) [
      | inl e ↦
          rw (e, upsert_messages)
            (appended-IsThread msg msgs
              (update_first-none (has_id msg.id) (merge_message msg) msgs e) v)
      | inr (new, e) ↦
          rw (e, upsert_messages)
            (update_first-IsThread (has_id msg.id) (record { id = λ m. refl; chat = λ m. refl })
              msgs new e v)
    ]

pub conversation_at-IsThread :
    (chat : Text) (s : HistoryStore) → IsHistory s → IsThread chat (conversation_at chat s).messages
unfolding conversation_at
conversation_at-IsThread chat s v = elim (Option-cases (lookup chat s.chats)) [
  | inl e ↦ rw e (record { distinct = tt; own = tt; bounded = omega arith })
  | inr (c, e) ↦ rw e (All-lookup HoldsThread chat s.chats e v.threads)
]

pub put_conversation-IsHistory :
    (chat : Text) (c : Conversation) (s : HistoryStore)
    → IsThread chat c.messages
    → IsHistory s
    → IsHistory (put_conversation chat c s)
put_conversation-IsHistory chat c s h v = record {
  chat_keys = DistinctKeys-insert chat c s.chats v.chat_keys;
  name_keys = v.name_keys;
  threads = All-insert HoldsThread chat c s.chats (λ j e. rw (text_eq→eq j chat e) h) v.threads;
}

pub set_name-IsHistory :
    (jid n : Text) (s : HistoryStore) → IsHistory s → IsHistory (set_name jid n s)
unfolding set_name
set_name-IsHistory jid n s v = elim (Bool-cases (is_empty n)) [
  | inl e ↦ rw e v
  | inr e ↦ rw e (record {
    chat_keys = v.chat_keys;
    name_keys = DistinctKeys-insert jid n s.names v.name_keys;
    threads = v.threads;
  })
]

pub set_phone-IsHistory : (p : Text) (s : HistoryStore) → IsHistory s → IsHistory (set_phone p s)
unfolding set_phone
set_phone-IsHistory p s v = same-IsHistory s _ refl refl v

pub set_qr-IsHistory : (q : Text) (s : HistoryStore) → IsHistory s → IsHistory (set_qr q s)
unfolding set_qr
set_qr-IsHistory q s v = same-IsHistory s _ refl refl v

pub set_pair_code-IsHistory :
    (c : Text) (s : HistoryStore) → IsHistory s → IsHistory (set_pair_code c s)
unfolding set_pair_code
set_pair_code-IsHistory c s v = same-IsHistory s _ refl refl v

pub upsert_message-IsHistory :
    (msg : Message) (s : HistoryStore) → IsHistory s → IsHistory (upsert_message msg s)
unfolding upsert_message
upsert_message-IsHistory msg s v =
    put_conversation-IsHistory msg.chat _ s
      (upsert_messages-IsThread msg _ (conversation_at-IsThread msg.chat s v)) v

pub bump_unread-IsHistory :
    (chat : Text) (s : HistoryStore) → IsHistory s → IsHistory (bump_unread chat s)
unfolding bump_unread
bump_unread-IsHistory chat s v =
    put_conversation-IsHistory chat _ s (conversation_at-IsThread chat s v) v

pub upsert_chat_meta-IsHistory :
    (chat n : Text) (unread : ℤ) (pinned : Bool) (s : HistoryStore)
    → IsHistory s
    → IsHistory (upsert_chat_meta chat n unread pinned s)
unfolding upsert_chat_meta
upsert_chat_meta-IsHistory chat n unread pinned s v =
    put_conversation-IsHistory chat _ (set_name chat n s) (conversation_at-IsThread chat s v)
      (set_name-IsHistory chat n s v)

pub mark_read-IsHistory :
    (chat : Text) (s : HistoryStore) → IsHistory s → IsHistory (mark_read chat s)
unfolding mark_read
mark_read-IsHistory chat s v = elim (Option-cases (lookup chat s.chats)) [
  | inl e ↦ rw (e, mark_read) v
  | inr (c, e) ↦
      rw (e, mark_read)
        (put_conversation-IsHistory chat _ s (All-lookup HoldsThread chat s.chats e v.threads) v)
]

update_message-IsHistory :
    (chat id : Text) (f : Message → Message) (s : HistoryStore)
    → KeepsId f
    → IsHistory s
    → IsHistory (update_message chat id f s)
unfolding update_message
update_message-IsHistory chat id f s k v = elim (Option-cases (lookup chat s.chats)) [
  | inl e ↦ rw (e, update_message) v
  | inr (c, e) ↦
      rw (e, update_message)
        (elim (Option-cases (update_first (has_id id) f c.messages)) [
          | inl u ↦ rw (u, update_message) v
          | inr (new, u) ↦
              rw (u, update_message)
                (put_conversation-IsHistory chat _ s
                  (update_first-IsThread (has_id id) k c.messages new u
                    (All-lookup HoldsThread chat s.chats e v.threads))
                  v)
        ])
]

pub set_status-IsHistory :
    (chat id st : Text) (s : HistoryStore) → IsHistory s → IsHistory (set_status chat id st s)
unfolding set_status
set_status-IsHistory chat id st s v =
    update_message-IsHistory chat id _ s (record { id = λ m. refl; chat = λ m. refl }) v

pub add_reaction-IsHistory :
    (chat id r : Text) (s : HistoryStore) → IsHistory s → IsHistory (add_reaction chat id r s)
unfolding add_reaction
add_reaction-IsHistory chat id r s v =
    update_message-IsHistory chat id _ s (record { id = λ m. refl; chat = λ m. refl }) v
