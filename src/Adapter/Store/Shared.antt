-- ===== src/Adapter/Store/Shared.antt =====
-- adapter/store.go and server-go/store.go: the operations that both stores have, and what they leave in each.
use what_is_it.Prelude.{
  ℤ, ◌<◌, Text, is_empty, List, [], ◌∷◌, Option, none, some, or_else, Bool, false, ◌≡◌, refl, sym,
  ap, inl, inr, Bool-cases, Option-cases, if◌then◌else◌, All, length, lookup, insert, update_first,
}
use what_is_it.Wire.{Message, Conversation}
use what_is_it.Store
use what_is_it.Store.{earlier, has_id, conversation_at}
use what_is_it.Store.Board.{meta_of}
use what_is_it.Store.Board
use what_is_it.Store.Operation
use what_is_it.Store.Operation.{Operation}
use what_is_it.Store.Invariant.{IsValid, conversation_at-IsConversation}
use what_is_it.Store.Validity.{perform-IsValid}
use what_is_it.Adapter.Store as Own
use what_is_it.Adapter.Store.{message_cap}
use what_is_it.Adapter.Store.Agreement.{upsert_messages_agree}

pub data Shared : Type 0 where
  named : (jid name : Text) → Shared
  phoned : (phone : Text) → Shared
  described : (chat name : Text) → (unread : ℤ) → (pinned : Bool) → Shared
  arrived : Message → Shared
  bumped : (chat : Text) → Shared
  read : (chat : Text) → Shared
  reported : (chat id status : Text) → Shared
  reacted : (chat id reaction : Text) → Shared

-- The operation of server-go.
abbrev pub operation_of : Shared → Operation
operation_of (named jid name) = Operation.name jid name
operation_of (phoned phone) = Operation.phone phone
operation_of (described chat name unread pinned) = Operation.meta chat name unread pinned
operation_of (arrived msg) = Operation.upsert msg
operation_of (bumped chat) = Operation.bump chat
operation_of (read chat) = Operation.read chat
operation_of (reported chat id status) = Operation.status chat id status
operation_of (reacted chat id reaction) = Operation.reaction chat id reaction

-- The operation of the adapter.
abbrev pub done_by_adapter : Shared → Own.HistoryStore → Own.HistoryStore
done_by_adapter (named jid name) = Own.set_name jid name
done_by_adapter (phoned phone) = Own.set_phone phone
done_by_adapter (described chat name unread pinned) = Own.upsert_chat_meta chat name unread pinned
done_by_adapter (arrived msg) = Own.upsert_message msg
done_by_adapter (bumped chat) = Own.bump_unread chat
done_by_adapter (read chat) = Own.mark_read chat
done_by_adapter (reported chat id status) = Own.set_status chat id status
done_by_adapter (reacted chat id reaction) = Own.add_reaction chat id reaction

abbrev pub all_by_adapter : List Shared → Own.HistoryStore → Own.HistoryStore
all_by_adapter [] a = a
all_by_adapter (op ∷ ops) a = all_by_adapter ops (done_by_adapter op a)

abbrev pub all_by_server : List Shared → Store.HistoryStore → Store.HistoryStore
all_by_server [] s = s
all_by_server (op ∷ ops) s = all_by_server ops (Operation.perform (operation_of op) s)

-- A message comes after those of its chat, without reactions, to a thread with less than 2000 of them.
abbrev pub ComesInOrder : Shared → Store.HistoryStore → Type 0
ComesInOrder (arrived msg) s =
    All (λ m. earlier msg m ≡ false) (conversation_at msg.chat s).messages
    × (msg.reactions ≡ [])
    × (length (conversation_at msg.chat s).messages < message_cap)
ComesInOrder _ s = Unit

abbrev pub AllInOrder : List Shared → Store.HistoryStore → Type 0
AllInOrder [] s = Unit
AllInOrder (op ∷ ops) s = ComesInOrder op s × AllInOrder ops (Operation.perform (operation_of op) s)

-- The same conversations, names and phone number.
pub record Agrees (s : Store.HistoryStore) (a : Own.HistoryStore) : Type 0 where
  pub chats : s.chats ≡ a.chats
  pub names : s.names ≡ a.names
  pub phones : s.phone ≡ a.phone

put-Agrees :
    (chat : Text) (conv conv' : Conversation) (s : Store.HistoryStore) (a : Own.HistoryStore)
    → conv ≡ conv'
    → Agrees s a
    → Agrees (Store.put_conversation chat conv s) (Own.put_conversation chat conv' a)
put-Agrees chat conv conv' s a e v = record {
  chats = rw (e, v.chats) refl;
  names = v.names;
  phones = v.phones;
}

set_name-Agrees :
    (jid name : Text) (s : Store.HistoryStore) (a : Own.HistoryStore)
    → Agrees s a
    → Agrees (Store.set_name jid name s) (Own.set_name jid name a)
unfolding Store.set_name Own.set_name
set_name-Agrees jid name s a v = elim (Bool-cases (is_empty name)) [
  | inl e ↦ rw e v
  | inr e ↦
      rw e (record { chats = v.chats; names = ap (insert jid name) v.names; phones = v.phones })
]

talk-Agrees :
    (chat : Text) (s : Store.HistoryStore) (a : Own.HistoryStore)
    → Agrees s a
    → conversation_at chat s ≡ Own.conversation_at chat a
unfolding Own.conversation_at
talk-Agrees chat s a v = ap (λ d. or_else (lookup chat d) Store.new_conversation) v.chats

same_lookup :
    (chat : Text) (found : Option Conversation) (s : Store.HistoryStore) (a : Own.HistoryStore)
    → Agrees s a
    → lookup chat s.chats ≡ found
    → lookup chat a.chats ≡ found
same_lookup chat found s a v e = rw (sym v.chats) e

bump_unread-Agrees :
    (chat : Text) (s : Store.HistoryStore) (a : Own.HistoryStore)
    → Agrees s a
    → Agrees (Store.bump_unread chat s) (Own.bump_unread chat a)
unfolding Store.bump_unread Own.bump_unread
bump_unread-Agrees chat s a v = put-Agrees chat _ _ s a (ap Board.bumped (talk-Agrees chat s a v)) v

upsert_chat_meta-Agrees :
    (chat name : Text) (unread : ℤ) (pinned : Bool) (s : Store.HistoryStore) (a : Own.HistoryStore)
    → Agrees s a
    → Agrees
        (Store.upsert_chat_meta chat name unread pinned s)
        (Own.upsert_chat_meta chat name unread pinned a)
unfolding Store.upsert_chat_meta Own.upsert_chat_meta Own.set_name
upsert_chat_meta-Agrees chat name unread pinned s a v =
    let same = ap (meta_of unread pinned) (talk-Agrees chat s a v) in
    elim (Bool-cases (is_empty name)) [
      | inl e ↦ rw e (put-Agrees chat _ _ (record s { names = s.names }) a same v)
      | inr e ↦ rw e (
          put-Agrees chat _ _ (record s { names = insert chat name s.names })
            (record a { names = insert chat name a.names }) same (with_name e))
    ]
  where
    with_name :
        is_empty name ≡ false
        → Agrees
            (record s { names = insert chat name s.names })
            (record a { names = insert chat name a.names })
    with_name e = record {
      chats = v.chats;
      names = ap (insert chat name) v.names;
      phones = v.phones;
    }

received-same :
    (msg : Message) (c c' : Conversation)
    → c ≡ c'
    → Own.upsert_messages msg c.messages ≡ Store.upsert_messages msg c.messages
    → record c { messages = Store.upsert_messages msg c.messages }
      ≡ record c' { messages = Own.upsert_messages msg c'.messages }
received-same msg c c' e h = rw (sym e, h) refl

mark_read-Agrees :
    (chat : Text) (s : Store.HistoryStore) (a : Own.HistoryStore)
    → Agrees s a
    → Agrees (Store.mark_read chat s) (Own.mark_read chat a)
unfolding Store.mark_read Own.mark_read
mark_read-Agrees chat s a v = elim (Option-cases (lookup chat s.chats)) [
  | inl e ↦ rw (e, Store.mark_read) (rw (same_lookup chat none s a v e, Own.mark_read) v)
  | inr (conv, e) ↦
      rw (e, Store.mark_read)
        (rw (same_lookup chat (some conv) s a v e, Own.mark_read) (put-Agrees chat _ _ s a refl v))
]

update_message-Agrees :
    (chat id : Text) (f : Message → Message) (s : Store.HistoryStore) (a : Own.HistoryStore)
    → Agrees s a
    → Agrees (Store.update_message chat id f s) (Own.update_message chat id f a)
unfolding Store.update_message Own.update_message
update_message-Agrees chat id f s a v = elim (Option-cases (lookup chat s.chats)) [
  | inl e ↦ rw (e, Store.update_message) (rw (same_lookup chat none s a v e, Own.update_message) v)
  | inr (conv, e) ↦
      rw (e, Store.update_message)
        (rw (same_lookup chat (some conv) s a v e, Own.update_message)
          (elim (Option-cases (update_first (has_id id) f conv.messages)) [
            | inl h ↦ rw h v
            | inr (msgs, h) ↦ rw h (put-Agrees chat _ _ s a refl v)
          ]))
]

done-Agrees :
    (op : Shared) (s : Store.HistoryStore) (a : Own.HistoryStore)
    → IsValid s
    → ComesInOrder op s
    → Agrees s a
    → Agrees (Operation.perform (operation_of op) s) (done_by_adapter op a)
unfolding Operation.perform Store.set_phone Own.set_phone Store.upsert_message Own.upsert_message
    Store.set_status Own.set_status Store.add_reaction Own.add_reaction
done-Agrees (named jid name) s a i o v = set_name-Agrees jid name s a v
done-Agrees (phoned phone) s a i o v = record { chats = v.chats; names = v.names; phones = refl }
done-Agrees (described chat name unread pinned) s a i o v =
    upsert_chat_meta-Agrees chat name unread pinned s a v
done-Agrees (arrived msg) s a i o v =
    put-Agrees msg.chat _ _ s a
      (received-same msg _ _ (talk-Agrees msg.chat s a v) (
        upsert_messages_agree msg (conversation_at msg.chat s).messages
          (conversation_at-IsConversation msg.chat s i.conversations) o.0 o.1 o.2))
      v
done-Agrees (bumped chat) s a i o v = bump_unread-Agrees chat s a v
done-Agrees (read chat) s a i o v = mark_read-Agrees chat s a v
done-Agrees (reported chat id status) s a i o v =
    update_message-Agrees chat id (λ m. record m { status = status }) s a v
done-Agrees (reacted chat id reaction) s a i o v =
    update_message-Agrees chat id
      (λ m. record m { reactions = if is_empty reaction then [] else reaction ∷ [] }) s a v

-- From stores that agree, the store of server-go well formed, the same operations in the same order leave
-- stores that agree, as long as each message comes after those of its chat, without reactions, to a thread
-- with fewer than 2000.
pub shared_operations_agree :
    (ops : List Shared) (s : Store.HistoryStore) (a : Own.HistoryStore)
    → IsValid s
    → AllInOrder ops s
    → Agrees s a
    → Agrees (all_by_server ops s) (all_by_adapter ops a)
shared_operations_agree [] s a i o v = v
shared_operations_agree (op ∷ ops) s a i o v =
    shared_operations_agree ops _ (done_by_adapter op a) (perform-IsValid (operation_of op) s i) o.1
      (done-Agrees op s a i o.0 v)
