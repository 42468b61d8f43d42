-- ===== src/Store/Board/Simulation.antt =====
-- server-go/store.go: a store that shows a board, and the writes that keep it so.
use what_is_it.Prelude.{
  Text, is_empty, text_eq, none, some, ◌≡◌, refl, sym, text_eq→eq, arith, inl, inr, Bool-cases,
  Option-cases, if◌then◌else◌, lookup, lookup-insert, update_first,
}
use what_is_it.Wire.{Message, Conversation, StatusEntry}
use what_is_it.Store.{
  HistoryStore, new_conversation, conversation_at, put_conversation, has_id, set_name,
  update_message, add_status, add_status_if_newer, has_newer,
}
use what_is_it.Store.Board.{Board, at_key, talk_at, named, post_on, is_news, edited}

-- The store shows the board.
pub record Shows (s : HistoryStore) (b : Board) : Type 0 where
  pub talks : (c : Text) → conversation_at c s ≡ b.talk c
  pub names_of : (c : Text) → lookup c s.names ≡ b.name_of c
  pub posts_of : (c : Text) → lookup c s.statuses ≡ b.post_of c
  pub numbers : s.phone ≡ b.number

pub put_conversation-Shows :
    (chat : Text) (conv : Conversation) (f : Conversation → Conversation) (s : HistoryStore)
    (b : Board)
    → conv ≡ f (b.talk chat)
    → Shows s b
    → Shows (put_conversation chat conv s) (talk_at chat f b)
unfolding at_key
put_conversation-Shows chat conv f s b e v = record {
  talks = λ c. ground (arith, lookup-insert chat c conv s.chats, v.talks c);
  names_of = v.names_of;
  posts_of = v.posts_of;
  numbers = v.numbers;
}

pub unchanged-Shows :
    (chat : Text) (f : Conversation → Conversation) (s : HistoryStore) (b : Board)
    → f (b.talk chat) ≡ b.talk chat
    → Shows s b
    → Shows s (talk_at chat f b)
unfolding at_key
unchanged-Shows chat f s b e v = record {
  talks = λ c. elim (Bool-cases (text_eq chat c)) [
    | inl h ↦ rw h (rw (e, sym (text_eq→eq chat c h)) (v.talks chat))
    | inr h ↦ rw h (v.talks c)
  ];
  names_of = v.names_of;
  posts_of = v.posts_of;
  numbers = v.numbers;
}

pub set_name-Shows :
    (jid n : Text) (s : HistoryStore) (b : Board)
    → Shows s b
    → Shows (set_name jid n s) (named jid n b)
unfolding set_name at_key
set_name-Shows jid n s b v = elim (Bool-cases (is_empty n)) [
  | inl e ↦ rw e v
  | inr e ↦ rw e (record {
    talks = v.talks;
    names_of = λ c. ground (arith, lookup-insert jid c n s.names, v.names_of c);
    posts_of = v.posts_of;
    numbers = v.numbers;
  })
]

pub add_status-Shows :
    (entry : StatusEntry) (s : HistoryStore) (b : Board)
    → Shows s b
    → Shows (add_status entry s) (post_on entry b)
unfolding add_status at_key
add_status-Shows entry s b v = elim (Bool-cases (is_empty entry.sender)) [
  | inl e ↦ rw e v
  | inr e ↦ rw e (record {
    talks = v.talks;
    names_of = v.names_of;
    posts_of = λ c. ground (arith, lookup-insert entry.sender c entry s.statuses, v.posts_of c);
    numbers = v.numbers;
  })
]

pub news_only :
    (entry : StatusEntry) (s : HistoryStore)
    → add_status_if_newer entry s
      ≡ (if is_news entry (lookup entry.sender s.statuses) then add_status entry s else s)
unfolding add_status_if_newer has_newer add_status
news_only entry s = elim (Option-cases (lookup entry.sender s.statuses)) [
  | inl e ↦ rw (e, has_newer) refl
  | inr (old, e) ↦ rw (e, has_newer) (ground arith)
]

pub add_status_if_newer-Shows :
    (entry : StatusEntry) (s : HistoryStore) (b : Board)
    → Shows s b
    → Shows
        (add_status_if_newer entry s)
        (if is_news entry (b.post_of entry.sender) then post_on entry b else b)
add_status_if_newer-Shows entry s b v =
    rw (news_only entry s, sym (v.posts_of entry.sender))
      (elim (Bool-cases (is_news entry (lookup entry.sender s.statuses))) [
        | inl e ↦ rw e (add_status-Shows entry s b v)
        | inr e ↦ rw e v
      ])

pub talk-stored :
    (chat : Text) (conv : Conversation) (s : HistoryStore) (b : Board)
    → lookup chat s.chats ≡ some conv
    → Shows s b
    → conv ≡ b.talk chat
talk-stored chat conv s b e v = ground (arith, v.talks chat)

pub talk-missing :
    (chat : Text) (s : HistoryStore) (b : Board)
    → lookup chat s.chats ≡ none
    → Shows s b
    → new_conversation ≡ b.talk chat
talk-missing chat s b e v = ground (arith, v.talks chat)

pub update_message-Shows :
    (chat id : Text) (f : Message → Message) (s : HistoryStore) (b : Board)
    → Shows s b
    → Shows (update_message chat id f s) (talk_at chat (edited id f) b)
unfolding update_message update_first
update_message-Shows chat id f s b v = elim (Option-cases (lookup chat s.chats)) [
  | inl e ↦
      rw (e, update_message)
        (unchanged-Shows chat (edited id f) s b (rw (sym (talk-missing chat s b e v)) refl) v)
  | inr (conv, e) ↦
      let t = talk-stored chat conv s b e v in
      elim (Option-cases (update_first (has_id id) f conv.messages)) [
        | inl h ↦
            rw (e, update_message)
              (rw h (unchanged-Shows chat (edited id f) s b (rw (sym t) (rw h refl)) v))
        | inr (msgs, h) ↦
            rw (e, update_message)
              (rw h (put_conversation-Shows chat _ (edited id f) s b (rw (sym t) (rw h refl)) v))
      ]
]
