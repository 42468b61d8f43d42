-- ===== src/Store/Arrival.antt =====
-- server-go/store.go, `UpsertMessage`: a message that arrives twice, and messages that arrive in
-- another order.
use what_is_it.Prelude.{
  text_eq, text_eq_refl, text_eq_sym, List, [], ◌∷◌, none, some, false, ◌≡◌, ◌≢◌, sym, ap, ◌∙◌, inl,
  inr, ◌⊎◌, arith, Bool-cases, Option-cases, All, length, update_first, update_first-none,
  find_first-none, lookup-insert, insert-insert, keep_last, keep_last-short, All-keep_last, place,
  All-place, length-place, place-IsSorted, keep_last-full, keep_last-place, place-place,
  ltb_ℤ-apart, ltb,
}
use what_is_it.Wire.{Message, Conversation}
use what_is_it.Store.{
  max_messages, HistoryStore, has_id, earlier, merge_message, upsert_messages, upsert_message,
  conversation_at, put_conversation,
}
use what_is_it.Store.Conversations.{
  IsConversation, earlier-StrictWeak, upsert_messages-IsConversation,
}
use what_is_it.Store.Invariant.{IsValid, conversation_at-IsConversation}
use what_is_it.Store.Merge.{
  merge_message_twice, merge_message_self, merge_message-has_id, update_first-twice, placed,
  upsert_messages-new, find_message,
}

fresh_after :
    (a b : Message) (msgs : List Message)
    → text_eq b.id a.id ≡ false
    → All (λ m. has_id a.id m ≡ false) msgs
    → All (λ m. has_id a.id m ≡ false) (placed b msgs)
fresh_after a b msgs other fresh =
    All-keep_last (λ m. has_id a.id m ≡ false) max_messages (place earlier b msgs)
      (All-place (λ m. has_id a.id m ≡ false) earlier b msgs other fresh)

-- The newest of a conversation with two more messages do not depend on which came first.
placed-placed :
    (a b : Message) (msgs : List Message)
    → IsConversation b.chat msgs
    → a.time ≢ b.time
    → placed a (placed b msgs) ≡ placed b (placed a msgs)
placed-placed a b msgs v h =
    keep_last-place earlier-StrictWeak max_messages a (place earlier b msgs)
      (place-IsSorted earlier-StrictWeak msgs b v.sorted)
      (omega (arith, length-place earlier b msgs, v.bounded))
    ∙ ap (keep_last max_messages)
        (place-place earlier-StrictWeak a b msgs (ltb_ℤ-apart a.time b.time h))
    ∙ sym (
        keep_last-place earlier-StrictWeak max_messages b (place earlier a msgs)
          (place-IsSorted earlier-StrictWeak msgs a v.sorted)
          (omega (arith, length-place earlier a msgs, v.bounded)))

-- Two new messages of one chat with different ids and times may arrive in either order: the stored
-- conversation is the same, also when it is full.
pub upsert_messages_comm :
    (a b : Message) (msgs : List Message)
    → IsConversation a.chat msgs
    → a.chat ≡ b.chat
    → text_eq a.id b.id ≡ false
    → a.time ≢ b.time
    → find_message a.id msgs ≡ none
    → find_message b.id msgs ≡ none
    → upsert_messages a (upsert_messages b msgs) ≡ upsert_messages b (upsert_messages a msgs)
upsert_messages_comm a b msgs v chat other h na nb =
    upsert_messages-new a (upsert_messages b msgs)
      (rw eb (fresh_after a b msgs (rw (text_eq_sym b.id a.id) other) fa))
      (rw chat (upsert_messages-IsConversation b msgs vb))
    ∙ (ap (placed a) eb ∙ placed-placed a b msgs vb h ∙ sym (ap (placed b) ea))
    ∙ sym (
        upsert_messages-new b (upsert_messages a msgs) (rw ea (fresh_after b a msgs other fb))
          (rw (← chat) (upsert_messages-IsConversation a msgs v)))
  where
    fa : All (λ m. has_id a.id m ≡ false) msgs
    fa = find_first-none (has_id a.id) msgs na

    fb : All (λ m. has_id b.id m ≡ false) msgs
    fb = find_first-none (has_id b.id) msgs nb

    vb : IsConversation b.chat msgs
    vb = rw (← chat) v

    ea : upsert_messages a msgs ≡ placed a msgs
    ea = upsert_messages-new a msgs fa v

    eb : upsert_messages b msgs ≡ placed b msgs
    eb = upsert_messages-new b msgs fb vb

-- After a new message is stored, the conversation holds it among messages of other ids, or it was
-- older than all that a full conversation keeps and changes nothing.
placed-cases :
    (a : Message) (msgs : List Message)
    → IsConversation a.chat msgs
    → All (λ m. has_id a.id m ≡ false) msgs
    → ((ys : List Message) × All (λ m. has_id a.id m ≡ false) ys
        × (placed a msgs ≡ place earlier a ys))
      ⊎ (placed a msgs ≡ msgs)
unfolding place
placed-cases a [] v fresh = inl (
  [],
  tt,
  keep_last-short max_messages (place earlier a []) (omega (arith, length-place earlier a [])),
)
placed-cases a (x ∷ xs) v fresh = elim (Bool-cases (ltb (length (x ∷ xs)) max_messages)) [
  | inl short ↦ inl (
    x ∷ xs,
    fresh,
    keep_last-short max_messages (place earlier a (x ∷ xs))
        (ground (arith, length-place earlier a (x ∷ xs))),
  )
  | inr full ↦ elim (Bool-cases (earlier a x)) [
    | inl e ↦ inr (rw (e, place) (keep_last-full max_messages a (x ∷ xs) (exactly full)))
    | inr e ↦ inl (
      xs,
      fresh.1,
      rw (e, place)
          (keep_last-full max_messages x (place earlier a xs)
            (length-place earlier a xs ∙ exactly full)),
    )
  ]
]
  where
    exactly : ltb (length (x ∷ xs)) max_messages ≡ false → length (x ∷ xs) ≡ max_messages
    exactly h = ground (arith, v.bounded)

-- An update that changes nothing about the one element that passes changes nothing.
update_first-place :
    (a : Message) (ys : List Message)
    → All (λ m. has_id a.id m ≡ false) ys
    → update_first (has_id a.id) (merge_message a) (place earlier a ys) ≡ some (place earlier a ys)
unfolding update_first place
update_first-place a [] h = rw (text_eq_refl a.id, merge_message_self a)
update_first-place a (y ∷ ys) h = elim (Bool-cases (earlier a y)) [
  | inl e ↦ rw (e, text_eq_refl a.id, merge_message_self a)
  | inr e ↦ rw (e, h.0, update_first-place a ys h.1)
]

upsert_messages-hit :
    (a : Message) (msgs : List Message) {new : List Message}
    → update_first (has_id a.id) (merge_message a) msgs ≡ some new
    → upsert_messages a msgs ≡ new
unfolding upsert_messages
upsert_messages-hit a msgs e = rw e

-- A message that arrives twice is stored as if it had arrived once.
pub upsert_messages_twice :
    (a : Message) (msgs : List Message)
    → IsConversation a.chat msgs
    → upsert_messages a (upsert_messages a msgs) ≡ upsert_messages a msgs
upsert_messages_twice a msgs v =
    elim (Option-cases (update_first (has_id a.id) (merge_message a) msgs)) [
      | inr (new, e) ↦ merged new e
      | inl e ↦ added (update_first-none (has_id a.id) (merge_message a) msgs e)
    ]
  where
    merged :
        (new : List Message)
        → update_first (has_id a.id) (merge_message a) msgs ≡ some new
        → upsert_messages a (upsert_messages a msgs) ≡ upsert_messages a msgs
    merged new e =
        ap (upsert_messages a) (upsert_messages-hit a msgs e)
        ∙ upsert_messages-hit a new (
            rw e at (
              update_first-twice (has_id a.id) (merge_message a) (merge_message-has_id a)
                (merge_message_twice a) msgs))
        ∙ sym (upsert_messages-hit a msgs e)

    added :
        All (λ m. has_id a.id m ≡ false) msgs
        → upsert_messages a (upsert_messages a msgs) ≡ upsert_messages a msgs
    added fresh = elim (placed-cases a msgs v fresh) [
      | inl (ys, f, p) ↦
          let stored : upsert_messages a msgs ≡ place earlier a ys =
            upsert_messages-new a msgs fresh v ∙ p in
          ap (upsert_messages a) stored
          ∙ upsert_messages-hit a (place earlier a ys) (update_first-place a ys f)
          ∙ sym stored
      | inr p ↦ ap (upsert_messages a) (upsert_messages-new a msgs fresh v ∙ p)
    ]

-- The whole store is the same after a second delivery of a message.
pub upsert_message_twice :
    (a : Message) (s : HistoryStore)
    → IsValid s
    → upsert_message a (upsert_message a s) ≡ upsert_message a s
unfolding upsert_message
upsert_message_twice a s v =
    simp (lookup-insert, text_eq_refl, insert-insert)
      (ap (λ (msgs : List Message). put_conversation a.chat (record conv { messages = msgs }) s)
        (upsert_messages_twice a conv.messages
          (conversation_at-IsConversation a.chat s v.conversations)))
  where
    conv : Conversation
    conv = conversation_at a.chat s
