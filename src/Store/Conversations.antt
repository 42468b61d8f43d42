-- ===== src/Store/Conversations.antt =====
-- server-go/store.go: what every conversation of the store keeps to.
use what_is_it.Prelude.{
  ◌≤◌, Text, text_eq, text_eq_sym, List, [], ◌∷◌, ◌++◌, Option, none, some, or_else, Bool, false,
  ◌≡◌, refl, arith, All, Pairwise, length, IsSorted, StrictWeak, ltb_ℤ-asym, ltb_ℤ-neg_trans,
  slice_stable, slice_stable-IsSorted, All-slice_stable, All-append, All-keep_last, Pairwise-append,
  Pairwise-keep_last, Pairwise-slice_stable, length-keep_last, update_first, update_first-none,
  update_first-All, update_first-Pairwise, length-update_first,
}
use what_is_it.Wire.{Message}
use what_is_it.Store.{max_messages, has_id, earlier, merge_message, append_message, upsert_messages}

pub earlier-StrictWeak : StrictWeak earlier
earlier-StrictWeak = record {
  asym = λ a b. ltb_ℤ-asym a.time b.time;
  neg_trans = λ a b c. ltb_ℤ-neg_trans a.time b.time c.time;
}

abbrev pub OtherId : Message → Message → Type 0
OtherId a b = text_eq a.id b.id ≡ false

OtherId-sym : (a b : Message) → OtherId a b → OtherId b a
OtherId-sym a b h = rw (text_eq_sym b.id a.id) h

abbrev pub NotLater : Message → Message → Type 0
NotLater a b = earlier b a ≡ false

-- The messages are in the order of their times, no two have one id, all are of the chat, and there
-- are at most `max_messages`.
pub record IsConversation (chat : Text) (msgs : List Message) : Type 0 where
  pub sorted : IsSorted earlier msgs
  pub distinct : Pairwise OtherId msgs
  pub own : All (λ m. m.chat ≡ chat) msgs
  pub bounded : length msgs ≤ max_messages

pub IsConversation-new : (chat : Text) → IsConversation chat []
IsConversation-new chat = record { sorted = tt; distinct = tt; own = tt; bounded = omega arith }

-- A change of messages that leaves id, chat and time alone.
pub record KeepsPlace (f : Message → Message) : Type 0 where
  pub id : (m : Message) → (f m).id ≡ m.id
  pub chat : (m : Message) → (f m).chat ≡ m.chat
  pub time : (m : Message) → (f m).time ≡ m.time

module _ (test : Message → Bool) {f : Message → Message} (k : KeepsPlace f) {chat : Text} where
  pub update_first-IsConversation :
      (msgs new : List Message)
      → update_first test f msgs ≡ some new
      → IsConversation chat msgs
      → IsConversation chat new
  update_first-IsConversation msgs new e v = record {
    sorted = rw e at (
        update_first-Pairwise test f NotLater (λ a b _ h. rw (k.time a) h)
          (λ a b _ h. rw (k.time b) h) msgs v.sorted);
    distinct = rw e at (
        update_first-Pairwise test f OtherId (λ a b _ h. rw (k.id a) h) (λ a b _ h. rw (k.id b) h)
          msgs v.distinct);
    own =
        rw e at
          (update_first-All test f (λ m. m.chat ≡ chat) (λ m _ h. rw (k.chat m) h) msgs v.own);
    bounded = rw (rw e at (length-update_first test f msgs)) v.bounded;
  }

pub merge_message-KeepsPlace : (msg : Message) → KeepsPlace (merge_message msg)
unfolding merge_message
merge_message-KeepsPlace msg = record { id = λ m. refl; chat = λ m. refl; time = λ m. refl }

append_message-IsConversation :
    (msg : Message) (msgs : List Message)
    → All (λ m. has_id msg.id m ≡ false) msgs
    → IsConversation msg.chat msgs
    → IsConversation msg.chat (append_message msg msgs)
unfolding append_message
append_message-IsConversation msg msgs fresh v = record {
  sorted =
      Pairwise-keep_last NotLater max_messages ordered
        (slice_stable-IsSorted earlier-StrictWeak (msgs ++ msg ∷ []));
  distinct = Pairwise-keep_last OtherId max_messages ordered (
      Pairwise-slice_stable OtherId OtherId-sym earlier (msgs ++ msg ∷ [])
        (Pairwise-append OtherId msgs msg v.distinct fresh));
  own =
      All-keep_last (λ m. m.chat ≡ msg.chat) max_messages ordered
        (All-slice_stable (λ m. m.chat ≡ msg.chat) earlier (msgs ++ msg ∷ [])
          (All-append (λ m. m.chat ≡ msg.chat) msgs (msg ∷ []) v.own (refl, tt)));
  bounded = omega (arith, length-keep_last max_messages ordered);
}
  where
    ordered : List Message
    ordered = slice_stable earlier (msgs ++ msg ∷ [])

pub upsert_messages-IsConversation :
    (msg : Message) (msgs : List Message)
    → IsConversation msg.chat msgs
    → IsConversation msg.chat (upsert_messages msg msgs)
unfolding upsert_messages
upsert_messages-IsConversation msg msgs v =
    go (update_first (has_id msg.id) (merge_message msg) msgs) refl
  where
    go :
        (o : Option (List Message))
        → update_first (has_id msg.id) (merge_message msg) msgs ≡ o
        → IsConversation msg.chat (or_else o (append_message msg msgs))
    go none e =
        append_message-IsConversation msg msgs
          (update_first-none (has_id msg.id) (merge_message msg) msgs e) v
    go (some new) e =
        update_first-IsConversation (has_id msg.id) (merge_message-KeepsPlace msg) msgs new e v
