-- ===== src/Tests/Stores.antt =====
-- The theorems on the store at the messages, calls and posts of the parent module.
use what_is_it.Prelude.{
  pos, Text, bytes, text_eq, List, [], ◌∷◌, ◌++◌, some, true, false, ◌≡◌, ◌≢◌, refl, arith, All,
  length, lookup, keep_last, is_empty, find_first,
}
use what_is_it.Wire.{Message, StatusEntry}
use what_is_it.Store.{new_store, max_messages, earlier, upsert_messages, upsert_message}
use what_is_it.Store.Operation.{perform, call}
use what_is_it.Store.Invariant.{IsValid}
use what_is_it.Store.Validity.{perform-IsValid}
use what_is_it.Store.Conversations.{IsConversation}
use what_is_it.Store.Dirty.{Marked, perform-Marked}
use what_is_it.Store.Merge.{find_message, upsert_messages_present, upsert_messages_absent}
use what_is_it.Store.Arrival.{upsert_messages_comm, upsert_message_twice}
use what_is_it.Store.Posts.{add_posts, HasPost, add_posts-newest}
use what_is_it.Tests.{
  chat_ada, first_message, later_message, last_message, one_store, one_store-IsValid, missed, story,
}

perform-IsValid_example : IsValid (perform (call missed) one_store)
perform-IsValid_example = perform-IsValid (call missed) one_store one_store-IsValid

perform-Marked_example : Marked one_store (perform (call missed) one_store)
perform-Marked_example = perform-Marked (call missed) one_store

single-IsConversation : IsConversation chat_ada (first_message ∷ [])
single-IsConversation = record {
  sorted = (tt, tt);
  distinct = (tt, tt);
  own = (refl, tt);
  bounded = omega arith;
}

not_equal : pos 3 ≢ pos 2
not_equal e = ground arith

upsert_messages_comm_example :
    upsert_messages last_message (upsert_messages later_message (first_message ∷ []))
    ≡ upsert_messages later_message (upsert_messages last_message (first_message ∷ []))
unfolding find_first text_eq
upsert_messages_comm_example =
    upsert_messages_comm last_message later_message (first_message ∷ []) single-IsConversation refl
      refl not_equal refl refl

upsert_message_twice_example :
    upsert_message later_message (upsert_message later_message one_store)
    ≡ upsert_message later_message one_store
upsert_message_twice_example = upsert_message_twice later_message one_store one_store-IsValid

upsert_messages_present_example :
    (find_message (bytes "m1") (upsert_messages first_message (first_message ∷ []))
      ≡ some first_message)
    × ((id : Text)
        → text_eq (bytes "m1") id ≡ false
        → find_message id (upsert_messages first_message (first_message ∷ []))
          ≡ find_message id (first_message ∷ []))
    × (length (upsert_messages first_message (first_message ∷ [])) ≡ 1)
unfolding find_first text_eq
upsert_messages_present_example =
    upsert_messages_present first_message first_message (first_message ∷ []) refl

upsert_messages_absent_example :
    (before : List Message) × (after : List Message) × (first_message ∷ [] ≡ before ++ after)
    × (upsert_messages later_message (first_message ∷ [])
        ≡ keep_last max_messages (before ++ later_message ∷ after))
    × All (λ m. earlier later_message m ≡ false) before
    × All (λ m. earlier later_message m ≡ true) after
unfolding find_first text_eq
upsert_messages_absent_example =
    upsert_messages_absent later_message (first_message ∷ []) single-IsConversation refl

abbrev stories : List StatusEntry
stories = story (pos 9) ∷ story (pos 4) ∷ []

add_posts-newest_example :
    All
      (λ e. is_empty e.sender ≡ false → HasPost e.sender e.time (add_posts stories new_store))
      stories
    × ((sender : Text) (cur : StatusEntry)
        → lookup sender new_store.statuses ≡ some cur
        → HasPost sender cur.time (add_posts stories new_store))
add_posts-newest_example = add_posts-newest stories new_store
