-- ===== src/Adapter/Store/Agreement.antt =====
-- adapter/store.go and server-go/store.go: where the two back ends keep a message in the same way.
use what_is_it.Prelude.{
  ◌<◌, List, [], ◌∷◌, ◌++◌, false, ◌≡◌, refl, ◌∙◌, sym, arith, All, length, length-append,
  keep_last, keep_last-short, update_first, place, slice_stable-append,
}
use what_is_it.Wire.{Message}
use what_is_it.Store
use what_is_it.Store.{max_messages, has_id, earlier, append_message}
use what_is_it.Store.Conversations.{IsConversation, earlier-StrictWeak}
use what_is_it.Adapter.Store.{message_cap, merge_message, upsert_messages}

same_merge :
    (msg old : Message) → msg.reactions ≡ [] → merge_message msg old ≡ Store.merge_message msg old
unfolding merge_message Store.merge_message
same_merge msg old e = rw e refl

update_first-same :
    (msg : Message) (msgs : List Message)
    → msg.reactions ≡ []
    → update_first (has_id msg.id) (merge_message msg) msgs
      ≡ update_first (has_id msg.id) (Store.merge_message msg) msgs
unfolding update_first
update_first-same msg [] e = refl
update_first-same msg (m ∷ ms) e = rw (same_merge msg m e, update_first-same msg ms e)

-- A message that is not earlier than any other goes to the end.
place-last :
    (msg : Message) (msgs : List Message)
    → All (λ m. earlier msg m ≡ false) msgs
    → place earlier msg msgs ≡ msgs ++ msg ∷ []
unfolding place
place-last msg [] h = refl
place-last msg (m ∷ ms) h = rw (h.0, place-last msg ms h.1)

appended :
    (msg : Message) (msgs : List Message)
    → IsConversation msg.chat msgs
    → All (λ m. earlier msg m ≡ false) msgs
    → length msgs < message_cap
    → keep_last message_cap (msgs ++ msg ∷ []) ≡ append_message msg msgs
unfolding append_message
appended msg msgs v h n =
    rw (slice_stable-append earlier-StrictWeak msgs msg v.sorted, place-last msg msgs h)
      (keep_last-short message_cap (msgs ++ msg ∷ []) (omega (arith, length-append msgs (msg ∷ [])))
        ∙ sym (
            keep_last-short max_messages (msgs ++ msg ∷ [])
              (omega (arith, length-append msgs (msg ∷ [])))))

-- While messages arrive in the order of their times, without reactions, and a thread has fewer than
-- 2000 of them, the adapter keeps the same messages in the same order as server-go.
pub upsert_messages_agree :
    (msg : Message) (msgs : List Message)
    → IsConversation msg.chat msgs
    → All (λ m. earlier msg m ≡ false) msgs
    → msg.reactions ≡ []
    → length msgs < message_cap
    → upsert_messages msg msgs ≡ Store.upsert_messages msg msgs
unfolding upsert_messages Store.upsert_messages
upsert_messages_agree msg msgs v h e n = rw (update_first-same msg msgs e, appended msg msgs v h n)
