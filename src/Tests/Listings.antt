-- ===== src/Tests/Listings.antt =====
-- The theorems on the queries of the store and on the bus at concrete chats and events.
use mathlib.Core.List.{Mem, mem-cons_self, Sublistᴰ}
use mathlib.Core.Option
use what_is_it.Prelude.{
  ltb, if◌then◌else◌, ◌≤◌, pos, Text, bytes, List, [], ◌∷◌, ◌++◌, some, false, ◌≡◌, refl, arith,
  length, lookup, as_it_stands, text_eq, slice_stable, has_suffix,
}
use what_is_it.Wire.{Message, ChatSummary, Conversation}
use what_is_it.Store.Query.{chats, is_broadcast, summary, messages, summaries, is_group, name_for}
use what_is_it.Prelude.{Pairwise}
use what_is_it.Store.Query.Chats.{MayPrecede, chats-IsSorted, chats-Listed, chats-NotGroup, Listed}
use what_is_it.Store.Query.Messages.{messages-newest}
use what_is_it.Bus.{EventBus, ev_chats, ev_message, publish, buffer_of, buffer_size}
use what_is_it.Bus.Delivery.{publish-buffer_of}
use what_is_it.Bus.Stream.{
  Turn, published, receives, run, new_feed, seen, events_of, run-in_order, run_complete,
}
use what_is_it.Tests.{
  chat_ada, first_message, later_message, one_store, one_store-IsValid, filled_store,
}

chats-IsSorted_example : Pairwise MayPrecede (chats as_it_stands filled_store)
chats-IsSorted_example = chats-IsSorted as_it_stands filled_store

chats-Listed_example :
    ((jid : Text) (conv : Conversation)
      → lookup jid one_store.chats ≡ some conv
      → is_broadcast jid ≡ false
      → Mem (summary one_store jid conv) (chats as_it_stands one_store))
    × ((c : ChatSummary)
        → Mem c (chats as_it_stands one_store)
        → Listed one_store one_store.chats c)
chats-Listed_example = chats-Listed as_it_stands one_store one_store-IsValid

abbrev ada_summary : ChatSummary
ada_summary = record {
  id = chat_ada;
  name = chat_ada;
  preview = bytes "hello";
  time = pos 2;
  unread = pos 0;
  pinned = false;
  group = false;
}

ada-listed : chats as_it_stands filled_store ≡ ada_summary ∷ []
unfolding chats summaries summary is_group name_for lookup text_eq slice_stable has_suffix
ada-listed = refl

chats-NotGroup_example : ada_summary.group ≡ false
chats-NotGroup_example =
    chats-NotGroup as_it_stands filled_store ada_summary (rw ada-listed mem-cons_self)

messages-newest_example :
    (older : List Message) × (shown : List Message) × (messages chat_ada (pos 1) filled_store
      ≡ some shown)
    × (first_message ∷ later_message ∷ [] ≡ older ++ shown)
    × (length shown ≤ 1)
    × ((1 ≤ 2 → length shown ≡ 1) × (2 ≤ 1 → shown ≡ first_message ∷ later_message ∷ []))
unfolding lookup text_eq
messages-newest_example =
    messages-newest chat_ada 1 filled_store
      (record { messages = first_message ∷ later_message ∷ []; unread = pos 0; pinned = false })
      refl

abbrev one_subscriber : EventBus
one_subscriber = record { subs = record { id = 0; buffer = [] } ∷ []; next = 1 }

publish-buffer_of_example :
    buffer_of 0 (publish ev_chats one_subscriber).subs
    ≡ Option.map
        (λ buffer. if ltb (length buffer) buffer_size then buffer ++ ev_chats ∷ [] else buffer)
        (buffer_of 0 one_subscriber.subs)
publish-buffer_of_example = publish-buffer_of 0 ev_chats one_subscriber

abbrev two_turns : List Turn
two_turns = published ev_chats ∷ receives ∷ published (ev_message chat_ada) ∷ []

run-in_order_example : Sublistᴰ (seen (run two_turns new_feed)) (events_of two_turns)
run-in_order_example = run-in_order two_turns

run_complete_example : seen (run two_turns new_feed) ≡ events_of two_turns
run_complete_example = run_complete two_turns (omega arith)
