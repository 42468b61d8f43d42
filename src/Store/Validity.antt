-- ===== src/Store/Validity.antt =====
-- server-go/store.go: every operation keeps the store well formed, in any order and number.
use what_is_it.Prelude.{
  Text, is_empty, List, [], ◌∷◌, ◌++◌, Option, none, some, or_else, Bool, true, false, ◌≡◌, refl,
  sym, inl, inr, arith, Bool-cases, Option-cases, Pairwise-append, Pairwise-keep_last, keep_last,
  length-keep_last, update_first, update_first-none, update_first-Pairwise, length-update_first,
  DistinctKeys-insert, All-insert, text_eq→eq, insert,
}
use what_is_it.Wire.{CallRecord, StatusEntry}
use what_is_it.Store.{
  HistoryStore, max_calls, reset_seed, set_phone, bump_unread, set_status, add_reaction,
  call_has_id, add_call_to, add_call, mark_call_answered, add_status, has_newer,
  add_status_if_newer,
}
use what_is_it.Store.Operation.{
  Operation, perform, perform_all, reset, name, phone, meta, upsert, bump, read, status, reaction,
  call, answered, post, newer_post,
}
use what_is_it.Store.Invariant.{
  HoldsStatus, OtherCall, IsCallHistory, IsValid, conversation_at-IsConversation,
  put_conversation-IsValid, set_name-IsValid, upsert_chat_meta-IsValid, upsert_message-IsValid,
  mark_read-IsValid, update_message-IsValid,
}

update_first-IsCallHistory :
    (test : CallRecord → Bool) (f : CallRecord → CallRecord) (calls new : List CallRecord)
    → ((c : CallRecord) → test c ≡ true → (f c).id ≡ c.id)
    → update_first test f calls ≡ some new
    → IsCallHistory calls
    → IsCallHistory new
update_first-IsCallHistory test f calls new same e v = record {
  distinct = rw e at (
      update_first-Pairwise test f OtherCall (λ c d t h. rw (same c t) h)
        (λ c d t h. rw (same d t) h) calls v.distinct);
  bounded = rw (rw e at (length-update_first test f calls)) v.bounded;
}

add_call_to-IsCallHistory :
    (rec : CallRecord) (calls : List CallRecord)
    → IsCallHistory calls
    → IsCallHistory (add_call_to rec calls)
unfolding add_call_to
add_call_to-IsCallHistory rec calls v = go (update_first (call_has_id rec.id) (λ _. rec) calls) refl
  where
    go :
        (o : Option (List CallRecord))
        → update_first (call_has_id rec.id) (λ _. rec) calls ≡ o
        → IsCallHistory (or_else o (keep_last max_calls (calls ++ rec ∷ [])))
    go none e = record {
      distinct = Pairwise-keep_last OtherCall max_calls (calls ++ rec ∷ []) (
          Pairwise-append OtherCall calls rec v.distinct
            (update_first-none (call_has_id rec.id) (λ _. rec) calls e));
      bounded = omega (arith, length-keep_last max_calls (calls ++ rec ∷ []));
    }
    go (some new) e =
        update_first-IsCallHistory (call_has_id rec.id) (λ _. rec) calls new
          (λ c t. sym (text_eq→eq c.id rec.id t)) e v

abbrev with_calls : List CallRecord → HistoryStore → HistoryStore
with_calls calls s = record s { calls = calls; dirty = true }

with_calls-IsValid :
    (calls : List CallRecord) (s : HistoryStore)
    → IsCallHistory calls
    → IsValid s
    → IsValid (with_calls calls s)
with_calls-IsValid calls s h v = record {
  chat_keys = v.chat_keys;
  conversations = v.conversations;
  named = v.named;
  status_keys = v.status_keys;
  posts = v.posts;
  history = h;
}

add_call-IsValid : (rec : CallRecord) (s : HistoryStore) → IsValid s → IsValid (add_call rec s)
unfolding add_call
add_call-IsValid rec s v = elim (Bool-cases (is_empty rec.id)) [
  | inl e ↦ rw e v
  | inr e ↦ rw e (
      with_calls-IsValid (add_call_to rec s.calls) s
        (add_call_to-IsCallHistory rec s.calls v.history) v)
]

mark_call_answered-IsValid :
    (id : Text) (s : HistoryStore) → IsValid s → IsValid (mark_call_answered id s)
unfolding mark_call_answered
mark_call_answered-IsValid id s v =
    elim (Option-cases (update_first (call_has_id id) (λ c. record c { missed = false }) s.calls)) [
      | inl e ↦ rw (e, mark_call_answered) v
      | inr (new, e) ↦
          rw (e, mark_call_answered)
            (with_calls-IsValid new s
              (update_first-IsCallHistory (call_has_id id) (λ c. record c { missed = false })
                s.calls new (λ c _. refl) e v.history)
              v)
    ]

with_status-IsValid :
    (entry : StatusEntry) (s : HistoryStore)
    → is_empty entry.sender ≡ false
    → IsValid s
    → IsValid (record s { statuses = insert entry.sender entry s.statuses; dirty = true })
with_status-IsValid entry s e v = record {
  chat_keys = v.chat_keys;
  conversations = v.conversations;
  named = v.named;
  status_keys = DistinctKeys-insert entry.sender entry s.statuses v.status_keys;
  posts =
      All-insert HoldsStatus entry.sender entry s.statuses
        (λ j t. (sym (text_eq→eq j entry.sender t), rw (text_eq→eq j entry.sender t) e)) v.posts;
  history = v.history;
}

add_status-IsValid :
    (entry : StatusEntry) (s : HistoryStore) → IsValid s → IsValid (add_status entry s)
unfolding add_status
add_status-IsValid entry s v = elim (Bool-cases (is_empty entry.sender)) [
  | inl e ↦ rw e v
  | inr e ↦ rw e (with_status-IsValid entry s e v)
]

add_status_if_newer-IsValid :
    (entry : StatusEntry) (s : HistoryStore) → IsValid s → IsValid (add_status_if_newer entry s)
unfolding add_status_if_newer
add_status_if_newer-IsValid entry s v = elim (Bool-cases (is_empty entry.sender)) [
  | inl e ↦ rw e v
  | inr e ↦ rw e (elim (Bool-cases (has_newer entry s)) [
    | inl h ↦ rw h v
    | inr h ↦ rw h (with_status-IsValid entry s e v)
  ])
]

reset_seed-IsValid : (s : HistoryStore) → IsValid (reset_seed s)
unfolding reset_seed
reset_seed-IsValid s = record {
  chat_keys = tt;
  conversations = tt;
  named = tt;
  status_keys = tt;
  posts = tt;
  history = record { distinct = tt; bounded = omega arith };
}

-- Every operation keeps the store well formed: conversations in order of time, without repeated
-- ids, each message under its own chat, at most 5000 of them; calls without repeated ids, at most
-- 300; no empty name; every status update under its non-empty sender.
pub perform-IsValid : (op : Operation) (s : HistoryStore) → IsValid s → IsValid (perform op s)
unfolding perform set_phone bump_unread set_status add_reaction
perform-IsValid reset s v = reset_seed-IsValid s
perform-IsValid (name jid n) s v = set_name-IsValid jid n s v
perform-IsValid (phone p) s v = record {
  chat_keys = v.chat_keys;
  conversations = v.conversations;
  named = v.named;
  status_keys = v.status_keys;
  posts = v.posts;
  history = v.history;
}
perform-IsValid (meta chat n unread pinned) s v = upsert_chat_meta-IsValid chat n unread pinned s v
perform-IsValid (upsert msg) s v = upsert_message-IsValid msg s v
perform-IsValid (bump chat) s v =
    put_conversation-IsValid chat _ s (conversation_at-IsConversation chat s v.conversations) v
perform-IsValid (read chat) s v = mark_read-IsValid chat s v
perform-IsValid (status chat id st) s v =
    update_message-IsValid chat id _ s
      (record { id = λ m. refl; chat = λ m. refl; time = λ m. refl }) v
perform-IsValid (reaction chat id r) s v =
    update_message-IsValid chat id _ s
      (record { id = λ m. refl; chat = λ m. refl; time = λ m. refl }) v
perform-IsValid (call rec) s v = add_call-IsValid rec s v
perform-IsValid (answered id) s v = mark_call_answered-IsValid id s v
perform-IsValid (post entry) s v = add_status-IsValid entry s v
perform-IsValid (newer_post entry) s v = add_status_if_newer-IsValid entry s v

pub perform_all-IsValid :
    (ops : List Operation) (s : HistoryStore) → IsValid s → IsValid (perform_all ops s)
unfolding perform_all
perform_all-IsValid [] s v = v
perform_all-IsValid (op ∷ ops) s v = perform_all-IsValid ops (perform op s) (perform-IsValid op s v)
