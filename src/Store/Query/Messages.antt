-- ===== src/Store/Query/Messages.antt =====
-- server-go/store.go: `Messages`, `Statuses` and `Calls`.
use what_is_it.Prelude.{
  ℕ, pos, ◌-◌, ◌≤◌, ltb, ltb_ℤ-asym, ltb_ℤ-neg_trans, Text, List, [], ◌++◌, some, ◌≡◌, refl, sym,
  arith, Perm, length, take, drop, length-drop, take-append-drop, Arrangement, sort_slice-perm,
  sort_slice-IsSorted, StrictWeak, IsSorted, lookup, Bool-cases, inl, inr,
}
use what_is_it.Wire.{Message, Conversation}
use what_is_it.Store.{HistoryStore}
use what_is_it.Store.Query.{messages, statuses, status_values, newer_status, calls, newer_call}

-- The messages of a chat for a limit that is not negative: the newest of the conversation, in their
-- order, as many as the limit allows and no fewer than there are.
pub messages-newest :
    (chat : Text) (limit : ℕ) (s : HistoryStore) (conv : Conversation)
    → lookup chat s.chats ≡ some conv
    → (older : List Message) × (shown : List Message) × (messages chat (pos limit) s ≡ some shown)
      × (conv.messages ≡ older ++ shown)
      × (length shown ≤ limit)
      × ((limit ≤ length conv.messages → length shown ≡ limit)
          × (length conv.messages ≤ limit → shown ≡ conv.messages))
unfolding messages
messages-newest chat limit s conv e = elim (Bool-cases (ltb limit (length conv.messages))) [
  | inl cut ↦ (
    take (length conv.messages - limit) conv.messages,
    drop (length conv.messages - limit) conv.messages,
    rw (e, messages) (rw cut),
    sym (take-append-drop (length conv.messages - limit) conv.messages),
    ground (arith, length-drop (length conv.messages - limit) conv.messages),
    (
      (λ h. ground (arith, length-drop (length conv.messages - limit) conv.messages)),
      (λ h. absurd (ground arith)),
    ),
  )
  | inr all ↦ (
    [],
    conv.messages,
    rw (e, messages) (rw all),
    refl,
    ground arith,
    ((λ h. ground arith), (λ h. refl)),
  )
]

newer_status-StrictWeak : StrictWeak newer_status
newer_status-StrictWeak = record {
  asym = λ a b. ltb_ℤ-asym b.time a.time;
  neg_trans = λ a b c h k. ltb_ℤ-neg_trans c.time b.time a.time k h;
}

newer_call-StrictWeak : StrictWeak newer_call
newer_call-StrictWeak = record {
  asym = λ a b. ltb_ℤ-asym b.time a.time;
  neg_trans = λ a b c h k. ltb_ℤ-neg_trans c.time b.time a.time k h;
}

-- The status updates are listed newest first, and each sender's update once.
pub statuses-newest_first :
    (order : Arrangement) (s : HistoryStore)
    → IsSorted newer_status (statuses order s) × Perm (statuses order s) (status_values s.statuses)
unfolding statuses
statuses-newest_first order s = (
  sort_slice-IsSorted order newer_status newer_status-StrictWeak (status_values s.statuses),
  sort_slice-perm order newer_status (status_values s.statuses),
)

-- The call history is listed newest first, and each call once.
pub calls-newest_first :
    (order : Arrangement) (s : HistoryStore)
    → IsSorted newer_call (calls order s) × Perm (calls order s) s.calls
unfolding calls
calls-newest_first order s = (
  sort_slice-IsSorted order newer_call newer_call-StrictWeak s.calls,
  sort_slice-perm order newer_call s.calls,
)
