-- ===== src/Store/Query/Chats.antt =====
-- server-go/store.go, `Chats`: the order of the list, and which chats it shows.
use mathlib.Core.Logic.{∥∥₁_map}
use mathlib.Core.Logic.Or
use mathlib.Core.Bool.{Bool-set}
use mathlib.Core.List.{Mem, mem-cons, mem-cons_self, mem-cons_of_mem, not-mem-nil}
use mathlib.Core.List.Perm
use what_is_it.Prelude.{
  ◌-◌, Text, bytes, length, text_eq, text_eq→eq, text_eq_refl, text_eq_sym, if◌then◌else◌, Perm,
  List, [], ◌∷◌, some, false, ◌≡◌, ap, inl, inr, arith, Bool-cases, All, Dict, lookup, DistinctKeys,
  KeyFree, All-lookup, Arrangement, sort_slice-perm, sort_slice-IsSorted, StrictWeak, Pairwise,
  Pairwise-imp, ltb_ℤ, true, All-mem, length-drop, drop,
}
use what_is_it.Wire.{ChatSummary, Conversation}
use what_is_it.Store.{HistoryStore}
use what_is_it.Store.Invariant.{IsValid}
use what_is_it.Store.Query.{is_broadcast, is_group, summary, summaries, chat_before, chats}

chat_before-StrictWeak : StrictWeak chat_before
chat_before-StrictWeak = record {
  asym = λ a b h. ground arith;
  neg_trans = λ a b c h k. ground arith;
}

-- One chat may stand before another: it is pinned if the other is, and not older if both are or neither is.
abbrev pub MayPrecede : ChatSummary → ChatSummary → Type 0
MayPrecede a b =
    (b.pinned ≡ true → a.pinned ≡ true) × (a.pinned ≡ b.pinned → ltb_ℤ a.time b.time ≡ false)

chat_before-MayPrecede : (a b : ChatSummary) → chat_before b a ≡ false → MayPrecede a b
chat_before-MayPrecede a b h = (λ p. ground arith, λ e. ground arith)

-- The chat list has the pinned chats first, and among the pinned and among the others none that is older
-- before one that is newer, whatever order Go visits the map in.
pub chats-IsSorted : (order : Arrangement) (s : HistoryStore) → Pairwise MayPrecede (chats order s)
unfolding chats
chats-IsSorted order s =
    Pairwise-imp chat_before-MayPrecede (chats order s)
      (sort_slice-IsSorted order chat_before chat_before-StrictWeak (summaries s s.chats))

-- Five bytes are never equal to four.
is_group-false : (jid : Text) → is_group jid ≡ false
unfolding is_group
is_group-false jid = elim (Bool-cases (text_eq (drop (length jid - 4) jid) (bytes "@g.us"))) [
  | inl e ↦ ground (
    arith,
    ap length (text_eq→eq (drop (length jid - 4) jid) (bytes "@g.us") e),
    length-drop (length jid - 4) jid,
  )
  | inr e ↦ ground arith
]

summaries-NotGroup :
    (s : HistoryStore) (d : Dict Conversation) → All (λ c. c.group ≡ false) (summaries s d)
unfolding summaries
summaries-NotGroup s [] = tt
summaries-NotGroup s ((jid, conv) ∷ rest) = elim (Bool-cases (is_broadcast jid)) [
  | inl e ↦ rw e (summaries-NotGroup s rest)
  | inr e ↦ rw e (is_group-false jid, summaries-NotGroup s rest)
]

-- No chat is ever listed as a group: the test compares the last four bytes of the id with the five
-- bytes "@g.us".
pub chats-NotGroup :
    (order : Arrangement) (s : HistoryStore) (c : ChatSummary)
    → Mem c (chats order s)
    → c.group ≡ false
unfolding chats
chats-NotGroup order s c m =
    shown (summaries s s.chats) (summaries-NotGroup s s.chats)
      ((Perm.mem_iff (sort_slice-perm order chat_before (summaries s s.chats))).0 m)
  where
    shown : (l : List ChatSummary) → All (λ c. c.group ≡ false) l → Mem c l → c.group ≡ false
    shown l h k = All-mem (λ c. c.group ≡ false) (λ c. Bool-set c.group false) l h k

summaries-lists :
    (s : HistoryStore) (d : Dict Conversation) (jid : Text) (conv : Conversation)
    → lookup jid d ≡ some conv
    → is_broadcast jid ≡ false
    → Mem (summary s jid conv) (summaries s d)
unfolding summaries lookup
summaries-lists s [] jid conv e h = absurd (cc)
summaries-lists s ((j, c) ∷ rest) jid conv e h = elim (Bool-cases (text_eq j jid)) [
  | inl t ↦ here (text_eq→eq j jid t) (cc (rw t at e))
  | inr t ↦ elim (Bool-cases (is_broadcast j)) [
    | inl b ↦ rw b (summaries-lists s rest jid conv (rw t at e) h)
    | inr b ↦ rw b (mem-cons_of_mem _ (summaries-lists s rest jid conv (rw t at e) h))
  ]
]
  where
    here :
        j ≡ jid
        → c ≡ conv
        → Mem
            (summary s jid conv)
            (if is_broadcast j then summaries s rest else summary s j c ∷ summaries s rest)
    here p q = rw (p, q, h) mem-cons_self

abbrev pub Listed : HistoryStore → Dict Conversation → ChatSummary → Type 0
Listed s d c = ∥ (
    (jid : Text) × (conv : Conversation) × (lookup jid d ≡ some conv)
    × (is_broadcast jid ≡ false)
    × (c ≡ summary s jid conv)) ∥₁

lookup-tail :
    (j jid : Text) (c conv : Conversation) (rest : Dict Conversation)
    → KeyFree j rest
    → lookup jid rest ≡ some conv
    → lookup jid ((j, c) ∷ rest) ≡ some conv
unfolding lookup
lookup-tail j jid c conv rest free e = elim (Bool-cases (text_eq j jid)) [
  | inl t ↦ absurd (
      cc (
        t,
        text_eq_sym j jid,
        All-lookup (λ (x : Text × Conversation). text_eq x.0 j ≡ false) jid rest e free,
      ))
  | inr t ↦ rw t e
]

Listed-later :
    (s : HistoryStore) (j : Text) (v : Conversation) (rest : Dict Conversation) (c : ChatSummary)
    → KeyFree j rest
    → Listed s rest c
    → Listed s ((j, v) ∷ rest) c
Listed-later s j v rest c free h =
    ∥∥₁_map h λ (jid, conv, e, b, eq). (jid, conv, lookup-tail j jid v conv rest free e, b, eq)

Listed-here :
    (s : HistoryStore) (j : Text) (v : Conversation) (rest : Dict Conversation) (c : ChatSummary)
    → is_broadcast j ≡ false
    → c ≡ summary s j v
    → Listed s ((j, v) ∷ rest) c
unfolding lookup
Listed-here s j v rest c b e = ∣ (j, v, rw (text_eq_refl j), b, e) ∣₁

summaries-Listed :
    (s : HistoryStore) (d : Dict Conversation) (c : ChatSummary)
    → DistinctKeys d
    → Mem c (summaries s d)
    → Listed s d c
unfolding summaries
summaries-Listed s [] c k m = absurd (not-mem-nil m)
summaries-Listed s ((j, v) ∷ rest) c k m = elim (Bool-cases (is_broadcast j)) [
  | inl b ↦ Listed-later s j v rest c k.0 (summaries-Listed s rest c k.1 (rw b at m))
  | inr b ↦
      Or.elim squash₁ (mem-cons.0 (rw b at m)) (Listed-here s j v rest c b)
        λ h. Listed-later s j v rest c k.0 (summaries-Listed s rest c k.1 h)
]

-- The list shows every stored chat but the broadcast ones, each with its own summary, and nothing
-- else.
pub chats-Listed :
    (order : Arrangement) (s : HistoryStore)
    → IsValid s
    → ((jid : Text) (conv : Conversation)
        → lookup jid s.chats ≡ some conv
        → is_broadcast jid ≡ false
        → Mem (summary s jid conv) (chats order s))
      × ((c : ChatSummary) → Mem c (chats order s) → Listed s s.chats c)
unfolding chats
chats-Listed order s v = (
  (λ jid conv e b. (Perm.mem_iff same).1 (summaries-lists s s.chats jid conv e b)),
  λ c m. summaries-Listed s s.chats c v.chat_keys ((Perm.mem_iff same).0 m),
)
  where
    same : Perm (chats order s) (summaries s s.chats)
    same = sort_slice-perm order chat_before (summaries s s.chats)
