-- ===== src/Adapter/Snapshot/Roundtrip.antt =====
-- adapter/store.go: what `NewHistoryStoreFromPath` finds after `Flush`.
use mathlib.Core.List.{append_assoc, append-nil}
use what_is_it.Prelude.{
  ℤ, pos, negsuc, ◌≤◌, ◌+◌, ◌^◌, Text, text_eq, List, [], ◌∷◌, ◌++◌, some, false, text_eq_sym,
  All-append, ◌≡◌, refl, ap, sym, ◌∙◌, arith, inl, inr, Option-cases, List-cases, All, Dict, insert,
  DistinctKeys, KeyFree,
}
use what_is_it.Wire.{Message, MediaRef, Conversation}
use what_is_it.Adapter.Json.{Numbers, member, get_string, get_bool}
use what_is_it.Adapter.Store.{HistoryStore}
use what_is_it.Adapter.Store.Invariant.{IsHistory}
use what_is_it.Adapter.Snapshot.{
  encode_media, encode_texts, encode_message, encode_messages, encode_conversation, encode_chats,
  encode_names, flush, load_texts, load_media, load_message, load_messages, load_conversation,
  load_chats, load_names, load,
}

load_media-encode_media : (m : MediaRef) → load_media (encode_media m) ≡ m
unfolding load_media encode_media get_string member text_eq
load_media-encode_media m = ground arith

load_texts-encode_texts : (ts : List Text) → load_texts (encode_texts ts) ≡ ts
unfolding load_texts encode_texts
load_texts-encode_texts [] = refl
load_texts-encode_texts (t ∷ ts) = ap (◌∷◌ t) (load_texts-encode_texts ts)

-- The integers that a float64 holds exactly.
abbrev pub IsExact : ℤ → Type 0
IsExact (pos n) = n ≤ 2 ^ 53
IsExact (negsuc n) = n + 1 ≤ 2 ^ 53

abbrev pub HasExact : Text × Conversation → Type 0
HasExact e = IsExact e.1.unread × All (λ m. IsExact m.time) e.1.messages

load_message-encode_message :
    (n : Numbers) (m : Message)
    → n.int_of (n.literal m.time) ≡ m.time
    → load_message n (encode_message n m) ≡ m
unfolding load_message encode_message get_string get_bool member text_eq
load_message-encode_message n m e = elim (List-cases m.reactions) [
  | inl r ↦ elim (Option-cases m.media) [
    | inl h ↦ ground arith
    | inr (md, h) ↦ ground (arith, load_media-encode_media md)
  ]
  | inr ((t, ts), r) ↦ elim (Option-cases m.media) [
    | inl h ↦ ground (arith, load_texts-encode_texts (t ∷ ts))
    | inr (md, h) ↦ ground (arith, load_texts-encode_texts (t ∷ ts), load_media-encode_media md)
  ]
]

-- An insertion of a new key puts it at the end.
insert-new {ℓ} :
    {V : Type ℓ} (k : Text) (v : V) (d : Dict V) → KeyFree k d → insert k v d ≡ d ++ (k, v) ∷ []
unfolding insert
insert-new k v [] h = refl
insert-new k v ((j, w) ∷ d) h = rw (h.0, insert-new k v d h.1)

module _ (n : Numbers) (exact : (z : ℤ) → IsExact z → n.int_of (n.literal z) ≡ z) where
  load_messages-encode_messages :
      (ms : List Message)
      → All (λ m. IsExact m.time) ms
      → load_messages n (encode_messages n ms) ≡ ms
  unfolding load_messages encode_messages
  load_messages-encode_messages [] h = refl
  load_messages-encode_messages (m ∷ ms) h =
      rw (load_message-encode_message n m (exact m.time h.0), load_messages-encode_messages ms h.1)

  load_conversation-encode_conversation :
      (jid : Text) (c : Conversation)
      → HasExact (jid, c)
      → load_conversation n (encode_conversation n c) ≡ c
  unfolding load_conversation encode_conversation member text_eq
  load_conversation-encode_conversation jid c h = elim (List-cases c.messages) [
    | inl e ↦ ground (arith, exact c.unread h.0)
    | inr ((m, ms), e) ↦
        ground (arith, exact c.unread h.0, load_messages-encode_messages c.messages h.1)
  ]

-- No key of the second map is one of the first.
abbrev Apart {ℓ} : {V : Type ℓ} → Dict V → Dict V → Type 0
Apart acc d = All (λ e. KeyFree e.0 acc) d

Apart-extend {ℓ} :
    {V : Type ℓ} (acc d : Dict V) (k : Text) (v : V)
    → KeyFree k d
    → Apart acc d
    → Apart (acc ++ (k, v) ∷ []) d
Apart-extend acc [] k v f h = tt
Apart-extend acc ((j, w) ∷ d) k v f h = (
  All-append (λ e. text_eq e.0 j ≡ false) acc ((k, v) ∷ []) h.0 (rw (text_eq_sym k j) f.0, tt),
  Apart-extend acc d k v f.1 h.1,
)

load_names-encode_names :
    (d acc : Dict Text) → DistinctKeys d → Apart acc d → load_names (encode_names d) acc ≡ acc ++ d
unfolding load_names encode_names
load_names-encode_names [] acc k h = sym (append-nil acc)
load_names-encode_names ((j, v) ∷ d) acc k h =
    ap (load_names (encode_names d)) (insert-new j v acc h.0)
    ∙ (load_names-encode_names d (acc ++ (j, v) ∷ []) k.1 (Apart-extend acc d j v k.0 h.1)
        ∙ append_assoc acc ((j, v) ∷ []) d)

module _ (n : Numbers) (exact : (z : ℤ) → IsExact z → n.int_of (n.literal z) ≡ z) where
  load_chats-encode_chats :
      (d acc : Dict Conversation)
      → All HasExact d
      → DistinctKeys d
      → Apart acc d
      → load_chats n (encode_chats n d) acc ≡ acc ++ d
  unfolding load_chats encode_chats
  load_chats-encode_chats [] acc x k h = sym (append-nil acc)
  load_chats-encode_chats ((j, c) ∷ d) acc x k h =
      ap (λ y. load_chats n (encode_chats n d) (insert j y acc))
        (load_conversation-encode_conversation n exact j c x.0)
      ∙ (ap (load_chats n (encode_chats n d)) (insert-new j c acc h.0)
          ∙ (load_chats-encode_chats d (acc ++ (j, c) ∷ []) x.1 k.1 (Apart-extend acc d j c k.0 h.1)
              ∙ append_assoc acc ((j, c) ∷ []) d))

empty-Apart {ℓ} : {V : Type ℓ} (d : Dict V) → Apart [] d
empty-Apart [] = tt
empty-Apart ((k, v) ∷ d) = (tt, empty-Apart d)

-- If the decoder reads back each integer that a float64 holds exactly, and every time and unread count
-- is one, then the adapter finds after a restart all that it flushed, but for the QR code and the pair
-- code, which are gone.
pub load-flush :
    (n : Numbers)
    → ((z : ℤ) → IsExact z → n.int_of (n.literal z) ≡ z)
    → (s : HistoryStore) → IsHistory s
    → All HasExact s.chats
    → load n (some (flush n s)) ≡ record s { qr = []; pair_code = [] }
unfolding load flush member text_eq
load-flush n exact s v x = rw (
  load_chats-encode_chats n exact s.chats [] x v.chat_keys (empty-Apart s.chats),
  load_names-encode_names s.names [] v.name_keys (empty-Apart s.names),
)
