-- ===== src/Store/Merge.antt =====
-- server-go/store.go, `UpsertMessage`: what it does to the messages of a conversation.
use what_is_it.Prelude.{
  Text, is_empty, if◌then◌else◌, text_eq, text_eq_iff, List, [], ◌∷◌, ◌++◌, Option, none, some,
  Bool, true, false, ◌≡◌, ap, ◌∙◌, inl, inr, arith, Bool-cases, All, length, update_first,
  update_first-absent, update_first-found, find_first, find_first-none, find_first-update_first,
  find_first-update_first_self, length-update_first, OnSome, OnSome-map, keep_last, place,
  place-cut, slice_stable-append,
}
use what_is_it.Wire.{Message}
use what_is_it.Store.{max_messages, has_id, earlier, merge_message, append_message, upsert_messages}
use what_is_it.Store.Conversations.{IsConversation, earlier-StrictWeak}

pub merge_message_twice :
    (msg old : Message) → merge_message msg (merge_message msg old) ≡ merge_message msg old
unfolding merge_message
merge_message_twice msg old = ground arith

pub merge_message_self : (msg : Message) → merge_message msg msg ≡ msg
unfolding merge_message
merge_message_self msg = ground arith

-- A second update of the first hit finds the same element, if the update keeps the test.
pub update_first-twice {ℓ} :
    {A : Type ℓ} (test : A → Bool) (f : A → A)
    → ((x : A) → test x ≡ true → test (f x) ≡ true)
    → ((x : A) → f (f x) ≡ f x)
    → (xs : List A) → OnSome (λ ys. update_first test f ys ≡ some ys) (update_first test f xs)
unfolding update_first
update_first-twice test f keep idem [] = tt
update_first-twice test f keep idem (x ∷ xs) = elim (Bool-cases (test x)) [
  | inl e ↦ rw e (rw (keep x e, idem x))
  | inr e ↦ rw e (
      OnSome-map (λ ys. update_first test f ys ≡ some ys) (◌∷◌ x) (update_first test f xs)
        (λ ys h. rw (e, rw h at (update_first-twice test f keep idem xs))))
]

abbrev pub find_message : Text → List Message → Option Message
find_message id = find_first (has_id id)

pub merge_message-has_id :
    (msg m : Message) → has_id msg.id m ≡ true → has_id msg.id (merge_message msg m) ≡ true
unfolding merge_message
merge_message-has_id msg m h = h

-- Two different ids are not both the id of one message.
other_id :
    (msg : Message) (id : Text)
    → text_eq msg.id id ≡ false
    → (m : Message) → has_id msg.id m ≡ true
    → (has_id id m ≡ false) × (has_id id (merge_message msg m) ≡ false)
unfolding merge_message
other_id msg id h m e =
    ground (arith, text_eq_iff msg.id id, text_eq_iff m.id msg.id, text_eq_iff m.id id)

-- A message whose id is stored already is merged into the stored one: that message takes the new
-- status and text where they are not empty and the new media where there are some, and keeps all else of
-- what it was; every other message is as before, and none is added.
pub upsert_messages_present :
    (msg old : Message) (msgs : List Message)
    → find_message msg.id msgs ≡ some old
    → (find_message msg.id (upsert_messages msg msgs)
        ≡ some (record {
          id = old.id;
          chat = old.chat;
          text = if is_empty msg.text then old.text else msg.text;
          dir = old.dir;
          time = old.time;
          status = if is_empty msg.status then old.status else msg.status;
          reply_to = old.reply_to;
          reactions = old.reactions;
          media = elim msg.media [ none ↦ old.media | some m ↦ some m ];
          from_me = old.from_me;
        }))
      × ((id : Text)
          → text_eq msg.id id ≡ false
          → find_message id (upsert_messages msg msgs) ≡ find_message id msgs)
      × (length (upsert_messages msg msgs) ≡ length msgs)
unfolding upsert_messages merge_message
upsert_messages_present msg old msgs found =
    let (new, e) = update_first-found (has_id msg.id) (merge_message msg) msgs found in
    rw e (
      rw
          (rw e at (
            find_first-update_first_self (has_id msg.id) (merge_message msg)
              (merge_message-has_id msg) msgs))
          (rw found),
      (λ id other. rw e at (
          find_first-update_first (has_id msg.id) (merge_message msg) (has_id id)
            (other_id msg id other) msgs)),
      rw e at (length-update_first (has_id msg.id) (merge_message msg) msgs),
    )

-- The message goes behind those that are not later than it, and only the newest are kept.
abbrev pub placed : Message → List Message → List Message
placed msg msgs = keep_last max_messages (place earlier msg msgs)

pub upsert_messages-new :
    (msg : Message) (msgs : List Message)
    → All (λ m. has_id msg.id m ≡ false) msgs
    → IsConversation msg.chat msgs
    → upsert_messages msg msgs ≡ placed msg msgs
unfolding upsert_messages append_message
upsert_messages-new msg msgs fresh v =
    rw (update_first-absent (has_id msg.id) (merge_message msg) msgs fresh)
      (ap (keep_last max_messages) (slice_stable-append earlier-StrictWeak msgs msg v.sorted))

-- A message whose id is new is inserted between the messages that are not later than it and those
-- that are later, nothing else moves, and of the result the newest `max_messages` are kept.
pub upsert_messages_absent :
    (msg : Message) (msgs : List Message)
    → IsConversation msg.chat msgs
    → find_message msg.id msgs ≡ none
    → (before : List Message) × (after : List Message) × (msgs ≡ before ++ after)
      × (upsert_messages msg msgs ≡ keep_last max_messages (before ++ msg ∷ after))
      × All (λ m. earlier msg m ≡ false) before
      × All (λ m. earlier msg m ≡ true) after
upsert_messages_absent msg msgs v none_found =
    let (before, after, whole, cut, behind, ahead) =
      place-cut earlier-StrictWeak msg msgs v.sorted in
    (
      before,
      after,
      whole,
      upsert_messages-new msg msgs (find_first-none (has_id msg.id) msgs none_found) v
          ∙ ap (keep_last max_messages) cut,
      behind,
      ahead,
    )
