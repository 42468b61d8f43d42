-- ===== src/Channel/Listing.antt =====
-- server-go/channels.go, `subscribedChannels`: which channels are listed, in which order, over which store.
use mathlib.Core.List.Perm
use what_is_it.Prelude.{
  Text, ◌<◌, ◌-◌, ltb, ◌&&◌, bytes, has_suffix, length, take, Option, none, some, true, false,
  arith, inl, inr, ◌⊎◌, Bool-cases, Pairwise, Pairwise-imp, if◌then◌else◌, List, [], ◌∷◌, ◌≡◌, refl,
  sym, ap, map, Perm, sort_slice-IsSorted, sort_slice-perm,
}
use what_is_it.Calls.{ok, err}
use what_is_it.Wire.{ChatSummary}
use what_is_it.Store.Query.{chats}
use what_is_it.Store.{HistoryStore, set_name}
use what_is_it.Store.Invariant.{IsValid, set_name-IsValid}
use what_is_it.Avatar.{Newsletter}
use what_is_it.Channel.{
  World, text_less, local_newsletters, local_newsletter, is_newsletter_jid, ChannelSummary,
  ChannelClient, channels_of, channel_name, channel_summary, known_newsletters, subscriptions,
  subscribed_channels, name_before,
}
use what_is_it.Channel.Refresh.{name_before-StrictWeak}

channels_of-ids :
    (w : World) (subs : List Newsletter) (s : HistoryStore)
    → map (λ c. c.id) (channels_of w subs s).0 ≡ map (λ n. w.jid_text n.id) subs
unfolding channels_of channel_summary
channels_of-ids w [] s = refl
channels_of-ids w (n ∷ ns) s =
    ap (◌∷◌ (w.jid_text n.id))
      (channels_of-ids w ns (set_name (w.jid_text n.id) (channel_name w n) s))

channels_of-IsValid :
    (w : World) (subs : List Newsletter) (s : HistoryStore)
    → IsValid s
    → IsValid (channels_of w subs s).1
unfolding channels_of
channels_of-IsValid w [] s v = v
channels_of-IsValid w (n ∷ ns) s v =
    channels_of-IsValid w ns _ (set_name-IsValid (w.jid_text n.id) (channel_name w n) s v)

-- One text is not behind another in the order of their bytes.
abbrev pub NotBehind : Text → Text → Type 0
NotBehind [] t = Unit
NotBehind (a ∷ s) [] = ⊥
NotBehind (a ∷ s) (b ∷ t) = (a < b) ⊎ ((a ≡ b) × NotBehind s t)

text_less-NotBehind : (s t : Text) → text_less t s ≡ false → NotBehind s t
unfolding text_less
text_less-NotBehind [] t h = tt
text_less-NotBehind (a ∷ s) [] h = absurd (ground arith)
text_less-NotBehind (a ∷ s) (b ∷ t) h = elim (Bool-cases (ltb a b)) [
  | inl e ↦ inl (ground arith)
  | inr e ↦ inr (ground arith, text_less-NotBehind s t (ground arith))
]

name_before-NotBehind : (a b : ChannelSummary) → name_before b a ≡ false → NotBehind a.name b.name
unfolding name_before
name_before-NotBehind a b h = text_less-NotBehind a.name b.name h

-- The ids under which the stored chats with the suffix of a channel, and something before it, are listed.
pub stored_ids : World → List ChatSummary → List Text
stored_ids w [] = []
stored_ids w (c ∷ cs) =
    if ltb 11 (length c.id) && has_suffix c.id (bytes "@newsletter")
    then w.jid_text (record { user = take (length c.id - 11) c.id; server = bytes "newsletter" })
      ∷ stored_ids w cs
    else stored_ids w cs

local_newsletters-ids :
    (w : World) (cs : List ChatSummary)
    → map (λ n. w.jid_text n.id) (local_newsletters cs) ≡ stored_ids w cs
unfolding local_newsletters local_newsletter is_newsletter_jid stored_ids
local_newsletters-ids w [] = refl
local_newsletters-ids w (c ∷ cs) =
    elim (Bool-cases (ltb 11 (length c.id) && has_suffix c.id (bytes "@newsletter"))) [
      | inl e ↦ rw e (ap (◌∷◌ (w.jid_text (local_newsletter c).id)) (local_newsletters-ids w cs))
      | inr e ↦ rw e (local_newsletters-ids w cs)
    ]

-- The client names no channel: there is none, it is not connected, it fails, or nothing is followed.
abbrev pub NamesNone : Option ChannelClient → Type 0
NamesNone none = Unit
NamesNone (some c) =
    (c.is_connected ≡ false) ⊎ ((c.subscribed ≡ ok []) ⊎ ((e : Text) × (c.subscribed ≡ err e)))

NamesNone-subscriptions : (c : Option ChannelClient) → NamesNone c → subscriptions c ≡ []
NamesNone-subscriptions none h = refl
NamesNone-subscriptions (some c) (inl e) = rw e refl
NamesNone-subscriptions (some c) (inr (inl e)) = ground arith
NamesNone-subscriptions (some c) (inr (inr (m, e))) = ground arith

named_subscriptions :
    (client : Option ChannelClient) (c : ChannelClient) (n : Newsletter) (ns : List Newsletter)
    → client ≡ some c
    → c.is_connected ≡ true
    → c.subscribed ≡ ok (n ∷ ns)
    → subscriptions client ≡ n ∷ ns
named_subscriptions client c n ns h k e = rw h (rw k (rw e refl))

listed_ids :
    (w : World) (s : HistoryStore)
    → Perm
        (map (λ c. c.id) (subscribed_channels w s).0)
        (map (λ n. w.jid_text n.id) (known_newsletters w s (subscriptions w.client)))
unfolding subscribed_channels
listed_ids w s =
    let subs = known_newsletters w s (subscriptions w.client) in
    rw (sym (channels_of-ids w subs s))
      (Perm.map (λ c. c.id) (sort_slice-perm w.order name_before (channels_of w subs s).0))

listed_as :
    (w : World) (s : HistoryStore) (subs : List Newsletter)
    → subscriptions w.client ≡ subs
    → Perm
        (map (λ c. c.id) (subscribed_channels w s).0)
        (map (λ n. w.jid_text n.id) (known_newsletters w s subs))
listed_as w s subs h = rw h at (listed_ids w s)

listed_local :
    (w : World) (s : HistoryStore)
    → subscriptions w.client ≡ []
    → Perm (map (λ c. c.id) (subscribed_channels w s).0) (stored_ids w (chats w.order s))
listed_local w s h = rw (local_newsletters-ids w (chats w.order s)) at (listed_as w s [] h)

pub subscribed_channels-IsValid :
    (w : World) (s : HistoryStore) → IsValid s → IsValid (subscribed_channels w s).1
unfolding subscribed_channels
subscribed_channels-IsValid w s v =
    channels_of-IsValid w (known_newsletters w s (subscriptions w.client)) s v

-- The channels are listed in the order of the bytes of their names. If the client is connected and names
-- channels, they are exactly these, each as often as it is named; if it names none, they are exactly the
-- stored chats with the suffix "@newsletter". The store stays well formed.
pub subscribed_channels_lem :
    (w : World) (s : HistoryStore)
    → IsValid s
    → Pairwise (λ a b. NotBehind a.name b.name) (subscribed_channels w s).0
      × ((c : ChannelClient) (n : Newsletter) (ns : List Newsletter)
          → w.client ≡ some c
          → c.is_connected ≡ true
          → c.subscribed ≡ ok (n ∷ ns)
          → Perm
              (map (λ c. c.id) (subscribed_channels w s).0)
              (map (λ m. w.jid_text m.id) (n ∷ ns)))
      × (NamesNone w.client
          → Perm (map (λ c. c.id) (subscribed_channels w s).0) (stored_ids w (chats w.order s)))
      × IsValid (subscribed_channels w s).1
unfolding subscribed_channels
subscribed_channels_lem w s v =
    let subs = known_newsletters w s (subscriptions w.client) in
    (
      Pairwise-imp name_before-NotBehind (subscribed_channels w s).0
          (sort_slice-IsSorted w.order name_before name_before-StrictWeak (channels_of w subs s).0),
      (λ c n ns h k e. listed_as w s (n ∷ ns) (named_subscriptions w.client c n ns h k e)),
      (λ h. listed_local w s (NamesNone-subscriptions w.client h)),
      subscribed_channels-IsValid w s v,
    )
