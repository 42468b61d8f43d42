-- ===== src/Channel.antt =====
-- server-go/channels.go: the cache of the followed channels and their listing. Times are nanoseconds
-- since the epoch.
pub mod Following
pub mod Refresh
pub mod Listing
use what_is_it.Prelude.{
  ℕ, ◌+◌, ◌-◌, ◌||◌, ◌&&◌, ltb, Text, bytes, length, is_empty, has_suffix, List, [], ◌∷◌, ◌++◌,
  Option, none, some, Bool, true, false, not, if◌then◌else◌, Arrangement, sort_slice, take,
}
use what_is_it.Wire.{ChatSummary}
use what_is_it.Calls.{Answer, ok, err}
use what_is_it.Whatsapp.{Jid}
use what_is_it.Store.{HistoryStore, set_name}
use what_is_it.Store.Query
use what_is_it.Store.Query.{message_count}
use what_is_it.Avatar.{Newsletter, is_older}

pub record ChannelSummary : Type 0 where
  pub id : Text
  pub name : Text
  pub description : Text
  pub subscribers : ℕ
  pub updates : ℕ
  pub invite_code : Text
  pub pic : Bool

pub record ChannelCache : Type 0 where
  pub updated : ℕ
  pub channels : List ChannelSummary

-- What whatsmeow answers.
pub record ChannelClient : Type 0 where
  pub is_connected : Bool
  pub subscribed : Answer (List Newsletter)
  pub follow_newsletter : Jid → Answer (Unit {0})
  pub unfollow_newsletter : Jid → Answer (Unit {0})

-- The clock, the order of the maps, `types.ParseJID` and `JID.String`, and the client (`none` is nil).
pub record World : Type 1 where
  pub now : ℕ
  pub order : Arrangement
  pub parse_jid : Text → Answer Jid
  pub jid_text : Jid → Text
  pub client : Option ChannelClient

-- The part of the shared state that the handlers use.
pub record Followed : Type 0 where
  pub store : HistoryStore
  pub cache : ChannelCache

abbrev pub minute : ℕ
minute = 60000000000

abbrev kept : ℕ → ℕ → List ChannelSummary → Option (List ChannelSummary)
kept now updated [] = none
kept now updated (c ∷ cs) = if is_older minute now updated then none else some (c ∷ cs)

-- `channelCache.get`
unfoldable pub cached_channels : ℕ → ChannelCache → Option (List ChannelSummary)
cached_channels now cache = kept now cache.updated cache.channels

-- `channelCache.set`
unfoldable pub set_channels : ℕ → List ChannelSummary → ChannelCache
set_channels now channels = record { updated = now; channels = channels }

unfoldable pub is_newsletter_jid : Text → Bool
is_newsletter_jid id = ltb 11 (length id) && has_suffix id (bytes "@newsletter")

abbrev pub is_connected : Option ChannelClient → Bool
is_connected none = false
is_connected (some c) = c.is_connected

abbrev listed : Answer (List Newsletter) → List Newsletter
listed (err e) = []
listed (ok subs) = subs

abbrev pub subscriptions : Option ChannelClient → List Newsletter
subscriptions none = []
subscriptions (some c) = if c.is_connected then listed c.subscribed else []

-- The channel that the store knows, with nothing but its name.
unfoldable pub local_newsletter : ChatSummary → Newsletter
local_newsletter c = record {
  id = record { user = take (length c.id - 11) c.id; server = bytes "newsletter" };
  name = c.name;
  description = [];
  subscribers = 0;
  invite_code = [];
  picture_url = none;
  preview_url = [];
  preview_path = [];
}

unfoldable pub local_newsletters : List ChatSummary → List Newsletter
unfolding is_newsletter_jid local_newsletter
local_newsletters [] = []
local_newsletters (c ∷ cs) =
    let rest = local_newsletters cs in
    if is_newsletter_jid c.id then local_newsletter c ∷ rest else rest

abbrev pub known_newsletters : World → HistoryStore → List Newsletter → List Newsletter
known_newsletters w s [] = local_newsletters (Query.chats w.order s)
known_newsletters w s (n ∷ ns) = n ∷ ns

abbrev has_url : Option Text → Bool
has_url none = false
has_url (some url) = not (is_empty url)

unfoldable pub channel_name : World → Newsletter → Text
channel_name w sub = if is_empty sub.name then w.jid_text sub.id else sub.name

-- The summary of a channel, over the store that has its name already.
unfoldable pub channel_summary : World → HistoryStore → Newsletter → ChannelSummary
unfolding channel_name message_count
channel_summary w s sub = record {
  id = w.jid_text sub.id;
  name = channel_name w sub;
  description = sub.description;
  subscribers = sub.subscribers;
  updates = message_count (w.jid_text sub.id) s;
  invite_code = sub.invite_code;
  pic =
      has_url sub.picture_url
      || (not (is_empty sub.preview_url) || not (is_empty sub.preview_path));
}

abbrev with_channel :
    ChannelSummary → List ChannelSummary × HistoryStore → List ChannelSummary × HistoryStore
with_channel c (cs, s) = (c ∷ cs, s)

-- The loop of `subscribedChannels`: it also stores the name of each channel.
unfoldable pub channels_of :
    World → List Newsletter → HistoryStore → List ChannelSummary × HistoryStore
unfolding channel_summary channel_name set_name
channels_of w [] s = ([], s)
channels_of w (sub ∷ subs) s =
    let s' = set_name (w.jid_text sub.id) (channel_name w sub) s in
    with_channel (channel_summary w s' sub) (channels_of w subs s')

-- Go's `<` on strings.
unfoldable pub text_less : Text → Text → Bool
text_less [] [] = false
text_less [] (b ∷ t) = true
text_less (a ∷ s) [] = false
text_less (a ∷ s) (b ∷ t) =
    let rest = text_less s t in if ltb a b then true else if ltb b a then false else rest

unfoldable pub name_before : ChannelSummary → ChannelSummary → Bool
unfolding text_less
name_before a b = text_less a.name b.name

abbrev sorted : World → List ChannelSummary × HistoryStore → List ChannelSummary × HistoryStore
sorted w (cs, s) = (sort_slice w.order name_before cs, s)

unfoldable pub subscribed_channels : World → HistoryStore → List ChannelSummary × HistoryStore
unfolding channels_of local_newsletters sort_slice name_before Query.chats
subscribed_channels w s =
    sorted w (channels_of w (known_newsletters w s (subscriptions w.client)) s)

pub data Answered : Type 0 where
  followed : List ChannelSummary → Answered
  done : Answered
  refused : (status : ℕ) → (error : Text) → Answered

abbrev pub refreshed : World → List ChannelSummary × HistoryStore → Answered × Followed
refreshed w (cs, s) = (followed cs, record { store = s; cache = set_channels w.now cs })

abbrev pub from_cache : World → Option (List ChannelSummary) → Followed → Answered × Followed
from_cache w (some cs) f = (followed cs, f)
from_cache w none f = refreshed w (subscribed_channels w f.store)

-- `channels`
unfoldable pub channels : World → Followed → Answered × Followed
unfolding cached_channels set_channels subscribed_channels
channels w f = from_cache w (cached_channels w.now f.cache) f
