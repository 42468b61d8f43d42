-- ===== src/Channel/Refresh.antt =====
-- server-go/channels.go: when the cache of the followed channels is asked, and what a refresh lists.
use what_is_it.Prelude.{
  ℕ, Text, bytes, is_empty, List, [], ◌∷◌, Option, none, some, Bool, true, false, ◌≡◌, refl, arith,
  if◌then◌else◌, StrictWeak, ap,
}
use what_is_it.Calls.{Answer, ok, err}
use what_is_it.Whatsapp.{Jid}
use what_is_it.Store.{HistoryStore}
use what_is_it.Avatar.{is_older}
use what_is_it.Channel.{
  ChannelSummary, ChannelClient, World, Followed, minute, cached_channels, set_channels,
  is_newsletter_jid, subscribed_channels, text_less, name_before, Answered, followed, done, refused,
  refreshed, channels,
}
use what_is_it.Channel.Following.{
  asked, ask, of_newsletter, change, follow_channel, unfollow_channel,
}

-- What a change that succeeded leaves.
abbrev Emptied : World → Followed → Answered × Followed → Type 0
Emptied w f o = o.0 ≡ done → o.1 ≡ record f { cache = record { updated = w.now; channels = [] } }

asked-Emptied :
    (w : World) (error : Text) (a : Answer (Unit {0})) (f : Followed)
    → Emptied w f (asked w error a f)
unfolding set_channels
asked-Emptied w error (err e) f h = absurd (ground arith)
asked-Emptied w error (ok u) f h = refl

ask-Emptied :
    (w : World) (error : Text) (call : ChannelClient → Jid → Answer (Unit {0})) (jid : Jid)
    (c : Option ChannelClient) (f : Followed)
    → Emptied w f (ask w error call jid c f)
ask-Emptied w error call jid none f h = absurd (ground arith)
ask-Emptied w error call jid (some c) f h = asked-Emptied w error (call c jid) f h

refused-Emptied :
    (w : World) (status : ℕ) (error : Text) (f : Followed) → Emptied w f (refused status error, f)
refused-Emptied w status error f h = absurd (ground arith)

if-Emptied :
    (w : World) (f : Followed) (b : Bool) (o p : Answered × Followed)
    → Emptied w f o
    → Emptied w f p
    → Emptied w f (if b then o else p)
if-Emptied w f true o p h k = h
if-Emptied w f false o p h k = k

of_newsletter-Emptied :
    (w : World) (error : Text) (call : ChannelClient → Jid → Answer (Unit {0})) (a : Answer Jid)
    (f : Followed)
    → Emptied w f (of_newsletter w error call a f)
of_newsletter-Emptied w error call (err e) f = refused-Emptied w _ _ f
of_newsletter-Emptied w error call (ok jid) f =
    if-Emptied w f (is_newsletter_jid (w.jid_text jid)) _ _ (ask-Emptied w error call jid _ f)
      (refused-Emptied w _ _ f)

change-Emptied :
    (w : World) (error : Text) (call : ChannelClient → Jid → Answer (Unit {0})) (body : Option Text)
    (f : Followed)
    → Emptied w f (change w error call body f)
change-Emptied w error call none f = refused-Emptied w _ _ f
change-Emptied w error call (some chat) f =
    if-Emptied w f (is_empty chat) _ _ (refused-Emptied w _ _ f)
      (of_newsletter-Emptied w error call (w.parse_jid chat) f)

-- After a channel was followed or unfollowed, the next request for the channels is answered with what the
-- client and the store say then, never with the list that was cached before.
pub change_refreshes :
    (w w' : World) (body : Option Text) (f : Followed)
    → ((follow_channel w body f).0 ≡ done
        → channels w' (follow_channel w body f).1 ≡ refreshed w' (subscribed_channels w' f.store))
      × ((unfollow_channel w body f).0 ≡ done
          → channels w' (unfollow_channel w body f).1
            ≡ refreshed w' (subscribed_channels w' f.store))
unfolding follow_channel unfollow_channel channels cached_channels
change_refreshes w w' body f = (
  (λ h. rw (change-Emptied w (bytes "follow failed") (λ c. c.follow_newsletter) body f h) refl),
  (λ h. rw (change-Emptied w (bytes "unfollow failed") (λ c. c.unfollow_newsletter) body f h) refl),
)

refreshed-again :
    (w w' : World) (c : ChannelSummary) (cs : List ChannelSummary)
    (x : List ChannelSummary × HistoryStore)
    → (refreshed w x).0 ≡ followed (c ∷ cs)
    → is_older minute w'.now w.now ≡ false
    → channels w' (refreshed w x).1 ≡ (followed (c ∷ cs), (refreshed w x).1)
unfolding channels cached_channels set_channels
refreshed-again w w' c cs ([], s) e o = absurd (ground arith)
refreshed-again w w' c cs (d ∷ ds, s) e o = rw o (ap (λ a. (a, (refreshed w (d ∷ ds, s)).1)) e)

-- Within a minute after the channels were asked for and some were found, they are answered again from the
-- cache, without the client, and the store and the cache stay as they are.
pub channels_again :
    (w w' : World) (f : Followed) (c : ChannelSummary) (cs : List ChannelSummary)
    → cached_channels w.now f.cache ≡ none
    → (channels w f).0 ≡ followed (c ∷ cs)
    → is_older minute w'.now w.now ≡ false
    → channels w' (channels w f).1 ≡ (followed (c ∷ cs), (channels w f).1)
unfolding channels
channels_again w w' f c cs miss =
    rw miss (λ shown o. refreshed-again w w' c cs (subscribed_channels w f.store) shown o)

text_less-asym : (s t : Text) → text_less s t ≡ true → text_less t s ≡ false
unfolding text_less
text_less-asym [] [] h = refl
text_less-asym [] (b ∷ t) h = refl
text_less-asym (a ∷ s) [] h = absurd (ground arith)
text_less-asym (a ∷ s) (b ∷ t) h = ground (arith, text_less-asym s t)

text_less-neg_trans :
    (s t u : Text) → text_less t s ≡ false → text_less u t ≡ false → text_less u s ≡ false
unfolding text_less
text_less-neg_trans [] [] u h k = k
text_less-neg_trans [] (b ∷ t) [] h k = refl
text_less-neg_trans [] (b ∷ t) (c ∷ u) h k = refl
text_less-neg_trans (a ∷ s) [] u h k = absurd (ground arith)
text_less-neg_trans (a ∷ s) (b ∷ t) [] h k = absurd (ground arith)
text_less-neg_trans (a ∷ s) (b ∷ t) (c ∷ u) h k = ground (arith, text_less-neg_trans s t u)

pub name_before-StrictWeak : StrictWeak name_before
unfolding name_before
name_before-StrictWeak = record {
  asym = λ a b. text_less-asym a.name b.name;
  neg_trans = λ a b c. text_less-neg_trans a.name b.name c.name;
}
