-- ===== src/Channel/Following.antt =====
-- server-go/channels.go: the handlers that follow and unfollow a channel.
use what_is_it.Prelude.{Text, bytes, is_empty, [], Option, none, some, if◌then◌else◌}
use what_is_it.Calls.{Answer, ok, err}
use what_is_it.Whatsapp.{Jid}
use what_is_it.Channel.{
  ChannelClient, World, Followed, set_channels, is_newsletter_jid, Answered, done, refused,
}

-- The two handlers differ in the call of the client and in its message.
abbrev pub asked : World → (error : Text) → Answer (Unit {0}) → Followed → Answered × Followed
asked w error (err e) f = (refused 500 error, f)
asked w error (ok _) f = (done, record f { cache = set_channels w.now [] })

abbrev pub connected_client : Option ChannelClient → Option ChannelClient
connected_client none = none
connected_client (some c) = if c.is_connected then some c else none

abbrev pub ask :
    World
    → Text
    → (ChannelClient → Jid → Answer (Unit {0}))
    → Jid
    → Option ChannelClient
    → Followed
    → Answered × Followed
ask w error call jid none f = (refused 503 (bytes "not connected"), f)
ask w error call jid (some c) f = asked w error (call c jid) f

abbrev pub of_newsletter :
    World
    → Text
    → (ChannelClient → Jid → Answer (Unit {0}))
    → Answer Jid
    → Followed
    → Answered × Followed
of_newsletter w error call (err e) f = (refused 400 (bytes "bad newsletter jid"), f)
of_newsletter w error call (ok jid) f =
    if is_newsletter_jid (w.jid_text jid)
    then ask w error call jid (connected_client w.client) f
    else (refused 400 (bytes "bad newsletter jid"), f)

abbrev pub change :
    World
    → Text
    → (ChannelClient → Jid → Answer (Unit {0}))
    → Option Text
    → Followed
    → Answered × Followed
change w error call none f = (refused 400 (bytes "bad request"), f)
change w error call (some chat) f =
    if is_empty chat
    then (refused 400 (bytes "chat required"), f)
    else of_newsletter w error call (w.parse_jid chat) f

unfoldable pub follow_channel : World → Option Text → Followed → Answered × Followed
unfolding is_newsletter_jid set_channels
follow_channel w = change w (bytes "follow failed") (λ c. c.follow_newsletter)

unfoldable pub unfollow_channel : World → Option Text → Followed → Answered × Followed
unfolding is_newsletter_jid set_channels
unfollow_channel w = change w (bytes "unfollow failed") (λ c. c.unfollow_newsletter)
