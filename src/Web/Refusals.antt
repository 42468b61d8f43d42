-- ===== src/Web/Refusals.antt =====
-- server-go/web.go and server-go/auth.go: what a request that is refused leaves behind.
use what_is_it.Prelude.{
  ℤ, ◌==◌, ◌≡◌, refl, Text, Option, none, some, Bool, false, arith, inl, inr, Bool-cases,
}
use what_is_it.State.{take_passkey_pending, take_passkey_answer, is_linked}
use what_is_it.Calls.{Phone, start_outgoing, accept_incoming, reject_incoming, hangup}
use what_is_it.Web.{World, Response, reply, panicked, Outcome, Client, Credentials, authorized}
use what_is_it.Web.Chats.{
  SendBody, ReactBody, when_linked, get_chats, status_list, call_history, get_messages,
  history_backfill, send, read, react,
}
use what_is_it.Web.Calling.{
  call_start, call_accept, call_reject, call_end, call_mute, call_camera, call_state,
}
use what_is_it.Web.Pairing.{
  status, pair_code, pair_code_of, logout, passkey_request, passkey_assertion, passkey_confirm,
  passkey_cancel, post_status,
}
use what_is_it.Web.Server.{
  PhoneRequest, handle_phone, status_request, pair_code_request, chats_request, status_list_request,
  calls_request, status_update_request, messages_request, backfill_request, send_request,
  read_request, react_request, logout_request, call_start_request, call_accept_request,
  call_reject_request, call_end_request, call_mute_request, call_camera_request, call_state_request,
  options_request, assertion_request, confirm_request, cancel_request,
}
use what_is_it.Prelude.{ℕ, is_empty, ◌||◌, true, List, bytes}
use what_is_it.Calls.{Answer, ok, err}
use what_is_it.Whatsapp.{Jid}
use what_is_it.Avatar
use what_is_it.Channel
use what_is_it.Channel.{
  ChannelSummary, ChannelClient, Followed, from_cache, cached_channels, set_channels, channels,
  is_newsletter_jid,
}
use what_is_it.Channel.Following.{
  change, asked, ask, of_newsletter, connected_client, follow_channel, unfollow_channel,
}
use what_is_it.Media
use what_is_it.Link.{Answers}
use what_is_it.Router.{
  Server, Outside, Served, replied, listed, pictured, filed, upgraded, not_upgraded, Request,
  phone_request, pair_request, channels_request, avatar_request, follow_request, unfollow_request,
  send_media_request, media_request, ws_request, of_channel, followed_of, pair_of, ws, handle,
  guard, serve,
}

abbrev pub succeeded : Response → Bool
succeeded (reply status b) = status == 200
succeeded panicked = false

-- A failure keeps the store and the queues of the bus.
abbrev Refuses : Phone → Outcome → Type 0
Refuses p o = succeeded o.0 ≡ false → (o.1.app.store ≡ p.app.store) × (o.1.app.bus ≡ p.app.bus)

send-Refuses : (w : World) (body : Option SendBody) (p : Phone) → Refuses p (send w body p)
unfolding send when_linked is_linked
send-Refuses w none p = ground arith
send-Refuses w (some b) p = ground arith

read-Refuses : (w : World) (body : Option Text) (p : Phone) → Refuses p (read w body p)
unfolding read when_linked is_linked
read-Refuses w none p = ground arith
read-Refuses w (some b) p = ground arith

react-Refuses : (w : World) (body : Option ReactBody) (p : Phone) → Refuses p (react w body p)
unfolding react when_linked is_linked
react-Refuses w none p = ground arith
react-Refuses w (some b) p = ground arith

pair_code-Refuses :
    (w : World) (body : Option (Text × Text)) (p : Phone) → Refuses p (pair_code w body p)
unfolding pair_code pair_code_of
pair_code-Refuses w none p = ground arith
pair_code-Refuses w (some b) p = ground arith

passkey_assertion-Refuses :
    (w : World) (body : Option (Text × Text)) (p : Phone) → Refuses p (passkey_assertion w body p)
unfolding passkey_assertion take_passkey_answer
passkey_assertion-Refuses w none p = ground arith
passkey_assertion-Refuses w (some b) p = ground arith

history_backfill-Refuses :
    (w : World) (body : Option (Text × Option ℤ)) (p : Phone)
    → Refuses p (history_backfill w body p)
unfolding history_backfill when_linked is_linked
history_backfill-Refuses w none p = ground arith
history_backfill-Refuses w (some b) p = ground arith

get_messages-Refuses :
    (w : World) (chat limit : Text) (p : Phone) → Refuses p (get_messages w chat limit p)
unfolding get_messages when_linked is_linked
get_messages-Refuses w chat limit p = ground arith

post_status-Refuses :
    (w : World) (body : Option Text) (p : Phone) → Refuses p (post_status w body p)
unfolding post_status
post_status-Refuses w none p = ground arith
post_status-Refuses w (some b) p = ground arith

call_start-Refuses :
    (w : World) (body : Option (Text × Bool)) (p : Phone) → Refuses p (call_start w body p)
unfolding call_start when_linked is_linked start_outgoing
call_start-Refuses w none p = ground arith
call_start-Refuses w (some b) p = ground arith

call_accept-Refuses :
    (w : World) (body : Option (Text × Bool)) (p : Phone) → Refuses p (call_accept w body p)
unfolding call_accept accept_incoming
call_accept-Refuses w none p = ground arith
call_accept-Refuses w (some b) p = ground arith

call_reject-Refuses :
    (w : World) (body : Option Text) (p : Phone) → Refuses p (call_reject w body p)
unfolding call_reject reject_incoming
call_reject-Refuses w none p = ground arith
call_reject-Refuses w (some b) p = ground arith

call_end-Refuses : (w : World) (body : Option Text) (p : Phone) → Refuses p (call_end w body p)
unfolding call_end hangup
call_end-Refuses w none p = ground arith
call_end-Refuses w (some b) p = ground arith

passkey_confirm-Refuses : (w : World) (p : Phone) → Refuses p (passkey_confirm w p)
unfolding passkey_confirm
passkey_confirm-Refuses w p = ground arith

get_chats-Refuses : (w : World) (p : Phone) → Refuses p (get_chats w p)
unfolding get_chats when_linked is_linked
get_chats-Refuses w p = ground arith

status_list-Refuses : (w : World) (p : Phone) → Refuses p (status_list w p)
unfolding status_list when_linked is_linked
status_list-Refuses w p = ground arith

handle_phone-Refuses : (w : World) (r : PhoneRequest) (p : Phone) → Refuses p (handle_phone w r p)
unfolding handle_phone status call_history get_chats status_list call_mute call_camera call_state
    logout passkey_request take_passkey_pending passkey_cancel
handle_phone-Refuses w status_request p = λ e. (refl, refl)
handle_phone-Refuses w (pair_code_request body) p = pair_code-Refuses w body p
handle_phone-Refuses w chats_request p = get_chats-Refuses w p
handle_phone-Refuses w status_list_request p = status_list-Refuses w p
handle_phone-Refuses w calls_request p = λ e. (refl, refl)
handle_phone-Refuses w (status_update_request body) p = post_status-Refuses w body p
handle_phone-Refuses w (messages_request chat limit) p = get_messages-Refuses w chat limit p
handle_phone-Refuses w (backfill_request body) p = history_backfill-Refuses w body p
handle_phone-Refuses w (send_request body) p = send-Refuses w body p
handle_phone-Refuses w (read_request body) p = read-Refuses w body p
handle_phone-Refuses w (react_request body) p = react-Refuses w body p
handle_phone-Refuses w logout_request p = ground arith
handle_phone-Refuses w (call_start_request body) p = call_start-Refuses w body p
handle_phone-Refuses w (call_accept_request body) p = call_accept-Refuses w body p
handle_phone-Refuses w (call_reject_request body) p = call_reject-Refuses w body p
handle_phone-Refuses w (call_end_request body) p = call_end-Refuses w body p
handle_phone-Refuses w (call_mute_request none) p = λ e. (refl, refl)
handle_phone-Refuses w (call_mute_request (some b)) p = ground arith
handle_phone-Refuses w (call_camera_request none) p = λ e. (refl, refl)
handle_phone-Refuses w (call_camera_request (some b)) p = ground arith
handle_phone-Refuses w call_state_request p = λ e. (refl, refl)
handle_phone-Refuses w options_request p = ground arith
handle_phone-Refuses w (assertion_request body) p = passkey_assertion-Refuses w body p
handle_phone-Refuses w confirm_request p = passkey_confirm-Refuses w p
handle_phone-Refuses w cancel_request p = ground arith

-- The answer has the status 200 or, for a WebSocket, 101.
abbrev pub accepted : Served → Bool
accepted (replied r) = succeeded r
accepted (listed (Channel.followed cs)) = true
accepted (listed Channel.done) = true
accepted (listed (Channel.refused status e)) = status == 200
accepted (pictured (Avatar.image content)) = true
accepted (pictured (Avatar.refused status e)) = status == 200
accepted (filed (Media.file mime content)) = true
accepted (filed Media.bad_path) = false
accepted (filed Media.not_found) = false
accepted upgraded = true
accepted (not_upgraded status) = (status == 200) || (status == 101)

abbrev LeavesBoth : Server → Server → Type 0
LeavesBoth s t = (t.phone.app.store ≡ s.phone.app.store) × (t.phone.app.bus ≡ s.phone.app.bus)

-- A failure keeps the store and the queues of the bus.
abbrev RefusesBoth : Server → Served × Server → Type 0
RefusesBoth s o = accepted o.0 ≡ false → LeavesBoth s o.1

pair_of-Both : (c : Option Client) (x : Answers) (s : Server) → LeavesBoth s (pair_of c x s).1
pair_of-Both none x s = (refl, refl)
pair_of-Both (some c) x s = (refl, refl)

from_cache-Both :
    (w : Channel.World) (o : Option (List ChannelSummary)) (s : Server)
    → RefusesBoth s (of_channel s (from_cache w o (followed_of s)))
from_cache-Both w none s e = ground arith
from_cache-Both w (some cs) s e = (refl, refl)

asked-store :
    (w : Channel.World) (error : Text) (o : Answer (Unit {0})) (f : Followed)
    → (asked w error o f).1.store ≡ f.store
unfolding set_channels
asked-store w error (err e) f = refl
asked-store w error (ok u) f = refl

ask-store :
    (w : Channel.World) (error : Text) (call : ChannelClient → Jid → Answer (Unit {0})) (jid : Jid)
    (c : Option ChannelClient) (f : Followed)
    → (ask w error call jid c f).1.store ≡ f.store
ask-store w error call jid none f = refl
ask-store w error call jid (some c) f = asked-store w error (call c jid) f

of_newsletter-store :
    (w : Channel.World) (error : Text) (call : ChannelClient → Jid → Answer (Unit {0}))
    (o : Answer Jid) (f : Followed)
    → (of_newsletter w error call o f).1.store ≡ f.store
of_newsletter-store w error call (err e) f = refl
of_newsletter-store w error call (ok jid) f =
    elim (Bool-cases (is_newsletter_jid (w.jid_text jid))) [
      | inl h ↦ rw h (ask-store w error call jid (connected_client w.client) f)
      | inr h ↦ rw h refl
    ]

-- Following and unfollowing touch the cached list alone.
pub change-store :
    (w : Channel.World) (error : Text) (call : ChannelClient → Jid → Answer (Unit {0}))
    (body : Option Text) (f : Followed)
    → (change w error call body f).1.store ≡ f.store
change-store w error call none f = refl
change-store w error call (some chat) f = elim (Bool-cases (is_empty chat)) [
  | inl h ↦ rw h refl
  | inr h ↦ rw h (of_newsletter-store w error call (w.parse_jid chat) f)
]

ws-Both :
    (up : Answer (Unit {0})) (status : ℕ) (snapshot : Answer (Unit {0})) (s : Server)
    → RefusesBoth s (ws up status snapshot s)
ws-Both (err e) status snapshot s h = (refl, refl)
ws-Both (ok u) status (err e) s h = (refl, refl)
ws-Both (ok u) status (ok v) s h = ground arith

handle-Both : (x : Outside) (r : Request) (s : Server) → RefusesBoth s (handle x r s)
unfolding handle channels follow_channel unfollow_channel
handle-Both x (phone_request r) s = handle_phone-Refuses x.web r s.phone
handle-Both x pair_request s = λ e. pair_of-Both x.web.client x.answers s
handle-Both x channels_request s =
    from_cache-Both x.channel (cached_channels x.channel.now s.channel_cache) s
handle-Both x (avatar_request chat) s = λ e. (refl, refl)
handle-Both x (follow_request body) s = λ e. (
  change-store x.channel (bytes "follow failed") (λ c. c.follow_newsletter) body (followed_of s),
  refl,
)
handle-Both x (unfollow_request body) s = λ e. (
  change-store x.channel (bytes "unfollow failed") (λ c. c.unfollow_newsletter) body
      (followed_of s),
  refl,
)
handle-Both x (send_media_request form) s = λ e. (refl, refl)
handle-Both x (media_request path) s = λ e. (refl, refl)
handle-Both x ws_request s = ws-Both x.upgrade x.upgrade_status x.snapshot s

-- A request on any route that answers neither 200 nor 101, whatever the reason (no authorization, no linked
-- phone, a bad body or JID, an upgrade that fails, an error or a panic of the client), leaves the store and
-- the event bus as they were.
pub serve-refused :
    (x : Outside) (c : Credentials) (r : Request) (s : Server)
    → accepted (serve x c r s).0 ≡ false
    → ((serve x c r s).1.phone.app.store ≡ s.phone.app.store)
      × ((serve x c r s).1.phone.app.bus ≡ s.phone.app.bus)
unfolding serve guard
serve-refused x c r s = elim (Bool-cases (authorized c s.phone.app.token)) [
  | inl e ↦ rw e (handle-Both x r s)
  | inr e ↦ rw e (λ _. (refl, refl))
]
