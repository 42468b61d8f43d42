-- ===== src/Router/Upkeep.antt =====
-- server-go/web.go: every route keeps the shared state well formed, and so do the goroutines of the pairing.
use what_is_it.Prelude.{ℕ, Text, bytes, List, [], Option, none, some, inl, inr, Bool-cases}
use what_is_it.Calls.{Answer, ok, err}
use what_is_it.Store.Operation.{perform, phone}
use what_is_it.Store.Validity.{perform-IsValid}
use what_is_it.Bus.{ev_qr}
use what_is_it.Bus.Delivery.{bus_step, bus_step-IsBus, subscribes}
use what_is_it.State.{AppState, set_phone_number, set_qr}
use what_is_it.State.Invariant.{IsApp}
use what_is_it.Whatsapp.Upkeep.{publication-IsApp}
use what_is_it.Web.{Client, Credentials, authorized}
use what_is_it.Web.Upkeep.{handle_phone-Leaves}
use what_is_it.Web.Refusals.{change-store}
use what_is_it.Channel
use what_is_it.Channel.{ChannelSummary, from_cache, cached_channels, channels, set_channels}
use what_is_it.Channel.Following.{follow_channel, unfollow_channel}
use what_is_it.Channel.Listing.{subscribed_channels-IsValid}
use what_is_it.Link.{
  Link, Answers, Item, code, timeout, other, on_item, connect, connect_device, linked_as, dial,
}
use what_is_it.Router.{
  Server, Outside, Request, phone_request, pair_request, channels_request, avatar_request,
  follow_request, unfollow_request, send_media_request, media_request, ws_request, of_channel,
  followed_of, pair_of, ws, handle, guard, serve,
}

pair_of-IsApp :
    (c : Option Client) (x : Answers) (s : Server)
    → IsApp s.phone.app
    → IsApp (pair_of c x s).1.phone.app
pair_of-IsApp none x s v = v
pair_of-IsApp (some c) x s v = v

from_cache-IsApp :
    (w : Channel.World) (o : Option (List ChannelSummary)) (s : Server)
    → IsApp s.phone.app
    → IsApp (of_channel s (from_cache w o (followed_of s))).1.phone.app
from_cache-IsApp w none s v = record {
  store = subscribed_channels-IsValid w s.phone.app.store v.store;
  bus = v.bus;
}
from_cache-IsApp w (some cs) s v = record { store = v.store; bus = v.bus }

ws-IsApp :
    (up : Answer (Unit {0})) (status : ℕ) (snapshot : Answer (Unit {0})) (s : Server)
    → IsApp s.phone.app
    → IsApp (ws up status snapshot s).1.phone.app
unfolding bus_step
ws-IsApp (err e) status snapshot s v = v
ws-IsApp (ok u) status (err e) s v = v
ws-IsApp (ok u) status (ok t) s v = record {
  store = v.store;
  bus = bus_step-IsBus subscribes s.phone.app.bus v.bus;
}

handle-IsApp :
    (x : Outside) (r : Request) (s : Server) → IsApp s.phone.app → IsApp (handle x r s).1.phone.app
unfolding handle channels follow_channel unfollow_channel
handle-IsApp x (phone_request r) s v = handle_phone-Leaves x.web r s.phone v
handle-IsApp x pair_request s v = pair_of-IsApp x.web.client x.answers s v
handle-IsApp x channels_request s v =
    from_cache-IsApp x.channel (cached_channels x.channel.now s.channel_cache) s v
handle-IsApp x (avatar_request chat) s v = v
handle-IsApp x (follow_request body) s v = record {
  store =
      rw
        (change-store x.channel (bytes "follow failed") (λ c. c.follow_newsletter) body
          (followed_of s))
        v.store;
  bus = v.bus;
}
handle-IsApp x (unfollow_request body) s v = record {
  store =
      rw
        (change-store x.channel (bytes "unfollow failed") (λ c. c.unfollow_newsletter) body
          (followed_of s))
        v.store;
  bus = v.bus;
}
handle-IsApp x (send_media_request form) s v = v
handle-IsApp x (media_request path) s v = v
handle-IsApp x ws_request s v = ws-IsApp x.upgrade x.upgrade_status x.snapshot s v

-- Every request, authorized or not and whatever is answered from outside, leaves the shared state well
-- formed if it was.
pub serve-IsApp :
    (x : Outside) (c : Credentials) (r : Request) (s : Server)
    → IsApp s.phone.app
    → IsApp (serve x c r s).1.phone.app
unfolding serve guard
serve-IsApp x c r s v = elim (Bool-cases (authorized c s.phone.app.token)) [
  | inl e ↦ rw e (handle-IsApp x r s v)
  | inr e ↦ rw e v
]

pub on_item-IsApp : (item : Item) (a : AppState) → IsApp a → IsApp (on_item item a)
unfolding on_item set_qr
on_item-IsApp (code c) a v =
    publication-IsApp (ev_qr c) (set_qr c a) (record { store = v.store; bus = v.bus })
on_item-IsApp timeout a v =
    publication-IsApp (ev_qr []) (set_qr [] a) (record { store = v.store; bus = v.bus })
on_item-IsApp other a v = v

linked_as-IsApp :
    (user : Text) (o : Answer (Unit {0}) × Link) (a : AppState)
    → IsApp a
    → IsApp (linked_as user o a).1
unfolding set_phone_number perform
linked_as-IsApp user (err e, l) a v = v
linked_as-IsApp user (ok u, l) a v = record {
  store = perform-IsValid (phone user) a.store v.store;
  bus = v.bus;
}

connect_device-IsApp :
    (device : Option Text) (x : Answers) (l : Link) (a : AppState)
    → IsApp a
    → IsApp (connect_device device x l a).1
connect_device-IsApp none x l a v = v
connect_device-IsApp (some user) x l a v = linked_as-IsApp user (dial x l) a v

pub connect-IsApp : (x : Answers) (l : Link) (a : AppState) → IsApp a → IsApp (connect x l a).1
unfolding connect
connect-IsApp x l a v = connect_device-IsApp l.device x l a v
