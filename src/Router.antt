-- ===== src/Router.antt =====
-- server-go/web.go, `routes` and `guard`: every route of the server under its guard, over all of its state, and
-- the handler `ws` of server-go/ws.go up to its loop.
pub mod Upkeep
use what_is_it.Prelude.{ℕ, Text, bytes, Option, none, some, Dict, if◌then◌else◌}
use what_is_it.Calls.{Answer, ok, err, Phone}
use what_is_it.Bus.{subscribe}
use what_is_it.Web
use what_is_it.Web.{Client, Response, reply, panicked, failed, Outcome, Credentials, authorized}
use what_is_it.Web.Server.{PhoneRequest, handle_phone}
use what_is_it.Avatar
use what_is_it.Avatar.{Picture, avatar}
use what_is_it.Channel
use what_is_it.Channel.{ChannelCache, Followed, channels}
use what_is_it.Channel.Following.{follow_channel, unfollow_channel}
use what_is_it.Upload.{UploadClient, MediaForm, send_media_file}
use what_is_it.Media
use what_is_it.Media.{serve_media}
use what_is_it.Link.{Link, Answers, pair}

-- The state of the server: the shared state with the registry of calls, the list of channels, the pictures and
-- the media on the disk, and the pairing.
pub record Server : Type 0 where
  pub phone : Phone
  pub channel_cache : ChannelCache
  pub avatars : Dict Picture
  pub media_files : Dict Text
  pub link : Link

-- What the libraries, the network and the disk answer to a request.
pub record Outside : Type 1 where
  pub web : Web.World
  pub avatar : Avatar.World
  pub channel : Channel.World
  pub upload : Option UploadClient
  pub answers : Answers
  pub media_dir : Text
  pub upgrade : Answer (Unit {0})
  pub upgrade_status : ℕ
  pub snapshot : Answer (Unit {0})

pub data Served : Type 0 where
  replied : Response → Served
  listed : Channel.Answered → Served
  pictured : Avatar.Answered → Served
  filed : Media.Served → Served
  upgraded : Served
  not_upgraded : (status : ℕ) → Served

pub data Request : Type 0 where
  phone_request : PhoneRequest → Request
  pair_request : Request
  channels_request : Request
  avatar_request : (chat : Text) → Request
  follow_request : Option Text → Request
  unfollow_request : Option Text → Request
  send_media_request : Answer MediaForm → Request
  media_request : (path : Text) → Request
  ws_request : Request

abbrev pub of_phone : Server → Outcome → Served × Server
of_phone s (r, p) = (replied r, record s { phone = p })

abbrev pub of_link : Server → Response × Link → Served × Server
of_link s (r, l) = (replied r, record s { link = l })

abbrev pub of_channel : Server → Channel.Answered × Followed → Served × Server
of_channel s (r, f) = (
  listed r,
  record s {
    channel_cache = f.cache;
    phone = record s.phone { app = record s.phone.app { store = f.store } };
  },
)

abbrev pub of_avatar : Server → Avatar.Answered × Dict Picture → Served × Server
of_avatar s (r, files) = (pictured r, record s { avatars = files })

abbrev pub followed_of : Server → Followed
followed_of s = record { store = s.phone.app.store; cache = s.channel_cache }

-- `pair` does not ask whether there is a client.
abbrev pub pair_of : Option Client → Answers → Server → Served × Server
pair_of none x s = (replied panicked, s)
pair_of (some c) x s = of_link s (pair x s.link)

abbrev pub subscribed : Server → Server
subscribed s = record s {
  phone = record s.phone { app = record s.phone.app { bus = (subscribe s.phone.app.bus).1 } };
}

-- `ws` up to its loop: whether the connection is upgraded and takes the first message.
abbrev pub ws :
    (upgrade : Answer (Unit {0})) (status : ℕ) (snapshot : Answer (Unit {0}))
    → Server
    → Served × Server
ws (err e) status snapshot s = (not_upgraded status, s)
ws (ok _) status (err e) s = (upgraded, s)
ws (ok _) status (ok _) s = (upgraded, subscribed s)

unfoldable pub handle : Outside → Request → Server → Served × Server
unfolding handle_phone pair channels avatar follow_channel unfollow_channel send_media_file
    serve_media subscribe
handle x (phone_request r) s = of_phone s (handle_phone x.web r s.phone)
handle x pair_request s = pair_of x.web.client x.answers s
handle x channels_request s = of_channel s (channels x.channel (followed_of s))
handle x (avatar_request chat) s = of_avatar s (avatar x.avatar chat s.avatars)
handle x (follow_request body) s = of_channel s (follow_channel x.channel body (followed_of s))
handle x (unfollow_request body) s = of_channel s (unfollow_channel x.channel body (followed_of s))
handle x (send_media_request form) s =
    (replied (send_media_file x.web.directory.parse_jid x.upload form), s)
handle x (media_request path) s = (filed (serve_media x.media_dir path s.media_files), s)
handle x ws_request s = ws x.upgrade x.upgrade_status x.snapshot s

-- `guard`: the handler answers what is authorized, and the rest is rejected.
unfoldable pub guard : Text → Credentials → (Server → Served × Server) → Server → Served × Server
unfolding authorized
guard token c h s =
    if authorized c token then h s else (replied (reply 401 (failed (bytes "unauthorized"))), s)

-- A request as the server serves it.
unfoldable pub serve : Outside → Credentials → Request → Server → Served × Server
unfolding guard handle
serve x c r s = guard s.phone.app.token c (handle x r) s
