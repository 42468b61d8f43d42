-- ===== src/Tests/Requests.antt =====
-- The theorems on the HTTP interface at concrete requests.
use what_is_it.Prelude.{
  pos, bytes, [], none, some, true, false, ◌≡◌, refl, ◌⊎◌, as_it_stands, text_eq,
}
use what_is_it.Store.{upsert_message}
use what_is_it.Bus.{ev_message}
use what_is_it.State.{publishing, is_linked}
use what_is_it.State.Invariant.{IsApp}
use what_is_it.Calls.{ok, Phone}
use what_is_it.Whatsapp.{Jid}
use what_is_it.Web.{World, Client, conversation, Credentials, authorized, reply, failed}
use what_is_it.Web.Chats.{SendBody, when_linked, send}
use what_is_it.Web.Pairing.{passkey_assertion}
use what_is_it.Web.Server.{send_request}
use what_is_it.Link.{new_link}
use what_is_it.Calls.{err}
use what_is_it.State.{set_own_phone}
use what_is_it.Router.{Server, Outside, phone_request, ws_request, replied, handle, guard, serve}
use what_is_it.Web.Refusals.{succeeded, serve-refused}
use what_is_it.Web.Admission.{HasToken, serve-guarded, send-recorded}
use what_is_it.System.{Runs, serves, sets_phone, goes_on, stays, Runs-IsApp}
use what_is_it.System.Passkey.{passkey_assertion-never}
use what_is_it.Tests.{
  chat_ada, call_ada, secret, new_phone, linked_phone, new_state-IsApp, plain_directory,
}

abbrev willing_client : Client
willing_client = record {
  device_linked = true;
  is_connected = true;
  ready = ok tt;
  pair_phone = λ phone. ok (bytes "ABCD1234");
  send_message = λ jid m. ok (bytes "m9");
  send_peer_message = λ jid m n. ok tt;
  mark_read = λ ids jid. ok tt;
  passkey_confirm = ok tt;
}

abbrev one_world : World
one_world = record {
  order = as_it_stands;
  now = pos 7;
  directory = plain_directory;
  atoi = λ t. none;
  b64url_decode = λ t. ok t;
  client = some willing_client;
  engine = some (λ chat video. ok call_ada);
  answer = λ id. ok tt;
  reject = λ id. ok tt;
  hangup = λ id. ok tt;
}

abbrev greeting : SendBody
greeting = record { chat = chat_ada; text = bytes "good morning"; reply_to = none }

abbrev no_credentials : Credentials
no_credentials = record { authorization = []; token = [] }

abbrev with_token : Credentials
with_token = record { authorization = []; token = secret }

-- A server around a linked phone, outside which everything answers.
abbrev server_of : Phone → Server
server_of p = record {
  phone = p;
  channel_cache = record { updated = 0; channels = [] };
  avatars = [];
  media_files = [];
  link = new_link;
}

abbrev one_outside : Outside
one_outside = record {
  web = one_world;
  avatar = record {
    now = 7;
    disk_takes = true;
    disk_gives = true;
    parse_jid = plain_directory.parse_jid;
    client = none;
    download = λ url. ok (200, bytes "JPEG");
  };
  channel = record {
    now = 7;
    order = as_it_stands;
    parse_jid = plain_directory.parse_jid;
    jid_text = plain_directory.jid_text;
    client = none;
  };
  upload = none;
  answers = record { qr_channel = ok tt; connect = ok tt; stays_open = false; item_comes = true };
  media_dir = bytes "data/media";
  upgrade = err (bytes "not a websocket handshake");
  upgrade_status = 400;
  snapshot = ok tt;
}

serve-refused_example :
    ((serve one_outside with_token ws_request (server_of linked_phone)).1.phone.app.store
      ≡ linked_phone.app.store)
    × ((serve one_outside with_token ws_request (server_of linked_phone)).1.phone.app.bus
        ≡ linked_phone.app.bus)
unfolding serve guard handle authorized text_eq
serve-refused_example =
    serve-refused one_outside with_token ws_request (server_of linked_phone) refl

serve-guarded_example :
    (HasToken with_token secret
      × (serve one_outside with_token ws_request (server_of linked_phone)
          ≡ handle one_outside ws_request (server_of linked_phone)))
    ⊎ ((¬ HasToken with_token secret)
        × (serve one_outside with_token ws_request (server_of linked_phone)
            ≡ (replied (reply 401 (failed (bytes "unauthorized"))), server_of linked_phone)))
serve-guarded_example = serve-guarded one_outside with_token ws_request (server_of linked_phone)

send-recorded_example :
    (c : Client) × (jid : Jid) × (one_world.client ≡ some c)
    × (one_world.directory.parse_jid chat_ada ≡ ok jid)
    × (c.send_message jid (conversation (bytes "good morning")) ≡ ok (bytes "m9"))
    × ((send one_world (some greeting) linked_phone).1 ≡ record linked_phone {
      app = publishing (ev_message chat_ada) (record linked_phone.app {
        store =
            upsert_message
              (record {
                id = bytes "m9";
                chat = chat_ada;
                text = bytes "good morning";
                dir = bytes "out";
                time = pos 7;
                status = bytes "sent";
                reply_to = [];
                reactions = [];
                media = none;
                from_me = true;
              })
              linked_phone.app.store;
      });
    })
unfolding send when_linked is_linked
send-recorded_example = send-recorded one_world greeting linked_phone (bytes "m9") refl

abbrev after_send : Server
after_send =
    (serve one_outside with_token (phone_request (send_request (some greeting)))
      (server_of new_phone)).1

abbrev half_linked : Server
half_linked = record after_send {
  phone = record after_send.phone { app = set_own_phone (bytes "39") after_send.phone.app };
}

one_run : Runs (server_of new_phone) half_linked
one_run =
    goes_on
      (goes_on (stays refl)
        (serves one_outside with_token (phone_request (send_request (some greeting))) refl))
      (sets_phone (bytes "39") refl)

Runs-IsApp_example : IsApp half_linked.phone.app
Runs-IsApp_example = Runs-IsApp (server_of new_phone) half_linked new_state-IsApp one_run

passkey_assertion-never_example :
    succeeded (passkey_assertion one_world (some (bytes "a", bytes "b")) half_linked.phone).0
    ≡ false
passkey_assertion-never_example =
    passkey_assertion-never (server_of new_phone) half_linked one_world
      (some (bytes "a", bytes "b")) refl one_run
