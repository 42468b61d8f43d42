-- ===== src/Tests/Pictures.antt =====
-- The theorems on pictures, channels, uploads and linking at concrete data.
use what_is_it.Prelude.{◌⊎◌, ◌++◌, pos, arith}
use what_is_it.Wire.{MediaRef}
use what_is_it.Whatsapp.{ImageMessage}
use what_is_it.Whatsapp.Extract.{extract_message, media_from_message}
use what_is_it.Whatsapp.Session.{MessageEvent, message_of}
use what_is_it.Media.{serve_media, file, media_mime}
use what_is_it.Media.Files.{HasNoSlash}
use what_is_it.Media.Incoming.{Fetch, Downloadable, media_downloadable, cache_incoming}
use what_is_it.Media.Incoming.Served.{cache_incoming-served}
use what_is_it.Tests.{plain_directory}
use what_is_it.Prelude.{
  ℕ, bytes, List, [], ◌∷◌, none, some, true, false, ◌≡◌, refl, as_it_stands, map, Perm, length, ◌≤◌,
  lookup, text_eq,
}
use what_is_it.Calls.{ok}
use what_is_it.Whatsapp.{Jid}
use what_is_it.Store.{new_store}
use what_is_it.Store.Invariant.{IsValid, new_store-IsValid}
use what_is_it.Store.Operation.{Operation, upsert, bump, perform_all}
use what_is_it.Store.Board.{empty_board, board_steps}
use what_is_it.Store.Board.Simulation.{Shows}
use what_is_it.Store.Board.Refined.{perform_all-Shows}
use what_is_it.Avatar
use what_is_it.Avatar.{Newsletter, PictureClient, Picture, avatar, image}
use what_is_it.Avatar.Cache.{avatar_again}
use what_is_it.Channel
use what_is_it.Channel.{
  ChannelClient, Followed, done, channels, refreshed, subscribed_channels, name_before,
  known_newsletters, subscriptions,
}
use what_is_it.Channel.Following.{follow_channel, unfollow_channel}
use what_is_it.Channel.Refresh.{change_refreshes}
use what_is_it.Channel.Listing.{subscribed_channels_lem, NotBehind, NamesNone, stored_ids}
use what_is_it.Store.Query.{chats}
use what_is_it.Prelude.{Pairwise}
use what_is_it.Upload.{UploadClient, MediaForm}
use what_is_it.Link.{Link, Answers, new_link, connect, pair, start_pairing, has_device}
use what_is_it.Link.Streams.{at_start, then_step, pairs, connect-OneStream}
use what_is_it.Tests.{chat_ada, first_message, new_state}

new_store-Shows : Shows new_store empty_board
unfolding lookup
new_store-Shows = record {
  talks = λ c. refl;
  names_of = λ c. refl;
  posts_of = λ c. refl;
  numbers = refl;
}

abbrev one_arrival : List Operation
one_arrival = upsert first_message ∷ bump chat_ada ∷ []

perform_all-Shows_example :
    Shows (perform_all one_arrival new_store) (board_steps one_arrival empty_board)
perform_all-Shows_example = perform_all-Shows one_arrival new_store empty_board new_store-Shows

abbrev ada : Jid
ada = record { user = bytes "ada"; server = bytes "s.whatsapp.net" }

abbrev one_web : Avatar.World
one_web = record {
  now = 1000;
  disk_takes = true;
  disk_gives = true;
  parse_jid = λ t. ok ada;
  client = some (record {
    is_connected = true;
    newsletter_info = λ j. ok none;
    profile_picture = λ j. ok (some (bytes "https://picture"));
  });
  download = λ url. ok (200, bytes "JPEG");
}

-- An hour later, without a client.
abbrev later_web : Avatar.World
later_web = record one_web { now = 3600000001000; client = none }

avatar_again_example :
    avatar later_web chat_ada (avatar one_web chat_ada []).1
    ≡ (image (bytes "JPEG"), (avatar one_web chat_ada []).1)
unfolding avatar Avatar.get_picture Avatar.picture_name Avatar.avatar_url Avatar.fetch_picture
    lookup text_eq
avatar_again_example =
    avatar_again one_web later_web chat_ada (bytes "JPEG") ada [] refl refl refl refl refl refl refl
      refl

abbrev news : Newsletter
news = record {
  id = record { user = bytes "12345"; server = bytes "newsletter" };
  name = bytes "News";
  description = [];
  subscribers = 7;
  invite_code = [];
  picture_url = none;
  preview_url = [];
  preview_path = [];
}

abbrev news_world : Channel.World
news_world = record {
  now = 1000;
  order = as_it_stands;
  parse_jid = λ t. ok news.id;
  jid_text = λ j. bytes "12345@newsletter";
  client = some (record {
    is_connected = true;
    subscribed = ok (news ∷ []);
    follow_newsletter = λ j. ok tt;
    unfollow_newsletter = λ j. ok tt;
  });
}

abbrev one_followed : Followed
one_followed = record { store = new_store; cache = record { updated = 0; channels = [] } }

change_refreshes_example :
    ((follow_channel news_world (some (bytes "12345@newsletter")) one_followed).0 ≡ done
      → channels news_world
          (follow_channel news_world (some (bytes "12345@newsletter")) one_followed).1
        ≡ refreshed news_world (subscribed_channels news_world new_store))
    × ((unfollow_channel news_world (some (bytes "12345@newsletter")) one_followed).0 ≡ done
        → channels news_world
            (unfollow_channel news_world (some (bytes "12345@newsletter")) one_followed).1
          ≡ refreshed news_world (subscribed_channels news_world new_store))
change_refreshes_example =
    change_refreshes news_world news_world (some (bytes "12345@newsletter")) one_followed

subscribed_channels_lem_example :
    Pairwise (λ a b. NotBehind a.name b.name) (subscribed_channels news_world new_store).0
    × ((c : ChannelClient) (n : Newsletter) (ns : List Newsletter)
        → news_world.client ≡ some c
        → c.is_connected ≡ true
        → c.subscribed ≡ ok (n ∷ ns)
        → Perm
            (map (λ c. c.id) (subscribed_channels news_world new_store).0)
            (map (λ m. news_world.jid_text m.id) (n ∷ ns)))
    × (NamesNone news_world.client
        → Perm
            (map (λ c. c.id) (subscribed_channels news_world new_store).0)
            (stored_ids news_world (chats news_world.order new_store)))
    × IsValid (subscribed_channels news_world new_store).1
subscribed_channels_lem_example = subscribed_channels_lem news_world new_store new_store-IsValid

abbrev one_client : UploadClient
one_client = record {
  upload = λ content kind. ok (record {
    url = bytes "u";
    direct_path = bytes "d";
    media_key = bytes "k";
    enc_hash = bytes "e";
    hash = bytes "h";
    file_length = 3;
  });
  send_message = λ jid m. ok (bytes "m9");
}

abbrev one_form : MediaForm
one_form = record {
  chat = chat_ada;
  file = some (record { name = bytes "sea.JPG"; content = ok (bytes "abc") });
}

abbrev good_answers : Answers
good_answers = record { qr_channel = ok tt; connect = ok tt; stays_open = false; item_comes = true }

abbrev after_connect : Link
after_connect = (connect good_answers new_link new_state).0.1

abbrev after_pair : Link
after_pair = (pair good_answers after_connect).1

connect-OneStream_example :
    (length after_pair.codes ≤ 1)
    × ((n : ℕ) → after_pair.codes ≡ n ∷ [] → after_pair.cancel ≡ some n)
    × ((y : Answers)
        → after_pair.connected ≡ false
        → has_device after_pair.device ≡ false
        → ((start_pairing y after_pair).1.codes ≡ [])
          ⊎ ((start_pairing y after_pair).1.codes ≡ after_pair.next ∷ []))
connect-OneStream_example =
    connect-OneStream good_answers new_link (pair good_answers after_connect).1 new_state refl (
      then_step after_connect (pair good_answers after_connect).1 at_start
        (pairs good_answers after_connect))

abbrev sea_picture : ImageMessage
sea_picture = record {
  url = bytes "u";
  thumbnail_path = [];
  caption = bytes "the sea";
  mimetype = bytes "image/jpeg";
}

abbrev sea_message : MessageEvent
sea_message = record {
  id = bytes "m4";
  chat = ada;
  sender = ada;
  time = pos 8;
  is_from_me = false;
  payload = record {
    conversation = [];
    extended = none;
    image = some sea_picture;
    video = none;
    audio = none;
    document = none;
    sticker = none;
    reaction = none;
  };
}

abbrev good_fetch : Fetch
good_fetch = record { download = λ d. ok (bytes "JPEG"); dir = bytes "data/media"; disk = ok tt }

abbrev sea_media : MediaRef
sea_media = record {
  kind = bytes "image";
  url = bytes "u";
  thumb_url = [];
  caption = bytes "the sea";
  mime = bytes "image/jpeg";
}

plain_id : HasNoSlash (bytes "m4")
plain_id = ground arith

cache_incoming-served_example :
    serve_media
      (bytes "data/media")
      (bytes "m4" ++ (bytes "/" ++ bytes "image"))
      (cache_incoming plain_directory good_fetch sea_message [])
    ≡ file (media_mime (bytes "image")) (bytes "JPEG")
unfolding message_of extract_message media_from_message media_downloadable
cache_incoming-served_example =
    cache_incoming-served plain_directory good_fetch sea_message sea_media
      (Downloadable.of_image sea_picture) (bytes "JPEG") [] plain_id refl refl refl refl refl
