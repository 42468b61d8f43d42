-- ===== src/Tests.antt =====
-- Runs of the models on concrete data: the parts of both servers at one message, call, request or frame.
mod Stores
mod Listings
mod Events
mod Requests
mod Media
mod Adapters
mod Pictures
use what_is_it.Prelude.{
  ℤ, pos, Text, bytes, List, [], ◌∷◌, Option, none, some, Bool, true, false, refl,
}
use what_is_it.Wire.{Message, CallRecord, StatusEntry, Conversation}
use what_is_it.Store.{HistoryStore, new_store}
use what_is_it.Store.Operation.{perform, upsert}
use what_is_it.Store.Invariant.{IsValid, new_store-IsValid}
use what_is_it.Store.Validity.{perform-IsValid}
use what_is_it.State.{AppState, new_app_state}
use what_is_it.State.Invariant.{IsApp}
use what_is_it.Calls.{Answer, ok, err, Call, Phone, new_call_registry}
use what_is_it.Whatsapp.{Directory, Jid}

abbrev pub chat_ada : Text
chat_ada = bytes "ada@s.whatsapp.net"

abbrev pub message_at : Text → ℤ → Message
message_at id time = record {
  id = id;
  chat = chat_ada;
  text = bytes "hello";
  dir = bytes "in";
  time = time;
  status = bytes "received";
  reply_to = [];
  reactions = [];
  media = none;
  from_me = false;
}

abbrev pub first_message : Message
first_message = message_at (bytes "m1") (pos 1)

abbrev pub later_message : Message
later_message = message_at (bytes "m2") (pos 2)

abbrev pub last_message : Message
last_message = message_at (bytes "m3") (pos 3)

abbrev pub one_store : HistoryStore
one_store = perform (upsert first_message) new_store

pub one_store-IsValid : IsValid one_store
one_store-IsValid = perform-IsValid (upsert first_message) new_store new_store-IsValid

abbrev pub filled_store : HistoryStore
filled_store = record new_store {
  chats =
      (
        chat_ada,
        record { messages = first_message ∷ later_message ∷ []; unread = pos 0; pinned = false },
      )
      ∷ [];
}

abbrev pub missed : CallRecord
missed = record {
  id = bytes "c1";
  peer = chat_ada;
  dir = bytes "in";
  video = false;
  missed = true;
  time = pos 5;
}

abbrev pub story : ℤ → StatusEntry
story time = record {
  sender = chat_ada;
  name = bytes "Ada";
  text = bytes "at the sea";
  kind = bytes "text";
  time = time;
  media = none;
}

abbrev pub call_ada : Call
call_ada = record { id = bytes "c1"; peer = chat_ada; is_video = true }

abbrev pub secret : Text
secret = bytes "secret"

abbrev pub new_state : AppState
new_state = new_app_state secret new_store

abbrev pub new_phone : Phone
new_phone = record { app = new_state; calls = new_call_registry }

-- The same, linked.
abbrev pub linked_phone : Phone
linked_phone = record new_phone { app = record new_state { phone = bytes "39" } }

pub new_state-IsApp : IsApp new_state
new_state-IsApp = record {
  store = new_store-IsValid;
  bus = record { bounded = tt; issued = tt; distinct = tt };
}

-- A directory in which each text is a user of the default server.
abbrev pub plain_directory : Directory
plain_directory = record {
  parse_jid = λ t. ok (record { user = t; server = bytes "s.whatsapp.net" });
  jid_text = λ j. j.user;
  contact = λ _. none;
}
