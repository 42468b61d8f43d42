-- ===== src/Tests/Adapters.antt =====
-- The theorems on the adapter at concrete data.
use what_is_it.Prelude.{
  List, ℤ, pos, negsuc, Text, bytes, [], ◌∷◌, ◌++◌, none, some, true, false, ◌≡◌, refl, arith,
  as_it_stands, zero, suc, insert, lookup, update_first, keep_last, slice_stable, text_eq,
}
use what_is_it.Calls.{ok, err}
use what_is_it.Store
use what_is_it.Adapter
use what_is_it.Store.Operation.{perform}
use what_is_it.Adapter.Json.{Numbers, string, object, end, field}
use what_is_it.Adapter.Store.{
  HistoryStore, new_history_store, upsert_messages, upsert_message, set_name,
}
use what_is_it.Adapter.Store.Invariant.{
  IsHistory, new_history_store-IsHistory, upsert_message-IsHistory, set_name-IsHistory,
}
use what_is_it.Adapter.Snapshot.{load, flush}
use what_is_it.Adapter.Snapshot.Roundtrip.{load-flush}
use what_is_it.Adapter.Hub.{Hub, BackendEvent, backend_event, broadcast}
use what_is_it.Adapter.Hub.Delivery.{IsHub, HubCall, hub_step, reached, dropped, broadcast_lem}
use what_is_it.Adapter.Gateway.{World, Adapter}
use what_is_it.Adapter.Reply.{Request}
use what_is_it.Adapter.Routes.{serve}
use what_is_it.Adapter.Upkeep.{IsAdapter}
use what_is_it.Adapter.Service.{answers, rests, continues, AdapterRuns-Safe}
use what_is_it.Store.{new_store}
use what_is_it.Store.Invariant.{new_store-IsValid}
use what_is_it.Adapter.Store.Shared.{
  Shared, arrived, bumped, reacted, Agrees, all_by_server, all_by_adapter, shared_operations_agree,
}
use what_is_it.Adapter.Refusals.{serve_refused}
use what_is_it.Tests.{chat_ada, first_message, later_message}

abbrev read_back : Text → ℤ
read_back (zero ∷ n ∷ []) = pos n
read_back (suc zero ∷ n ∷ []) = negsuc n
read_back _ = pos 0

abbrev written : ℤ → Text
written (pos n) = 0 ∷ n ∷ []
written (negsuc n) = 1 ∷ n ∷ []

abbrev two_numbers : Numbers
two_numbers = record { int_of = read_back; literal = written }

read_back-written : (z : ℤ) → two_numbers.int_of (two_numbers.literal z) ≡ z
read_back-written (pos n) = refl
read_back-written (negsuc n) = refl

abbrev one_history : HistoryStore
one_history = set_name chat_ada (bytes "Ada") (upsert_message first_message new_history_store)

one_history-IsHistory : IsHistory one_history
one_history-IsHistory =
    set_name-IsHistory chat_ada (bytes "Ada") _
      (upsert_message-IsHistory first_message new_history_store new_history_store-IsHistory)

load-flush_example :
    load two_numbers (some (flush two_numbers one_history))
    ≡ record one_history { qr = []; pair_code = [] }
unfolding set_name upsert_message Adapter.Store.conversation_at upsert_messages insert lookup
    update_first keep_last
load-flush_example =
    load-flush two_numbers (λ z h. read_back-written z) one_history one_history-IsHistory
      ((omega arith, (omega arith, tt)), tt)

abbrev new_message : BackendEvent
new_message = record (backend_event (bytes "message")) { chat = chat_ada }

abbrev one_hub : Hub
one_hub = record { clients = record { conn = 1; buffer = []; closed = false } ∷ []; gone = [] }

one_hub-IsHub : IsHub one_hub
one_hub-IsHub = (record { open_channel = refl; bounded = omega arith }, tt)

broadcast_lem_example :
    broadcast new_message one_hub
    ≡ some (record {
      clients = reached new_message one_hub.clients;
      gone = dropped one_hub.clients ++ one_hub.gone;
    })
broadcast_lem_example = broadcast_lem new_message one_hub one_hub-IsHub

-- A gateway that takes every message under the id "m9".
abbrev one_world : World
one_world = record {
  order = as_it_stands;
  now = pos 7;
  send = λ r. ok (record { status = 200; body = bytes "key" });
  unmarshal =
      λ t. some (field (bytes "key") (object (field (bytes "id") (string (bytes "m9")) end)) end);
  print_value = λ v. [];
  print_status = λ n. [];
  numbers = two_numbers;
  upgrade = ok 2;
  upgrade_status = 400;
  disk_takes = true;
}

abbrev one_adapter : Adapter
one_adapter = record {
  store = one_history;
  hub = one_hub;
  whats_miau = bytes "http://gateway";
  instance_id = [];
  api_key = [];
  listen_addr = bytes ":18770";
  media_public_url = [];
  files = [];
  requests = [];
}

abbrev send_text : Text → Request
send_text text = record {
  method = bytes "POST";
  path = bytes "/send";
  query = [];
  texts = none;
  fields = some (field (bytes "chat") (string chat_ada) (field (bytes "text") (string text) end));
  form = err [];
}

abbrev after_send : Adapter
after_send = (serve one_world (send_text (bytes "hello")) one_adapter).1

AdapterRuns-Safe_example :
    IsAdapter after_send × ((c : HubCall) → (h : Hub) × (hub_step c after_send.hub ≡ some h))
AdapterRuns-Safe_example =
    AdapterRuns-Safe one_adapter after_send
      (record { history = one_history-IsHistory; sockets = one_hub-IsHub })
      (continues (rests refl) (answers one_world (send_text (bytes "hello")) refl))

-- A text that is empty is refused.
serve_refused_example :
    ((serve one_world (send_text []) one_adapter).1.store ≡ one_adapter.store)
    × ((serve one_world (send_text []) one_adapter).1.hub ≡ one_adapter.hub)
unfolding serve Adapter.Routes.mux_route Adapter.Routes.handle Adapter.Chats.send text_eq
serve_refused_example = serve_refused one_world (send_text []) one_adapter refl refl

-- A message arrives, is counted and gets a reaction, in both servers.
abbrev one_day : List Shared
one_day =
    arrived first_message
    ∷ bumped chat_ada
    ∷ arrived later_message
    ∷ reacted chat_ada (bytes "m1") (bytes "+")
    ∷ []

shared_operations_agree_example :
    Agrees (all_by_server one_day new_store) (all_by_adapter one_day new_history_store)
unfolding perform Store.upsert_message Store.bump_unread insert lookup Store.upsert_messages
    Store.append_message update_first keep_last text_eq slice_stable
shared_operations_agree_example =
    shared_operations_agree one_day new_store new_history_store new_store-IsValid
      ((tt, refl, omega arith), (tt, (((refl, tt), refl, omega arith), (tt, tt))))
      (record { chats = refl; names = refl; phones = refl })
