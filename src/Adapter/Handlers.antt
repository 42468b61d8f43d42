-- ===== src/Adapter/Handlers.antt =====
-- adapter/routes.go: every request keeps the adapter's state well formed.
use what_is_it.Prelude.{
  ℕ, refl, ◌==◌, Text, bytes, is_empty, [], Option, none, some, or_else, arith, Dict, inl, inr,
  Bool-cases,
}
use what_is_it.Calls.{Answer, ok, err}
use what_is_it.Adapter.Json.{Fields, member, as_string}
use what_is_it.Adapter.Store.Invariant.{
  set_phone-IsHistory, set_qr-IsHistory, set_pair_code-IsHistory, upsert_message-IsHistory,
  mark_read-IsHistory, add_reaction-IsHistory,
}
use what_is_it.Adapter.Hub.{add}
use what_is_it.Adapter.Gateway.{World, Adapter, proxy, message_path, instance_path}
use what_is_it.Adapter.Reply.{Request, Outcome, Form, value_of}
use what_is_it.Adapter.Chats.{
  get_chats, get_messages, send, send_media, read, react, record_sent, send_text, text_at,
  text_request,
}
use what_is_it.Prelude.{◌||◌}
use what_is_it.Adapter.Session
use what_is_it.Adapter.Session.{
  pair, pair_code, logout, passkey_request, passkey_done, call_unsupported, call_state,
  config_backend, provision_qr, paired, qr_in, show_qr, code_of, code_request, ask_code,
}
use what_is_it.Web.Pairing.{digits}
use what_is_it.Adapter.Content.{get_media, serve_file}
use what_is_it.Adapter.Routes.{
  Route, handle, serve, mux_route, status_route, pair_route, pair_code_route, chats_route,
  messages_route, send_route, send_media_route, read_route, react_route, logout_route, call_route,
  call_state_route, passkey_request_route, passkey_done_route, config_route, provision_route,
  webhook_route, media_route, files_route, ws_route, no_route, join,
}
use what_is_it.Adapter.Gateway.{HttpReply}
use what_is_it.Adapter.Reply.{relayed}
use what_is_it.Adapter.Upkeep.{
  IsAdapter, announced-IsAdapter, asked-IsAdapter, if-IsAdapter, webhook-IsAdapter,
}

abbrev Leaves : Outcome → Type 0
Leaves o = IsAdapter o.1

relayed-Leaves :
    (f : Text → Adapter → Outcome) (x : Answer HttpReply × Adapter)
    → IsAdapter x.1
    → ((body : Text) → Leaves (f body x.1))
    → Leaves (relayed f x)
relayed-Leaves f (err e, a) v k = v
relayed-Leaves f (ok r, a) v k = elim (Bool-cases (r.status == 200)) [
  | inl e ↦ rw e (k r.body)
  | inr e ↦ rw e v
]

record_sent-Leaves :
    (w : World) (chat text : Text) (resp : Option Fields) (a : Adapter)
    → IsAdapter a
    → Leaves (record_sent w chat text resp a)
record_sent-Leaves w chat text none a v = v
record_sent-Leaves w chat text (some resp) a v =
    announced-IsAdapter _ _ a (upsert_message-IsHistory _ a.store v.history) v

send_text-Leaves :
    (w : World) (chat text reply_to : Text) (a : Adapter)
    → IsAdapter a
    → Leaves (send_text w chat text reply_to a)
send_text-Leaves w chat text reply_to a v =
    let v' =
      asked-IsAdapter w (bytes "POST") (message_path a (bytes "/text"))
        (some (text_request chat text reply_to)) a v in
    relayed-Leaves (λ body. record_sent w chat text (w.unmarshal body))
      (proxy w (bytes "POST") (message_path a (bytes "/text"))
        (some (text_request chat text reply_to)) a)
      v' (λ body. record_sent-Leaves w chat text (w.unmarshal body) _ v')

send-Leaves :
    (w : World) (body : Option Fields) (a : Adapter) → IsAdapter a → Leaves (send w body a)
unfolding send
send-Leaves w none a v = v
send-Leaves w (some b) a v =
    elim (Bool-cases (is_empty (text_at (bytes "chat") b) || is_empty (text_at (bytes "text") b))) [
      | inl e ↦ rw (e, send) v
      | inr e ↦
          rw (e, send)
            (send_text-Leaves w (text_at (bytes "chat") b) (text_at (bytes "text") b)
              (text_at (bytes "replyTo") b) a v)
    ]

send_media-Leaves :
    (w : World) (form : Answer Form) (a : Adapter) → IsAdapter a → Leaves (send_media w form a)
unfolding send_media proxy
send_media-Leaves w (err e) a v = v
send_media-Leaves w (ok form) a v = ground arith

read-Leaves :
    (w : World) (body : Option (Dict Text)) (a : Adapter) → IsAdapter a → Leaves (read w body a)
unfolding read proxy
read-Leaves w none a v = v
read-Leaves w (some b) a v =
    ground (arith, mark_read-IsHistory (value_of (bytes "chat") b) a.store v.history)

react-Leaves :
    (w : World) (body : Option (Dict Text)) (a : Adapter) → IsAdapter a → Leaves (react w body a)
unfolding react proxy
react-Leaves w none a v = v
react-Leaves w (some b) a v = ground (
  arith,
  add_reaction-IsHistory (value_of (bytes "chat") b) (value_of (bytes "messageId") b)
      (value_of (bytes "emoji") b) a.store v.history,
)

-- A reply without a change of the history or of the hub.
session-Leaves :
    (w : World) (method path : Text) (query : Dict Text) (a : Adapter)
    → IsAdapter a
    → Leaves (Session.status w method a)
      × Leaves (passkey_request w a)
      × Leaves (get_messages method a)
      × Leaves (get_media w path a)
      × Leaves (serve_file path a)
unfolding Session.status passkey_request proxy get_messages get_media serve_file
session-Leaves w method path query a v =
    (ground arith, ground arith, ground arith, ground arith, ground arith)

show_qr-IsAdapter : (qr : Text) (a : Adapter) → IsAdapter a → IsAdapter (show_qr qr a)
show_qr-IsAdapter qr a v = announced-IsAdapter _ _ a (set_qr-IsHistory _ a.store v.history) v

paired-Leaves : (w : World) (x : Answer HttpReply × Adapter) → IsAdapter x.1 → Leaves (paired w x)
paired-Leaves w (err e, a) v = v
paired-Leaves w (ok r, a) v =
    if-IsAdapter (r.status == 200) _ _
      (if-IsAdapter (is_empty (qr_in (w.unmarshal r.body))) _ _ v
        (show_qr-IsAdapter (qr_in (w.unmarshal r.body)) a v))
      v

pair-Leaves : (w : World) (method : Text) (a : Adapter) → IsAdapter a → Leaves (pair w method a)
unfolding pair
pair-Leaves w method a v =
    paired-Leaves w (proxy w method (instance_path a (bytes "/connect")) none a)
      (asked-IsAdapter w method (instance_path a (bytes "/connect")) none a v)

code_of-Leaves : (resp : Option Fields) (a : Adapter) → IsAdapter a → Leaves (code_of resp a)
code_of-Leaves none a v = v
code_of-Leaves (some resp) a v =
    if-IsAdapter (is_empty (or_else (as_string (member (bytes "pairingCode") resp)) [])) _ _ v
      (announced-IsAdapter _ _ a (set_pair_code-IsHistory _ a.store v.history) v)

ask_code-Leaves :
    (w : World) (country phone : Text) (a : Adapter)
    → IsAdapter a
    → Leaves (ask_code w country phone a)
ask_code-Leaves w country phone a v =
    let v' =
      asked-IsAdapter w (bytes "POST") (instance_path a (bytes "/connect"))
        (some (code_request a country phone)) a v in
    relayed-Leaves (λ b. code_of (w.unmarshal b))
      (proxy w (bytes "POST") (instance_path a (bytes "/connect"))
        (some (code_request a country phone)) a)
      v' (λ b. code_of-Leaves (w.unmarshal b) _ v')

pair_code-Leaves :
    (w : World) (body : Option (Dict Text)) (a : Adapter)
    → IsAdapter a
    → Leaves (pair_code w body a)
unfolding pair_code
pair_code-Leaves w none a v = v
pair_code-Leaves w (some b) a v =
    elim (Bool-cases (
      is_empty (digits (value_of (bytes "country") b))
      || is_empty (digits (value_of (bytes "phone") b)))) [
        | inl e ↦ rw (e, pair_code) v
        | inr e ↦
            rw (e, pair_code)
              (ask_code-Leaves w (digits (value_of (bytes "country") b))
                (digits (value_of (bytes "phone") b)) a v)
      ]

logout-Leaves : (w : World) (a : Adapter) → IsAdapter a → Leaves (logout w a)
unfolding logout
logout-Leaves w a v =
    let v' = asked-IsAdapter w (bytes "DELETE") (instance_path a (bytes "/logout")) none a v in
    announced-IsAdapter _ _ _ (set_phone-IsHistory [] _ v'.history) v'

join-Leaves : (w : World) (x : Answer ℕ) (a : Adapter) → IsAdapter a → Leaves (join w x a)
unfolding add
join-Leaves w (err e) a v = v
join-Leaves w (ok conn) a v = record {
  history = v.history;
  sockets = (record { open_channel = refl; bounded = omega arith }, v.sockets);
}

handle-Leaves :
    (w : World) (route : Route) (r : Request) (a : Adapter)
    → IsAdapter a
    → Leaves (handle w route r a)
unfolding handle get_chats passkey_done call_unsupported call_state config_backend provision_qr
handle-Leaves w status_route r a v = (session-Leaves w r.method [] r.query a v).0
handle-Leaves w pair_route r a v = pair-Leaves w r.method a v
handle-Leaves w pair_code_route r a v = pair_code-Leaves w r.texts a v
handle-Leaves w chats_route r a v = v
handle-Leaves w messages_route r a v =
    (session-Leaves w (value_of (bytes "chat") r.query) [] r.query a v).2
handle-Leaves w send_route r a v = send-Leaves w r.fields a v
handle-Leaves w send_media_route r a v = send_media-Leaves w r.form a v
handle-Leaves w read_route r a v = read-Leaves w r.texts a v
handle-Leaves w react_route r a v = react-Leaves w r.texts a v
handle-Leaves w logout_route r a v = logout-Leaves w a v
handle-Leaves w call_route r a v = v
handle-Leaves w call_state_route r a v = v
handle-Leaves w passkey_request_route r a v = (session-Leaves w [] [] r.query a v).1
handle-Leaves w passkey_done_route r a v = v
handle-Leaves w config_route r a v = v
handle-Leaves w provision_route r a v = v
handle-Leaves w webhook_route r a v = webhook-IsAdapter w _ r.fields a v
handle-Leaves w (media_route path) r a v = (session-Leaves w [] path r.query a v).3
handle-Leaves w (files_route path) r a v = (session-Leaves w [] path r.query a v).4
handle-Leaves w ws_route r a v = join-Leaves w w.upgrade a v
handle-Leaves w no_route r a v = v

-- Whatever a request asks, whatever the gateway, the disk and the clock answer, and whether the handler succeeds or
-- refuses, an adapter whose history has no thread of more than two thousand messages and no two messages of a thread
-- with one id, and whose hub has no registered socket that is closed, is left such an adapter.
pub serve-IsAdapter :
    (w : World) (r : Request) (a : Adapter) → IsAdapter a → IsAdapter (serve w r a).1
unfolding serve
serve-IsAdapter w r a v = handle-Leaves w (mux_route r.path) r a v
