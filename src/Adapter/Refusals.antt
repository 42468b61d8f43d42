-- ===== src/Adapter/Refusals.antt =====
-- adapter/routes.go: what a request that is refused leaves behind.
use what_is_it.Prelude.{ℕ, refl, ◌==◌, Text, Option, none, some, false, ◌≡◌, arith, Dict}
use what_is_it.Calls.{Answer, ok, err}
use what_is_it.Adapter.Json.{Fields}
use what_is_it.Adapter.Gateway.{World, Adapter, proxy}
use what_is_it.Adapter.Reply.{Request, Outcome, Form}
use what_is_it.Adapter.Webhook.{webhook}
use what_is_it.Adapter.Chats.{get_chats, get_messages, send, send_media, read, react}
use what_is_it.Adapter.Session
use what_is_it.Adapter.Session.{
  pair, pair_code, logout, passkey_request, passkey_done, call_unsupported, call_state,
  config_backend, provision_qr,
}
use what_is_it.Adapter.Content.{get_media, serve_file}
use what_is_it.Adapter.Routes.{
  Route, handle, serve, mux_route, status_route, pair_route, pair_code_route, chats_route,
  messages_route, send_route, send_media_route, read_route, react_route, logout_route, call_route,
  call_state_route, passkey_request_route, passkey_done_route, config_route, provision_route,
  webhook_route, media_route, files_route, ws_route, no_route, join,
}

-- A failure keeps the history and the hub.
abbrev Refuses : Adapter → Outcome → Type 0
Refuses a o =
    (o.0.status == 200) ≡ false
    → (o.0.status == 101) ≡ false
    → (o.1.store ≡ a.store) × (o.1.hub ≡ a.hub)

send-Refuses : (w : World) (body : Option Fields) (a : Adapter) → Refuses a (send w body a)
unfolding send proxy
send-Refuses w none a = ground arith
send-Refuses w (some b) a = ground arith

send_media-Refuses :
    (w : World) (form : Answer Form) (a : Adapter) → Refuses a (send_media w form a)
unfolding send_media proxy
send_media-Refuses w (err e) a = ground arith
send_media-Refuses w (ok form) a = ground arith

read-Refuses : (w : World) (body : Option (Dict Text)) (a : Adapter) → Refuses a (read w body a)
unfolding read
read-Refuses w none a = ground arith
read-Refuses w (some b) a = ground arith

react-Refuses : (w : World) (body : Option (Dict Text)) (a : Adapter) → Refuses a (react w body a)
unfolding react
react-Refuses w none a = ground arith
react-Refuses w (some b) a = ground arith

pair_code-Refuses :
    (w : World) (body : Option (Dict Text)) (a : Adapter) → Refuses a (pair_code w body a)
unfolding pair_code proxy
pair_code-Refuses w none a = ground arith
pair_code-Refuses w (some b) a = ground arith

join-Refuses : (w : World) (x : Answer ℕ) (a : Adapter) → Refuses a (join w x a)
join-Refuses w (err e) a h k = (refl, refl)
join-Refuses w (ok conn) a h k = absurd (ground arith)

handle-Refuses : (w : World) (t : Route) (r : Request) (a : Adapter) → Refuses a (handle w t r a)
unfolding handle Session.status pair get_chats get_messages logout call_unsupported call_state
    passkey_request passkey_done config_backend provision_qr webhook get_media serve_file proxy
handle-Refuses w status_route r a = ground arith
handle-Refuses w pair_route r a = ground arith
handle-Refuses w pair_code_route r a = pair_code-Refuses w r.texts a
handle-Refuses w chats_route r a = ground arith
handle-Refuses w messages_route r a = ground arith
handle-Refuses w send_route r a = send-Refuses w r.fields a
handle-Refuses w send_media_route r a = send_media-Refuses w r.form a
handle-Refuses w read_route r a = read-Refuses w r.texts a
handle-Refuses w react_route r a = react-Refuses w r.texts a
handle-Refuses w logout_route r a = ground arith
handle-Refuses w call_route r a = ground arith
handle-Refuses w call_state_route r a = ground arith
handle-Refuses w passkey_request_route r a = ground arith
handle-Refuses w passkey_done_route r a = ground arith
handle-Refuses w config_route r a = ground arith
handle-Refuses w provision_route r a = ground arith
handle-Refuses w webhook_route r a = ground arith
handle-Refuses w (media_route path) r a = ground arith
handle-Refuses w (files_route path) r a = ground arith
handle-Refuses w ws_route r a = join-Refuses w w.upgrade a
handle-Refuses w no_route r a = ground arith

-- A request to the adapter that answers neither 200 nor 101, the status of a WebSocket that is accepted,
-- leaves its history and its WebSocket clients as they were, the webhook of the gateway included.
pub serve_refused :
    (w : World) (r : Request) (a : Adapter)
    → ((serve w r a).0.status == 200) ≡ false
    → ((serve w r a).0.status == 101) ≡ false
    → ((serve w r a).1.store ≡ a.store) × ((serve w r a).1.hub ≡ a.hub)
unfolding serve
serve_refused w r a = handle-Refuses w (mux_route r.path) r a
