-- ===== src/Adapter/Routes.antt =====
-- adapter/routes.go: `ServeHTTP`, the switch over the paths, and the routes that `Run` registers.
use what_is_it.Prelude.{
  ℕ, Text, bytes, text_eq, [], ◌∷◌, Option, none, some, Dict, lookup, strip_prefix,
}
use what_is_it.Adapter.Gateway.{World, Adapter}
use what_is_it.Calls.{Answer, ok, err}
use what_is_it.Adapter.Hub.{add}
use what_is_it.Adapter.Reply.{empty, Request, Outcome, plain, done, value_of}
use what_is_it.Adapter.Webhook.{webhook}
use what_is_it.Adapter.Chats.{get_chats, get_messages, send, send_media, read, react}
use what_is_it.Adapter.Session
use what_is_it.Adapter.Session.{
  pair, pair_code, logout, passkey_request, passkey_done, call_unsupported, call_state,
  config_backend, provision_qr,
}
use what_is_it.Adapter.Content.{get_media, serve_file}

pub data Route : Type 0 where
  status_route pair_route pair_code_route chats_route messages_route send_route send_media_route :
      Route
  read_route react_route logout_route call_route call_state_route : Route
  passkey_request_route passkey_done_route config_route provision_route webhook_route : Route
  media_route : (path : Text) → Route
  files_route : (path : Text) → Route
  ws_route : Route
  no_route : Route

-- The routes that both tables have.
abbrev common_routes : Dict Route → Dict Route
common_routes rest =
    (bytes "/status", status_route)
    ∷ (bytes "/pair", pair_route)
    ∷ (bytes "/pair-code", pair_code_route)
    ∷ (bytes "/chats", chats_route)
    ∷ (bytes "/messages", messages_route)
    ∷ (bytes "/send", send_route)
    ∷ (bytes "/send-media", send_media_route)
    ∷ (bytes "/read", read_route)
    ∷ (bytes "/react", react_route)
    ∷ (bytes "/logout", logout_route)
    ∷ (bytes "/call", call_route)
    ∷ (bytes "/call/accept", call_route)
    ∷ (bytes "/call/reject", call_route)
    ∷ (bytes "/call/end", call_route)
    ∷ (bytes "/call/mute", call_route)
    ∷ (bytes "/call/camera", call_route)
    ∷ (bytes "/call/state", call_state_route)
    ∷ (bytes "/passkey/request", passkey_request_route)
    ∷ (bytes "/passkey/assertion", passkey_done_route)
    ∷ (bytes "/passkey/confirm", passkey_done_route)
    ∷ (bytes "/passkey/cancel", passkey_done_route)
    ∷ rest

abbrev switch_routes : Dict Route
switch_routes =
    common_routes
      ((bytes "/config/backend", config_route) ∷ (bytes "/provision/qr", provision_route) ∷ [])

abbrev mux_routes : Dict Route
mux_routes =
    common_routes ((bytes "/ws", ws_route) ∷ (bytes "/webhook/whatsmiau", webhook_route) ∷ [])

abbrev or_prefix : Text → (Text → Route) → Text → Route → Route
or_prefix prefix route path rest = elim (strip_prefix prefix path) [
  | none ↦ rest
  | some p ↦ route p
]

abbrev or_route : Option Route → Route → Route
or_route none rest = rest
or_route (some r) rest = r

-- The `switch` of `ServeHTTP`.
unfoldable pub switch_route : Text → Route
unfolding lookup strip_prefix
switch_route path =
    or_route (lookup path switch_routes) (or_prefix (bytes "/media/") media_route path no_route)

-- The routes of `Run`.
unfoldable pub mux_route : Text → Route
unfolding lookup strip_prefix
mux_route path = or_route (lookup path mux_routes) (
    or_prefix (bytes "/media/") media_route path
      (or_prefix (bytes "/files/") files_route path no_route))

-- `WSHub.ServeHTTP`
abbrev pub join : World → Answer ℕ → Adapter → Outcome
join w (err e) a = (record { status = w.upgrade_status; body = plain e }, a)
join w (ok conn) a = (record { status = 101; body = empty }, record a { hub = add conn a.hub })

abbrev webhook_outcome : ℕ × Adapter → Outcome
webhook_outcome (status, a) = (record { status = status; body = done }, a)

unfoldable pub handle : World → Route → Request → Adapter → Outcome
unfolding add
handle w status_route r = Session.status w r.method
handle w pair_route r = pair w r.method
handle w pair_code_route r = pair_code w r.texts
handle w chats_route r = get_chats w
handle w messages_route r = get_messages (value_of (bytes "chat") r.query)
handle w send_route r = send w r.fields
handle w send_media_route r = send_media w r.form
handle w read_route r = read w r.texts
handle w react_route r = react w r.texts
handle w logout_route r = logout w
handle w call_route r = call_unsupported
handle w call_state_route r = call_state
handle w passkey_request_route r = passkey_request w
handle w passkey_done_route r = passkey_done
handle w config_route r = config_backend
handle w provision_route r = provision_qr r.query
handle w webhook_route r =
    λ a. webhook_outcome (webhook w (text_eq r.method (bytes "POST")) r.fields a)
handle w (media_route path) r = get_media w path
handle w (files_route path) r = serve_file path
handle w ws_route r = join w w.upgrade
handle w no_route r = λ a. (record { status = 404; body = plain (bytes "404 page not found") }, a)

-- `ServeHTTP`
unfoldable pub serve_http : World → Request → Adapter → Outcome
unfolding switch_route handle
serve_http w r a = handle w (switch_route r.path) r a

-- The server of `Run`.
unfoldable pub serve : World → Request → Adapter → Outcome
unfolding mux_route handle
serve w r a = handle w (mux_route r.path) r a
