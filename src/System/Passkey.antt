-- ===== src/System/Passkey.antt =====
-- server-go/state.go and server-go/web.go: the passkey ceremony. `InstallPasskeyAnswer` is the only
-- function that opens one, and no handler calls it.
use what_is_it.Prelude.{
  Text, [], ◌∷◌, Option, none, some, false, ◌≡◌, arith, Bool-cases, inl, inr, Arrangement,
}
use what_is_it.State.{
  AppState, set_pair_code, set_phone_number, set_qr, set_passkey_pending, take_passkey_pending,
  take_passkey_answer, is_linked,
}
use what_is_it.Calls.{
  Phone, start_outgoing, accept_incoming, reject_incoming, hangup, record_call, set_muted,
  set_camera, update_relay, on_incoming_call, on_end,
}
use what_is_it.Whatsapp.{Directory}
use what_is_it.Whatsapp.History.{on_history_sync}
use what_is_it.Whatsapp.Session.{
  WaEvent, handle_event, on_message, on_receipt, on_linked, on_logged_out, on_passkey_request,
  pair_success, connected, logged_out, passkey_request, passkey_confirmation, passkey_error,
  message, history_sync, receipt, other,
}
use what_is_it.Web.{World, Client, Credentials, authorized}
use what_is_it.Web.Chats
use what_is_it.Web.Chats.{
  when_linked, get_chats, status_list, call_history, get_messages, history_backfill, send, react,
}
use what_is_it.Web.Calling.{
  call_start, call_accept, call_reject, call_end, call_mute, call_camera, call_state,
}
use what_is_it.Web.Pairing
use what_is_it.Web.Pairing.{
  status, pair_code, pair_code_of, logout, passkey_assertion, passkey_confirm, passkey_cancel,
  post_status,
}
use what_is_it.Web.Server.{
  PhoneRequest, handle_phone, status_request, pair_code_request, chats_request, status_list_request,
  calls_request, status_update_request, messages_request, backfill_request, send_request,
  read_request, react_request, logout_request, call_start_request, call_accept_request,
  call_reject_request, call_end_request, call_mute_request, call_camera_request, call_state_request,
  options_request, assertion_request, confirm_request, cancel_request,
}
use what_is_it.Web.Refusals.{succeeded}
use what_is_it.Prelude.{ℕ}
use what_is_it.Calls.{Answer, ok, err}
use what_is_it.Link.{
  Link, Answers, Item, code, timeout, on_item, connect, connect_device, linked_as, dial,
}
use what_is_it.Router.{
  Server, Outside, Request, phone_request, pair_request, channels_request, avatar_request,
  follow_request, unfollow_request, send_media_request, media_request, ws_request, pair_of, ws,
  handle, guard, serve,
}
use what_is_it.System.{
  Step, Runs, serves, hears, rings, ends, connects, gives, closes, keeps_media, leaves, operates,
  announces, sets_phone, stays, goes_on,
}

-- No ceremony is open.
abbrev NoCeremony : AppState → Type 0
NoCeremony a = a.passkey_answer ≡ none

chat_handlers-NoCeremony :
    (w : World) (r : PhoneRequest) (p : Phone)
    → NoCeremony p.app
    → NoCeremony (handle_phone w r p).1.app
unfolding handle_phone when_linked is_linked get_chats status_list call_history get_messages
    history_backfill send react Chats.read status pair_code pair_code_of logout set_phone_number
    set_pair_code Pairing.passkey_request passkey_assertion passkey_confirm passkey_cancel
    post_status take_passkey_answer take_passkey_pending call_start call_accept call_reject call_end
    call_mute call_camera call_state start_outgoing accept_incoming reject_incoming hangup set_muted
    set_camera update_relay record_call
chat_handlers-NoCeremony w status_request p h = h
chat_handlers-NoCeremony w (pair_code_request body) p h = ground arith
chat_handlers-NoCeremony w chats_request p h = ground arith
chat_handlers-NoCeremony w status_list_request p h = ground arith
chat_handlers-NoCeremony w calls_request p h = h
chat_handlers-NoCeremony w (status_update_request body) p h = ground arith
chat_handlers-NoCeremony w (messages_request chat limit) p h = ground arith
chat_handlers-NoCeremony w (backfill_request body) p h = ground arith
chat_handlers-NoCeremony w (send_request body) p h = ground arith
chat_handlers-NoCeremony w (read_request body) p h = ground arith
chat_handlers-NoCeremony w (react_request body) p h = ground arith
chat_handlers-NoCeremony w logout_request p h = ground arith
chat_handlers-NoCeremony w (call_start_request body) p h = ground arith
chat_handlers-NoCeremony w (call_accept_request body) p h = ground arith
chat_handlers-NoCeremony w (call_reject_request body) p h = ground arith
chat_handlers-NoCeremony w (call_end_request body) p h = ground arith
chat_handlers-NoCeremony w (call_mute_request body) p h = ground arith
chat_handlers-NoCeremony w (call_camera_request body) p h = ground arith
chat_handlers-NoCeremony w call_state_request p h = h
chat_handlers-NoCeremony w options_request p h = ground arith
chat_handlers-NoCeremony w (assertion_request body) p h = ground arith
chat_handlers-NoCeremony w confirm_request p h = ground arith
chat_handlers-NoCeremony w cancel_request p h = ground arith

-- Neither the pairing nor the channels, the pictures, the media and the WebSocket know of ceremonies.
pair_of-NoCeremony :
    (c : Option Client) (x : Answers) (s : Server)
    → NoCeremony s.phone.app
    → NoCeremony (pair_of c x s).1.phone.app
pair_of-NoCeremony none x s h = h
pair_of-NoCeremony (some c) x s h = h

ws-NoCeremony :
    (up : Answer (Unit {0})) (status : ℕ) (snapshot : Answer (Unit {0})) (s : Server)
    → NoCeremony s.phone.app
    → NoCeremony (ws up status snapshot s).1.phone.app
ws-NoCeremony (err e) status snapshot s h = h
ws-NoCeremony (ok u) status (err e) s h = h
ws-NoCeremony (ok u) status (ok v) s h = h

handle-NoCeremony :
    (x : Outside) (r : Request) (s : Server)
    → NoCeremony s.phone.app
    → NoCeremony (handle x r s).1.phone.app
unfolding handle
handle-NoCeremony x (phone_request r) s h = chat_handlers-NoCeremony x.web r s.phone h
handle-NoCeremony x pair_request s h = pair_of-NoCeremony x.web.client x.answers s h
handle-NoCeremony x channels_request s h = h
handle-NoCeremony x (avatar_request chat) s h = h
handle-NoCeremony x (follow_request body) s h = h
handle-NoCeremony x (unfollow_request body) s h = h
handle-NoCeremony x (send_media_request form) s h = h
handle-NoCeremony x (media_request path) s h = h
handle-NoCeremony x ws_request s h = ws-NoCeremony x.upgrade x.upgrade_status x.snapshot s h

serve-NoCeremony :
    (x : Outside) (c : Credentials) (r : Request) (s : Server)
    → NoCeremony s.phone.app
    → NoCeremony (serve x c r s).1.phone.app
unfolding serve guard
serve-NoCeremony x c r s h = elim (Bool-cases (authorized c s.phone.app.token)) [
  | inl e ↦ rw e (handle-NoCeremony x r s h)
  | inr e ↦ rw e h
]

linked_as-NoCeremony :
    (user : Text) (o : Answer (Unit {0}) × Link) (a : AppState)
    → NoCeremony a
    → NoCeremony (linked_as user o a).1
unfolding set_phone_number
linked_as-NoCeremony user (err e, l) a h = h
linked_as-NoCeremony user (ok u, l) a h = h

connect-NoCeremony :
    (device : Option Text) (x : Answers) (l : Link) (a : AppState)
    → NoCeremony a
    → NoCeremony (connect_device device x l a).1
connect-NoCeremony none x l a h = h
connect-NoCeremony (some user) x l a h = linked_as-NoCeremony user (dial x l) a h

on_item-NoCeremony : (item : Item) (a : AppState) → NoCeremony a → NoCeremony (on_item item a)
unfolding on_item set_qr
on_item-NoCeremony (code c) a h = h
on_item-NoCeremony timeout a h = h
on_item-NoCeremony Item.other a h = h

handle_event-NoCeremony :
    (order : Arrangement) (w : Directory) (e : WaEvent) (a : AppState)
    → NoCeremony a
    → NoCeremony (handle_event order w e a)
unfolding handle_event on_message on_receipt on_linked on_logged_out on_passkey_request
    on_history_sync set_phone_number set_qr set_passkey_pending
handle_event-NoCeremony order w (pair_success p) a h = h
handle_event-NoCeremony order w (connected none) a h = h
handle_event-NoCeremony order w (connected (some p)) a h = h
handle_event-NoCeremony order w logged_out a h = h
handle_event-NoCeremony order w (passkey_request none) a h = h
handle_event-NoCeremony order w (passkey_request (some opts)) a h = h
handle_event-NoCeremony order w (passkey_confirmation pass) a h = h
handle_event-NoCeremony order w (passkey_error error) a h = h
handle_event-NoCeremony order w (message e) a h = h
handle_event-NoCeremony order w (history_sync none) a h = h
handle_event-NoCeremony order w (history_sync (some convs)) a h = h
handle_event-NoCeremony order w (receipt chat [] read) a h = h
handle_event-NoCeremony order w (receipt chat (id ∷ ids) read) a h = h
handle_event-NoCeremony order w other a h = h

Step-NoCeremony : (s t : Server) → NoCeremony s.phone.app → Step s t → NoCeremony t.phone.app
unfolding on_incoming_call on_end record_call connect
Step-NoCeremony s t h (serves x c r e) = rw e (serve-NoCeremony x c r s h)
Step-NoCeremony s t h (hears order w ev e) = rw e (handle_event-NoCeremony order w ev s.phone.app h)
Step-NoCeremony s t h (rings c now e) = rw e h
Step-NoCeremony s t h (ends id reason e) = rw e h
Step-NoCeremony s t h (connects x e) =
    rw e (connect-NoCeremony s.link.device x s.link s.phone.app h)
Step-NoCeremony s t h (gives item e) = rw e (on_item-NoCeremony item s.phone.app h)
Step-NoCeremony s t h (closes x n e) = rw e h
Step-NoCeremony s t h (keeps_media w d ev e) = rw e h
Step-NoCeremony s t h (leaves id e) = rw e h
Step-NoCeremony s t h (operates op e) = rw e h
Step-NoCeremony s t h (announces ev e) = rw e h
Step-NoCeremony s t h (sets_phone phone e) = rw e h

Runs-NoCeremony : (s t : Server) → NoCeremony s.phone.app → Runs s t → NoCeremony t.phone.app
Runs-NoCeremony s t h (stays e) = rw e h
Runs-NoCeremony s t h (goes_on {t = m} r step) = Step-NoCeremony m t (Runs-NoCeremony s m h r) step

refused :
    (w : World) (body : Option (Text × Text)) (p : Phone)
    → NoCeremony p.app
    → succeeded (passkey_assertion w body p).0 ≡ false
unfolding passkey_assertion take_passkey_answer
refused w none p h = ground arith
refused w (some b) p h = ground arith

-- From a state without an open ceremony, such as the one the server starts in, no run of the server
-- reaches a state in which an assertion of a passkey succeeds.
pub passkey_assertion-never :
    (s t : Server) (w : World) (body : Option (Text × Text))
    → s.phone.app.passkey_answer ≡ none
    → Runs s t
    → succeeded (passkey_assertion w body t.phone).0 ≡ false
passkey_assertion-never s t w body h r = refused w body t.phone (Runs-NoCeremony s t h r)
