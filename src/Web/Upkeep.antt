-- ===== src/Web/Upkeep.antt =====
-- server-go/web.go: every request keeps the shared state and the registry of calls well formed.
use what_is_it.Prelude.{
  ℤ, ◌≡◌, refl, Text, List, [], Option, none, some, arith, inl, inr, Option-cases, or_else, ◌++◌,
}
use what_is_it.Wire.{Message}
use what_is_it.Store.{upsert_message}
use what_is_it.Store.Operation.{perform, upsert, read, reaction}
use what_is_it.Bus.{Event, ev_logged_out, ev_message, ev_pair_code}
use what_is_it.State.{
  AppState, Slot, publishing, is_linked, set_pair_code, set_phone_number, take_passkey_pending,
  take_passkey_answer,
}
use what_is_it.State.Invariant.{IsApp, perform-Keeps, publishing-IsApp, stored-IsApp}
use what_is_it.Whatsapp.Upkeep.{set_phone-IsApp, publication-IsApp}
use what_is_it.Calls.{Answer-cases, Phone}
use what_is_it.Web.{World}
use what_is_it.Web.Chats
use what_is_it.Web.Chats.{
  SendBody, ReactBody, when_linked, get_chats, status_list, call_history, get_messages,
  history_backfill, send, send_text, react, sent_message,
}
use what_is_it.Web.CallUpkeep.{
  Leaves, call_start-Leaves, call_accept-Leaves, call_reject-Leaves, call_end-Leaves, relay-Leaves,
}
use what_is_it.Web.Calling.{call_mute, call_camera, call_state}
use what_is_it.Web.Pairing.{
  status, digits, pair_code, pair_code_of, logout, passkey_request, passkey_assertion,
  passkey_confirm, passkey_cancel, post_status,
}
use what_is_it.Web.Server.{
  PhoneRequest, handle_phone, status_request, pair_code_request, chats_request, status_list_request,
  calls_request, status_update_request, messages_request, backfill_request, send_request,
  read_request, react_request, logout_request, call_start_request, call_accept_request,
  call_reject_request, call_end_request, call_mute_request, call_camera_request, call_state_request,
  options_request, assertion_request, confirm_request, cancel_request,
}

-- What `IsApp` reads are the store and the bus.
same-IsApp : (a b : AppState) → b.store ≡ a.store → b.bus ≡ a.bus → IsApp a → IsApp b
same-IsApp a b s u v = record { store = rw s v.store; bus = rw u v.bus }

upsert-IsApp :
    (ev : Event) (msg : Message) (a : AppState)
    → IsApp a
    → IsApp (publishing ev (record a { store = upsert_message msg a.store }))
unfolding perform
upsert-IsApp ev msg a v = publishing-IsApp ev a _ (perform-Keeps (upsert msg) a.store) v

send-Leaves :
    (w : World) (body : Option SendBody) (p : Phone) → IsApp p.app → Leaves (send w body p)
unfolding send when_linked is_linked
send-Leaves w none p v = ground arith
send-Leaves w (some b) p v = elim (Option-cases w.client) [
  | inl h ↦ ground arith
  | inr (c, h) ↦ elim (Answer-cases (w.directory.parse_jid b.chat)) [
    | inl (jid, h') ↦ elim (Answer-cases (send_text c jid b.text (or_else b.reply_to []))) [
      | inl (id, h'') ↦
          ground (arith, upsert-IsApp (ev_message b.chat) (sent_message w.now id b) p.app v)
      | inr (e, h'') ↦ ground arith
    ]
    | inr (e, h') ↦ ground arith
  ]
]

read-Leaves :
    (w : World) (body : Option Text) (p : Phone) → IsApp p.app → Leaves (Chats.read w body p)
unfolding Chats.read when_linked is_linked perform
read-Leaves w none p v = ground arith
read-Leaves w (some chat) p v =
    ground (arith, stored-IsApp p.app _ (perform-Keeps (read chat) p.app.store) v)

react-Leaves :
    (w : World) (body : Option ReactBody) (p : Phone) → IsApp p.app → Leaves (react w body p)
unfolding react when_linked is_linked perform
react-Leaves w none p v = ground arith
react-Leaves w (some b) p v = ground (
  arith,
  stored-IsApp p.app _ (perform-Keeps (reaction b.chat b.message_id b.emoji) p.app.store) v,
)

code-IsApp :
    (code : Text) (a : AppState)
    → IsApp a
    → IsApp (publishing (ev_pair_code code) (set_pair_code code a))
unfolding set_pair_code
code-IsApp code a v =
    publication-IsApp (ev_pair_code code) (set_pair_code code a)
      (same-IsApp a (set_pair_code code a) refl refl v)

pair_code-Leaves :
    (w : World) (body : Option (Text × Text)) (p : Phone)
    → IsApp p.app
    → Leaves (pair_code w body p)
unfolding pair_code pair_code_of
pair_code-Leaves w none p v = ground arith
pair_code-Leaves w (some b) p v = elim (Option-cases w.client) [
  | inl h ↦ ground arith
  | inr (c, h) ↦ elim (Answer-cases (c.pair_phone (digits b.0 ++ digits b.1))) [
    | inl (code, h') ↦ ground (arith, code-IsApp code p.app v)
    | inr (e, h') ↦ ground arith
  ]
]

logout-Leaves : (w : World) (p : Phone) → IsApp p.app → Leaves (logout w p)
unfolding logout set_phone_number
logout-Leaves w p v = ground (arith, set_phone-IsApp [] ev_logged_out p.app v)

history_backfill-Leaves :
    (w : World) (body : Option (Text × Option ℤ)) (p : Phone)
    → IsApp p.app
    → Leaves (history_backfill w body p)
unfolding history_backfill when_linked is_linked
history_backfill-Leaves w none p v = ground arith
history_backfill-Leaves w (some b) p v = ground arith

reads-Leaves :
    (w : World) (chat limit : Text) (p : Phone)
    → IsApp p.app
    → Leaves (get_chats w p) × Leaves (status_list w p) × Leaves (get_messages w chat limit p)
unfolding get_chats status_list get_messages when_linked is_linked
reads-Leaves w chat limit p v = (ground arith, ground arith, ground arith)

post_status-Leaves :
    (w : World) (body : Option Text) (p : Phone) → IsApp p.app → Leaves (post_status w body p)
unfolding post_status
post_status-Leaves w none p v = ground arith
post_status-Leaves w (some b) p v = ground arith

passkey_request-Leaves : (p : Phone) → IsApp p.app → Leaves (passkey_request p)
unfolding passkey_request take_passkey_pending
passkey_request-Leaves p v =
    ground (arith, same-IsApp p.app (record p.app { passkey_pending = [] }) refl refl v)

-- The channel is taken, and a slot may be filled.
slots-IsApp :
    (slots : List Slot) (a : AppState)
    → IsApp a
    → IsApp (record a { passkey_answer = none; slots = slots })
slots-IsApp slots a v = same-IsApp a _ refl refl v

passkey_assertion-Leaves :
    (w : World) (body : Option (Text × Text)) (p : Phone)
    → IsApp p.app
    → Leaves (passkey_assertion w body p)
unfolding passkey_assertion take_passkey_answer
passkey_assertion-Leaves w none p v = ground arith
passkey_assertion-Leaves w (some b) p v =
    ground (arith, λ (slots : List Slot). slots-IsApp slots p.app v)

passkey_cancel-Leaves : (p : Phone) → IsApp p.app → Leaves (passkey_cancel p)
unfolding passkey_cancel take_passkey_answer take_passkey_pending
passkey_cancel-Leaves p v = ground (
  arith,
  λ (slots : List Slot). slots-IsApp slots p.app v,
  λ (slots : List Slot).
      slots-IsApp slots (record p.app { passkey_pending = [] })
        (same-IsApp p.app (record p.app { passkey_pending = [] }) refl refl v),
)

passkey_confirm-Leaves : (w : World) (p : Phone) → IsApp p.app → Leaves (passkey_confirm w p)
unfolding passkey_confirm
passkey_confirm-Leaves w p v = ground arith

pub handle_phone-Leaves :
    (w : World) (r : PhoneRequest) (p : Phone) → IsApp p.app → Leaves (handle_phone w r p)
unfolding handle_phone status call_history call_mute call_camera call_state
handle_phone-Leaves w status_request p v = v
handle_phone-Leaves w (pair_code_request body) p v = pair_code-Leaves w body p v
handle_phone-Leaves w chats_request p v = (reads-Leaves w [] [] p v).0
handle_phone-Leaves w status_list_request p v = (reads-Leaves w [] [] p v).1
handle_phone-Leaves w calls_request p v = v
handle_phone-Leaves w (status_update_request body) p v = post_status-Leaves w body p v
handle_phone-Leaves w (messages_request chat limit) p v = (reads-Leaves w chat limit p v).2
handle_phone-Leaves w (backfill_request body) p v = history_backfill-Leaves w body p v
handle_phone-Leaves w (send_request body) p v = send-Leaves w body p v
handle_phone-Leaves w (read_request body) p v = read-Leaves w body p v
handle_phone-Leaves w (react_request body) p v = react-Leaves w body p v
handle_phone-Leaves w logout_request p v = logout-Leaves w p v
handle_phone-Leaves w (call_start_request body) p v = call_start-Leaves w body p v
handle_phone-Leaves w (call_accept_request body) p v = call_accept-Leaves w body p v
handle_phone-Leaves w (call_reject_request body) p v = call_reject-Leaves w body p v
handle_phone-Leaves w (call_end_request body) p v = call_end-Leaves w body p v
handle_phone-Leaves w (call_mute_request none) p v = v
handle_phone-Leaves w (call_mute_request (some (id, b))) p v = (relay-Leaves id b p v).0
handle_phone-Leaves w (call_camera_request none) p v = v
handle_phone-Leaves w (call_camera_request (some (id, b))) p v = (relay-Leaves id b p v).1
handle_phone-Leaves w call_state_request p v = v
handle_phone-Leaves w options_request p v = passkey_request-Leaves p v
handle_phone-Leaves w (assertion_request body) p v = passkey_assertion-Leaves w body p v
handle_phone-Leaves w confirm_request p v = passkey_confirm-Leaves w p v
handle_phone-Leaves w cancel_request p v = passkey_cancel-Leaves p v
