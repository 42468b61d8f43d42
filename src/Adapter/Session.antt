-- ===== src/Adapter/Session.antt =====
-- adapter/routes.go: linking the phone through the gateway, the passkey routes and the configuration.
use what_is_it.Prelude.{
  ◌==◌, Text, bytes, is_empty, text_eq, ◌||◌, [], ◌++◌, Option, none, some, or_else, false,
  if◌then◌else◌, Dict, strip_prefix,
}
use what_is_it.Calls.{Answer, ok, err}
use what_is_it.Web.Pairing.{digits}
use what_is_it.Adapter.Json.{
  Json, Fields, string, end, field, member, as_string, as_object, get_string,
}
use what_is_it.Adapter.Store.{set_phone, set_qr, set_pair_code}
use what_is_it.Adapter.Hub.{backend_event}
use what_is_it.Adapter.Gateway.{
  World, Adapter, HttpReply, broadcasting, instance_name, instance_path, proxy,
}
use what_is_it.Adapter.Reply.{
  Outcome, succeed, fail, value_of, relayed, done, with_code, linkage, with_options, with_config,
  with_provision, no_calls,
}

-- `fmt.Sprintf("%v", v)`
abbrev print : World → Option Json → Text
print w (some (string s)) = s
print w v = w.print_value v

-- The state of the connection that an answer of the gateway tells.
unfoldable pub connection_state : World → Fields → Text
unfolding member
connection_state w resp = elim (as_object (member (bytes "instance") resp)) [
  | none ↦ print w (member (bytes "state") resp)
  | some inst ↦ print w (member (bytes "state") inst)
]

abbrev unlinked : Adapter → Outcome
unlinked a = succeed (linkage false [] a.store.qr) a

abbrev linked_phone : Fields → Adapter → Text
linked_phone resp a =
    if is_empty a.store.phone then get_string resp (bytes "ownerJid") else a.store.phone

abbrev status_of : World → Option Fields → Adapter → Outcome
status_of w none a = unlinked a
status_of w (some resp) a =
    let linked = text_eq (connection_state w resp) (bytes "open") in
    succeed (linkage linked (if linked then linked_phone resp a else []) a.store.qr) a

abbrev status_reply : World → Answer HttpReply × Adapter → Outcome
status_reply w (err e, a) = fail 500 e a
status_reply w (ok r, a) =
    if r.status == 404 then unlinked a else status_of w (w.unmarshal r.body) a

unfoldable pub status : World → (method : Text) → Adapter → Outcome
unfolding connection_state proxy instance_path get_string member
status w method a = status_reply w (proxy w method (instance_path a (bytes "/status")) none a)

abbrev pub show_qr : Text → Adapter → Adapter
show_qr qr a =
    let code = or_else (strip_prefix (bytes "data:image/png;base64,") qr) qr in
    broadcasting (record (backend_event (bytes "qr")) { qr = code })
      (record a { store = set_qr code a.store })

abbrev pub qr_in : Option Fields → Text
qr_in none = []
qr_in (some resp) = or_else (as_string (member (bytes "base64") resp)) []

abbrev pub paired : World → Answer HttpReply × Adapter → Outcome
paired w (err e, a) = fail 500 e a
paired w (ok r, a) =
    let qr = qr_in (w.unmarshal r.body) in
    succeed done (if r.status == 200 then (if is_empty qr then a else show_qr qr a) else a)

unfoldable pub pair : World → (method : Text) → Adapter → Outcome
unfolding proxy instance_path member set_qr
pair w method a = paired w (proxy w method (instance_path a (bytes "/connect")) none a)

abbrev pub show_code : Text → Adapter → Adapter
show_code code a =
    broadcasting (record (backend_event (bytes "pair_code")) { code = code })
      (record a { store = set_pair_code code a.store })

abbrev pub code_of : Option Fields → Adapter → Outcome
code_of none a = fail 400 (bytes "pair-code failed") a
code_of (some resp) a =
    let code = or_else (as_string (member (bytes "pairingCode") resp)) [] in
    succeed (with_code code) (if is_empty code then a else show_code code a)

abbrev pub code_request : Adapter → (country phone : Text) → Fields
code_request a country phone =
    field (bytes "id") (string (instance_name a))
      (field (bytes "number") (string (country ++ phone)) end)

abbrev pub ask_code : World → (country phone : Text) → Adapter → Outcome
ask_code w country phone a =
    relayed (λ b. code_of (w.unmarshal b))
      (proxy w (bytes "POST") (instance_path a (bytes "/connect"))
        (some (code_request a country phone)) a)

unfoldable pub pair_code : World → Option (Dict Text) → Adapter → Outcome
unfolding digits proxy instance_path instance_name member set_pair_code
pair_code w none a = fail 400 (bytes "bad request") a
pair_code w (some body) a =
    let country = digits (value_of (bytes "country") body) in
    let phone = digits (value_of (bytes "phone") body) in
    if is_empty country || is_empty phone
    then fail 400 (bytes "country and phone required") a
    else ask_code w country phone a

-- The answer of the gateway is dropped.
unfoldable pub logout : World → Adapter → Outcome
unfolding proxy instance_path set_phone
logout w a =
    let a' = (proxy w (bytes "DELETE") (instance_path a (bytes "/logout")) none a).1 in
    succeed done (
      broadcasting (backend_event (bytes "logged_out"))
        (record a' { store = set_phone [] a'.store }))

abbrev no_passkey : Adapter → Outcome
no_passkey a = fail 404 (bytes "no pending passkey request") a

abbrev passkey_of : World → Option Fields → Adapter → Outcome
passkey_of w none a = no_passkey a
passkey_of w (some resp) a =
    if text_eq (connection_state w resp) (bytes "pairing_passkey")
    then succeed (with_options a.store.qr) a
    else no_passkey a

unfoldable pub passkey_request : World → Adapter → Outcome
unfolding proxy instance_path connection_state
passkey_request w a =
    relayed (λ b. passkey_of w (w.unmarshal b))
      (proxy w (bytes "GET") (instance_path a (bytes "/connectionState")) none a)

-- `/passkey/assertion`, `/passkey/confirm` and `/passkey/cancel` answer and do nothing.
unfoldable pub passkey_done : Adapter → Outcome
passkey_done a = succeed done a

-- The routes of calls that the adapter has none for.
unfoldable pub call_unsupported : Adapter → Outcome
call_unsupported a = fail 501 (bytes "calls not supported via adapter") a

unfoldable pub call_state : Adapter → Outcome
call_state a = succeed no_calls a

unfoldable pub config_backend : Adapter → Outcome
unfolding instance_name
config_backend a =
    succeed (with_config (bytes "http://" ++ a.listen_addr) (instance_name a) a.whats_miau) a

unfoldable pub provision_qr : Dict Text → Adapter → Outcome
unfolding instance_name
provision_qr query a =
    let asked = value_of (bytes "host") query in
    let asked_port = value_of (bytes "port") query in
    let host = if is_empty asked then instance_name a else asked in
    let port = if is_empty asked_port then bytes "18770" else asked_port in
    succeed
      (with_provision (bytes "whatisit://provision?host=" ++ (host ++ (bytes "&port=" ++ port)))
        host port (bytes "http://" ++ a.listen_addr))
      a
