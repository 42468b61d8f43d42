-- ===== src/Web/Pairing.antt =====
-- server-go/web.go, server-go/client.go and server-go/status.go: linking a phone, the passkey
-- ceremony, logging out and the status update.
use what_is_it.Prelude.{
  ℕ, leb, Text, bytes, is_empty, ◌&&◌, ◌||◌, List, [], ◌∷◌, ◌++◌, Option, none, some, Bool, true,
  false, if◌then◌else◌,
}
use what_is_it.Store.{set_phone}
use what_is_it.Bus.{ev_pair_code, ev_logged_out}
use what_is_it.State.{
  AppState, PasskeyAnswer, Slot, publishing, is_linked, set_pair_code, set_phone_number,
  take_passkey_pending, take_passkey_answer, send_answer, cancelled_answer,
}
use what_is_it.Calls.{Answer, ok, err, Phone}
use what_is_it.Web.{
  World, Client, Outcome, conversation, done, with_id, with_code, with_status, with_options,
  panicked, succeed, fail, bad_request,
}

unfoldable pub status : Phone → Outcome
unfolding is_linked
status p = succeed (with_status (is_linked p.app) p.app.phone p.app.qr) p

-- `digits`: the bytes from '0' to '9'. No other byte of a UTF-8 text is in that range.
unfoldable pub digits : Text → Text
digits [] = []
digits (c ∷ cs) = let rest = digits cs in if leb 48 c && leb c 57 then c ∷ rest else rest

-- `PairCode`, with the effects on the state that its success has.
unfoldable pub pair_code_of : Client → Text → AppState → Answer Text × AppState
unfolding set_pair_code
pair_code_of c phone a =
    if c.device_linked
    then (err (bytes "device already linked; log out first"), a)
    else elim c.ready [
      | err e ↦ (err e, a)
      | ok _ ↦ elim (c.pair_phone phone) [
        | err e ↦ (err e, a)
        | ok code ↦ (ok code, publishing (ev_pair_code code) (set_pair_code code a))
      ]
    ]

abbrev answer_code : Phone → Answer Text × AppState → Outcome
answer_code p (err e, a) = fail 400 e (record p { app = a })
answer_code p (ok code, a) = succeed (with_code code) (record p { app = a })

abbrev pair_client : Option Client → Text → Phone → Outcome
pair_client none phone p = (panicked, p)
pair_client (some c) phone p = answer_code p (pair_code_of c phone p.app)

unfoldable pub pair_code : World → Option (Text × Text) → Phone → Outcome
unfolding digits pair_code_of
pair_code w none p = bad_request p
pair_code w (some (country, phone)) p =
    if is_empty (digits country) || is_empty (digits phone)
    then fail 400 (bytes "country and phone required") p
    else pair_client w.client (digits country ++ digits phone) p

abbrev logout_client : Option Client → Phone → Outcome
logout_client none p = (panicked, p)
logout_client (some c) p =
    let a = set_phone_number [] p.app in
    succeed done
      (record p { app = publishing ev_logged_out (record a { store = set_phone [] a.store }) })

-- The error of `Logout` is dropped, and so is that of the pairing that is started again.
unfoldable pub logout : World → Phone → Outcome
unfolding set_phone_number set_phone
logout w p = logout_client w.client p

abbrev answer_options : Phone → Option Text × AppState → Outcome
answer_options p (none, a) = fail 404 (bytes "no pending passkey request") (record p { app = a })
answer_options p (some opts, a) = succeed (with_options opts) (record p { app = a })

unfoldable pub passkey_request : Phone → Outcome
unfolding take_passkey_pending
passkey_request p = answer_options p (take_passkey_pending p.app)

abbrev answer_sent : Phone → AppState → Bool × List Slot → Outcome
answer_sent p a (true, slots) = succeed done (record p { app = record a { slots = slots } })
answer_sent p a (false, slots) =
    fail 409 (bytes "passkey request no longer pending")
      (record p { app = record a { slots = slots } })

abbrev answer_to : PasskeyAnswer → Phone → Option ℕ × AppState → Outcome
answer_to answer p (none, a) = fail 409 (bytes "no pending passkey request") (record p { app = a })
answer_to answer p (some ch, a) = answer_sent p a (send_answer ch answer a.slots)

abbrev with_assertion : Text → Answer Text → Phone → Outcome
with_assertion cred (err e) p = fail 400 (bytes "bad assertionJson: " ++ e) p
with_assertion cred (ok json) p =
    answer_to
      (record {
        assertion = some (record { credential_id = cred; assertion_json = json });
        cancelled = false;
      })
      p (take_passkey_answer p.app)

abbrev assertion_id : World → Answer Text → Text → Phone → Outcome
assertion_id w (err e) json p = fail 400 (bytes "bad credentialId: " ++ e) p
assertion_id w (ok cred) json p = with_assertion cred (w.b64url_decode json) p

unfoldable pub passkey_assertion : World → Option (Text × Text) → Phone → Outcome
unfolding take_passkey_answer send_answer
passkey_assertion w none p = bad_request p
passkey_assertion w (some (cred, json)) p = assertion_id w (w.b64url_decode cred) json p

abbrev confirmed : Answer (Unit {0}) → Phone → Outcome
confirmed (ok _) p = succeed done p
confirmed (err e) p = fail 400 e p

unfoldable pub passkey_confirm : World → Phone → Outcome
passkey_confirm w p = elim w.client [
  | none ↦ (panicked, p)
  | some c ↦ confirmed c.passkey_confirm p
]

abbrev cancel_answer : Option ℕ × AppState → AppState
cancel_answer (none, a) = a
cancel_answer (some ch, a) = record a { slots = (send_answer ch cancelled_answer a.slots).1 }

unfoldable pub passkey_cancel : Phone → Outcome
unfolding take_passkey_pending take_passkey_answer send_answer
passkey_cancel p =
    succeed done
      (record p { app = cancel_answer (take_passkey_answer ((take_passkey_pending p.app).1)) })

abbrev posted : Answer Text → Phone → Outcome
posted (ok id) p = succeed (with_id id) p
posted (err e) p = fail 500 e p

abbrev post_text : World → Client → Option Text → Phone → Outcome
post_text w c none p = bad_request p
post_text w c (some text) p =
    if is_empty text
    then fail 400 (bytes "text required") p
    else posted
        (c.send_message (record { user = bytes "status"; server = bytes "broadcast" })
          (conversation text))
        p

unfoldable pub post_status : World → Option Text → Phone → Outcome
post_status w body p = elim w.client [
  | none ↦ (panicked, p)
  | some c ↦
      if c.is_connected then post_text w c body p else fail 503 (bytes "client not connected") p
]
