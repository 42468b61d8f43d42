-- ===== src/Web/Admission.antt =====
-- server-go/auth.go and server-go/web.go: which requests are served, and what a send records.
use what_is_it.Prelude.{
  ◌≡◌, Option-cases, refl, Text, bytes, is_empty, [], ◌∷◌, ◌++◌, some, or_else, true, false, arith,
  ◌⊎◌, inl, inr, text_eq_iff, Bool-cases, none, if◌then◌else◌,
}
use what_is_it.Store.{upsert_message}
use what_is_it.Bus.{event}
use what_is_it.State.{is_linked, publishing}
use what_is_it.Calls.{Answer-cases, ok, Phone}
use what_is_it.Whatsapp.{Jid}
use what_is_it.Web.{
  World, Client, conversation, extended_text, reply, Credentials, authorized, failed, with_id,
}
use what_is_it.Web.Chats.{SendBody, when_linked, send, send_text, sent_message}
use what_is_it.Router.{Server, Outside, Request, replied, handle, guard, serve}

abbrev pub HasToken : Credentials → Text → Type 0
HasToken c token = (token ≡ []) ⊎ ((c.authorization ≡ bytes "Bearer " ++ token) ⊎ (c.token ≡ token))

empty-text : (t : Text) → is_empty t ≡ true → t ≡ []
empty-text [] e = refl
empty-text (x ∷ xs) e = ground arith

authorized-HasToken :
    (c : Credentials) (token : Text) → authorized c token ≡ true → HasToken c token
unfolding authorized
authorized-HasToken c token e = ground (
  arith,
  empty-text token,
  text_eq_iff c.authorization (bytes "Bearer " ++ token),
  text_eq_iff c.token token,
)

token-authorized :
    (c : Credentials) (token : Text) → authorized c token ≡ false → ¬ HasToken c token
unfolding authorized
token-authorized c token e h =
    ground
      (arith, text_eq_iff c.authorization (bytes "Bearer " ++ token), text_eq_iff c.token token)

-- On every route the handler of a request runs when the server has no token, or the request has it in its header or
-- in its parameter; any other request is answered 401 and changes nothing at all.
pub serve-guarded :
    (x : Outside) (c : Credentials) (r : Request) (s : Server)
    → (HasToken c s.phone.app.token × (serve x c r s ≡ handle x r s))
      ⊎ ((¬ HasToken c s.phone.app.token)
          × (serve x c r s ≡ (replied (reply 401 (failed (bytes "unauthorized"))), s)))
unfolding serve guard
serve-guarded x c r s = elim (Bool-cases (authorized c s.phone.app.token)) [
  | inl e ↦ inl (authorized-HasToken c s.phone.app.token e, rw e refl)
  | inr e ↦ inr (token-authorized c s.phone.app.token e, rw e refl)
]

-- Text is sent through the client alone: `send` answers 200 with an id only if the chat parses as a
-- JID and the client took the text under that id, as a reply where one is asked for. Then an outgoing
-- message with that id, the chat, the text and the id replied to, the time of the request and the status
-- "sent" is merged into the store, the event of a message of that chat is published, and nothing else
-- changes.
pub send-recorded :
    (w : World) (b : SendBody) (p : Phone) (id : Text)
    → (send w (some b) p).0 ≡ reply 200 (with_id id)
    → (c : Client) × (jid : Jid) × (w.client ≡ some c)
      × (w.directory.parse_jid b.chat ≡ ok jid)
      × (c.send_message jid (
            if is_empty (or_else b.reply_to [])
            then conversation b.text
            else extended_text b.text (or_else b.reply_to []))
          ≡ ok id)
      × ((send w (some b) p).1 ≡ record p {
        app =
            publishing
              (record (event (bytes "message")) { chat = b.chat })
              (record p.app {
                store =
                    upsert_message
                      (record {
                        id = id;
                        chat = b.chat;
                        text = b.text;
                        dir = bytes "out";
                        time = w.now;
                        status = bytes "sent";
                        reply_to = or_else b.reply_to [];
                        reactions = [];
                        media = none;
                        from_me = true;
                      })
                      p.app.store;
              });
      })
unfolding send when_linked is_linked send_text sent_message
send-recorded w b p id e = elim (Option-cases w.client) [
  | inl h ↦ ground arith
  | inr (c, h) ↦ elim (Answer-cases (w.directory.parse_jid b.chat)) [
    | inl (jid, h') ↦ (c, jid, h, h', ground arith, ground arith)
    | inr (m, h') ↦ ground arith
  ]
]
