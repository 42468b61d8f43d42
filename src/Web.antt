-- ===== src/Web.antt =====
-- server-go/web.go and server-go/auth.go: requests, answers and what the handlers call. A body that
-- cannot be decoded is `none`; the client of WhatsApp, the call engine and the directory of names
-- are third-party packages, and their answers are the fields of a `World`.
pub mod Chats
pub mod Calling
pub mod Pairing
pub mod Server
pub mod CallUpkeep
pub mod Upkeep
pub mod Refusals
pub mod Admission
use what_is_it.Prelude.{
  ℕ, ℤ, Text, bytes, is_empty, text_eq, List, [], ◌∷◌, ◌++◌, Option, none, some, Bool, true, false,
  if◌then◌else◌, Arrangement,
}
use what_is_it.Wire.{Message, ChatSummary, CallRecord, StatusEntry}
use what_is_it.State.{AppState}
use what_is_it.Calls.{Answer, ok, err, Call, CallSummary, Phone}
use what_is_it.Whatsapp.{Jid, Directory}

-- What the source sends: `waE2E.Message` as `SendText`, `React` and `postStatus` build it.
pub data Outgoing : Type 0 where
  conversation : (text : Text) → Outgoing
  extended_text : (text reply_to : Text) → Outgoing
  reaction_to : (message_id emoji : Text) → Outgoing

-- What whatsmeow answers. `device_linked` is `cli.Store.ID != nil`, and `ready` what the stage of
-- `PairCode` that opens the socket answers.
pub record Client : Type 0 where
  pub device_linked : Bool
  pub is_connected : Bool
  pub ready : Answer (Unit {0})
  pub pair_phone : Text → Answer Text
  pub send_message : Jid → Outgoing → Answer Text
  pub send_peer_message : Jid → Message → ℤ → Answer (Unit {0})
  pub mark_read : List Text → Jid → Answer (Unit {0})
  pub passkey_confirm : Answer (Unit {0})

-- The world of one request: the clock, the order of the maps, the client (`none` is nil) and the
-- call engine with what its calls answer.
pub record World : Type 1 where
  pub order : Arrangement
  pub now : ℤ
  pub directory : Directory
  pub atoi : Text → Option ℤ
  pub b64url_decode : Text → Answer Text
  pub client : Option Client
  pub engine : Option (Text → Bool → Answer Call)
  pub answer : Text → Answer (Unit {0})
  pub reject : Text → Answer (Unit {0})
  pub hangup : Text → Answer (Unit {0})

-- The body of an answer.
pub data Body : Type 0 where
  done : Body
  failed : (error : Text) → Body
  with_id : (id : Text) → Body
  with_code : (code : Text) → Body
  with_call_id : (call_id : Text) → Body
  with_status : (linked : Bool) → (phone qr : Text) → Body
  with_chats : List ChatSummary → Body
  with_statuses : List StatusEntry → Body
  with_messages : List Message → Body
  with_calls : List CallRecord → Body
  with_active_calls : List CallSummary → ℕ → Body
  with_options : (options : Text) → Body

-- A handler either answers or panics, as the code does where it calls a client that is nil.
pub data Response : Type 0 where
  reply : (status : ℕ) → Body → Response
  panicked : Response

-- The answer of a handler and the state after it.
abbrev pub Outcome : Type 0
Outcome = Response × Phone

abbrev pub succeed : Body → Phone → Outcome
succeed b p = (reply 200 b, p)

abbrev pub fail : ℕ → Text → Phone → Outcome
fail status e p = (reply status (failed e), p)

abbrev pub bad_jid : Text → Phone → Outcome
bad_jid e p = fail 400 (bytes "bad jid: " ++ e) p

abbrev pub not_linked : Phone → Outcome
not_linked p = fail 403 (bytes "not linked") p

abbrev pub bad_request : Phone → Outcome
bad_request p = fail 400 (bytes "bad request") p

-- The credentials of a request: its header `Authorization` and its parameter `token`, empty if absent.
pub record Credentials : Type 0 where
  pub authorization : Text
  pub token : Text

-- `authorized`
unfoldable pub authorized : Credentials → Text → Bool
authorized c token =
    if is_empty token
    then true
    else if text_eq c.authorization (bytes "Bearer " ++ token)
    then true
    else text_eq c.token token
