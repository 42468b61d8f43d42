-- ===== src/Adapter/Reply.antt =====
-- adapter/routes.go: requests, and the answers that the handlers write.
use what_is_it.Prelude.{ℕ, ◌==◌, Text, List, [], Option, or_else, Bool, if◌then◌else◌, Dict, lookup}
use what_is_it.Wire.{Message, ChatSummary}
use what_is_it.Calls.{Answer, ok, err}
use what_is_it.Adapter.Json.{Fields}
use what_is_it.Adapter.Gateway.{Adapter, HttpReply}

pub data Body : Type 0 where
  done : Body
  failed : (error : Text) → Body
  gateway_bytes : Text → Body
  plain : Text → Body
  empty : Body
  with_id : (id : Text) → Body
  with_code : (code : Text) → Body
  linkage : (linked : Bool) → (phone qr : Text) → Body
  with_chats : List ChatSummary → Body
  with_messages : List Message → Body
  no_calls : Body
  with_options : (options : Text) → Body
  with_config : (adapter_url instance_id whats_miau : Text) → Body
  with_provision : (url host port adapter_url : Text) → Body
  with_file : (mime content : Text) → Body

pub record Reply : Type 0 where
  pub status : ℕ
  pub body : Body

abbrev pub Outcome : Type 0
Outcome = Reply × Adapter

abbrev pub succeed : Body → Adapter → Outcome
succeed b a = (record { status = 200; body = b }, a)

abbrev pub fail : ℕ → Text → Adapter → Outcome
fail status e a = (record { status = status; body = failed e }, a)

-- A file of a multipart form: its name and type, and what reading it gives.
pub record Upload : Type 0 where
  pub file_name : Text
  pub mime : Text
  pub content : Answer Text

-- A multipart form.
pub record Form : Type 0 where
  pub chat : Text
  pub file : Option Upload

-- A request, with its body as it decodes into a map of texts, into a map, and as a form.
pub record Request : Type 0 where
  pub method : Text
  pub path : Text
  pub query : Dict Text
  pub texts : Option (Dict Text)
  pub fields : Option Fields
  pub form : Answer Form

-- `r.URL.Query().Get(key)`, `body[key]`
abbrev pub value_of : Text → Dict Text → Text
value_of key m = or_else (lookup key m) []

-- The answer of the gateway, where the code passes an error on and a status that is not 200 back.
abbrev pub relayed : (Text → Adapter → Outcome) → Answer HttpReply × Adapter → Outcome
relayed f (err e, a) = fail 500 e a
relayed f (ok r, a) =
    if r.status == 200
    then f r.body a
    else (record { status = r.status; body = gateway_bytes r.body }, a)
