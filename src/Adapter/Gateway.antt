-- ===== src/Adapter/Gateway.antt =====
-- adapter/proxy.go and adapter/routes.go: the adapter's state, and its requests to the gateway. The
-- HTTP client and the decoder are outside: what they answer is a `World`. Every request that is made
-- is kept in the state, also where the code ignores the answer.
use what_is_it.Prelude.{
  ℕ, ℤ, ◌==◌, ◌||◌, Text, bytes, is_empty, List, [], ◌∷◌, ◌++◌, Option, none, some, Bool, true,
  false, if◌then◌else◌, Dict, Arrangement,
}
use what_is_it.Calls.{Answer, ok, err}
use what_is_it.Adapter.Json.{
  Json, Items, Fields, Numbers, boolean, string, array, object, nil, item, end, field,
}
use what_is_it.Adapter.Store.{HistoryStore}
use what_is_it.Adapter.Hub.{Hub, BackendEvent, broadcast}

pub record HttpRequest : Type 0 where
  pub method : Text
  pub url : Text
  pub headers : Dict Text
  pub body : Option Fields

pub record HttpReply : Type 0 where
  pub status : ℕ
  pub body : Text

-- `send` is `http.Client.Do` with the reading of its body; `unmarshal` is `json.Unmarshal` into a map;
-- `print_value` is `fmt.Sprintf("%v", v)` for what is not a text; `disk_takes` whether a file is written.
-- `upgrade` is what the WebSocket upgrader answers, the number of the new connection or an error, which it
-- has then answered with `upgrade_status`.
pub record World : Type 1 where
  pub order : Arrangement
  pub now : ℤ
  pub send : HttpRequest → Answer HttpReply
  pub unmarshal : Text → Option Fields
  pub print_value : Option Json → Text
  pub print_status : ℕ → Text
  pub numbers : Numbers
  pub upgrade : Answer ℕ
  pub upgrade_status : ℕ
  pub disk_takes : Bool

-- `Adapter`; `files` is the directory of its media, and `requests` the requests made, the last first.
pub record Adapter : Type 0 where
  pub store : HistoryStore
  pub hub : Hub
  pub whats_miau : Text
  pub instance_id : Text
  pub api_key : Text
  pub listen_addr : Text
  pub media_public_url : Text
  pub files : Dict Text
  pub requests : List HttpRequest

-- A panic, `none`, would leave the hub as it was; a well-formed hub has none.
unfoldable pub broadcasting : BackendEvent → Adapter → Adapter
broadcasting ev a = elim (broadcast ev a.hub) [ none ↦ a | some h ↦ record a { hub = h } ]

unfoldable pub instance_name : Adapter → Text
instance_name a = if is_empty a.instance_id then bytes "default" else a.instance_id

unfoldable pub instance_path : Adapter → Text → Text
unfolding instance_name
instance_path a suffix = bytes "/v1/instance/" ++ (instance_name a ++ suffix)

unfoldable pub message_path : Adapter → Text → Text
unfolding instance_name
message_path a action = bytes "/v1/instance/" ++ (instance_name a ++ (bytes "/message/" ++ action))

unfoldable pub chat_path : Adapter → Text → Text
unfolding instance_name
chat_path a action = bytes "/v1/instance/" ++ (instance_name a ++ (bytes "/chat/" ++ action))

-- `proxyRequest`: the request that it builds.
unfoldable pub proxy_request : Adapter → (method path : Text) → Option Fields → HttpRequest
proxy_request a method path body = record {
  method = method;
  url = a.whats_miau ++ path;
  headers =
      (bytes "Content-Type", bytes "application/json")
      ∷ (if is_empty a.api_key then [] else (bytes "apikey", a.api_key) ∷ []);
  body = body;
}

-- `proxyToWhatsMiau`
unfoldable pub proxy :
    World → (method path : Text) → Option Fields → Adapter → Answer HttpReply × Adapter
unfolding proxy_request
proxy w method path body a =
    let r = proxy_request a method path body in (w.send r, record a { requests = r ∷ a.requests })

abbrev webhook_events : Items
webhook_events = item (string (bytes "messages.upsert")) (
    item (string (bytes "messages.update")) (
      item (string (bytes "messages.delete"))
        (item (string (bytes "contacts.upsert")) (item (string (bytes "connection.update")) nil))))

abbrev webhook_body : Adapter → Fields
webhook_body a = field (bytes "instanceId") (string (instance_name a)) (
    field (bytes "webhook")
      (object (
        field (bytes "enabled") (boolean true) (
          field (bytes "url")
            (string (bytes "http://" ++ (a.listen_addr ++ bytes "/webhook/whatsmiau")))
            (field (bytes "base64") (boolean false) (
              field (bytes "byEvents") (boolean false)
                (field (bytes "events") (array webhook_events) end))))))
      end)

-- The registration of the webhook, whose answer is only logged.
abbrev set_webhook : World → Adapter → Answer (Unit {0}) × Adapter
set_webhook w a = (
  ok tt,
  (proxy w (bytes "POST") (bytes "/v1/webhook/set/" ++ instance_name a) (some (webhook_body a))
      a).1,
)

abbrev created : World → Answer HttpReply × Adapter → Answer (Unit {0}) × Adapter
created w (err e, a) = (err e, a)
created w (ok r, a) = if r.status == 201 || r.status == 200 then set_webhook w a else (
  err (bytes "create instance failed: " ++ (w.print_status r.status ++ (bytes " " ++ r.body))),
  a,
)

abbrev create_instance : World → Adapter → Answer (Unit {0}) × Adapter
create_instance w a = created w (
    proxy w (bytes "POST") (bytes "/v1/instance/create")
      (some (
        field (bytes "id") (string (instance_name a))
          (field (bytes "instanceName") (string (instance_name a)) end)))
      a)

abbrev checked : World → Answer HttpReply × Adapter → Answer (Unit {0}) × Adapter
checked w (err e, a) = (err e, a)
checked w (ok r, a) =
    if r.status == 200
    then (ok tt, a)
    else if r.status == 404
    then create_instance w a
    else (err (bytes "unexpected status checking instance: " ++ w.print_status r.status), a)

unfoldable pub ensure_instance : World → Adapter → Answer (Unit {0}) × Adapter
unfolding instance_path proxy instance_name
ensure_instance w a = checked w (proxy w (bytes "GET") (instance_path a (bytes "/status")) none a)
