-- ===== src/Adapter/Hub.antt =====
-- adapter/store.go and adapter/ws.go: `WSHub`, the clients of the adapter's WebSocket. A connection is
-- a number. Closing a closed channel, or sending on one, is a panic: `none`.
pub mod Delivery
use what_is_it.Prelude.{
  ℕ, ltb, ◌==◌, Text, bytes, List, [], ◌∷◌, ◌++◌, Option, none, some, Bool, true, false,
  if◌then◌else◌, length,
}

pub record BackendEvent : Type 0 where
  pub kind : Text
  pub qr : Text
  pub phone : Text
  pub chat : Text
  pub linked : Bool
  pub options : Text
  pub code : Text
  pub error : Text

-- `BackendEvent{Type: kind}`
abbrev pub backend_event : Text → BackendEvent
backend_event kind = record {
  kind = kind;
  qr = [];
  phone = [];
  chat = [];
  linked = false;
  options = [];
  code = [];
  error = [];
}

-- `WSClient` with its channel.
pub record Socket : Type 0 where
  pub conn : ℕ
  pub buffer : List BackendEvent
  pub closed : Bool

-- The clients of the hub, and those it has let go, whose channels their write pumps still drain.
pub record Hub : Type 0 where
  pub clients : List Socket
  pub gone : List Socket

abbrev pub new_hub : Hub
new_hub = record { clients = []; gone = [] }

abbrev pub send_size : ℕ
send_size = 256

unfoldable pub add : ℕ → Hub → Hub
add conn h = record h { clients = record { conn = conn; buffer = []; closed = false } ∷ h.clients }

-- `close(client.send)`
unfoldable pub close : Socket → Option Socket
close s = if s.closed then none else some (record s { closed = true })

abbrev let_go : Hub → Option Socket → Option Hub
let_go h none = none
let_go h (some s) = some (record h { gone = s ∷ h.gone })

abbrev keep_client : Socket → Option Hub → Option Hub
keep_client s none = none
keep_client s (some h) = some (record h { clients = s ∷ h.clients })

-- The loop of `Remove` over the clients that are left; `gone` are those let go before.
unfoldable pub remove_from : ℕ → List Socket → List Socket → Option Hub
unfolding close
remove_from conn [] gone = some (record { clients = []; gone = gone })
remove_from conn (s ∷ ss) gone =
    let rest = remove_from conn ss gone in
    if s.conn == conn
    then let_go (record { clients = ss; gone = gone }) (close s)
    else keep_client s rest

unfoldable pub remove : ℕ → Hub → Option Hub
unfolding remove_from
remove conn h = remove_from conn h.clients h.gone

abbrev drop_client : Option Hub → Option Socket → Option Hub
drop_client none s = none
drop_client (some h) s = let_go h s

-- `select { case client.send <- b: default: close(client.send); delete(h.clients, client) }`
unfoldable pub send_or_drop : BackendEvent → Socket → Option Hub → Option Hub
unfolding close
send_or_drop ev s rest =
    if s.closed
    then none
    else if ltb (length s.buffer) send_size
    then keep_client (record s { buffer = s.buffer ++ ev ∷ [] }) rest
    else drop_client rest (close s)

unfoldable pub broadcast_from : BackendEvent → List Socket → List Socket → Option Hub
unfolding send_or_drop
broadcast_from ev [] gone = some (record { clients = []; gone = gone })
broadcast_from ev (s ∷ ss) gone = let rest = broadcast_from ev ss gone in send_or_drop ev s rest

unfoldable pub broadcast : BackendEvent → Hub → Option Hub
unfolding broadcast_from
broadcast ev h = broadcast_from ev h.clients h.gone

-- One round of `writePump` of a client: the event that is written, if one waits.
unfoldable pub pump : ℕ → List Socket → List Socket
pump conn [] = []
pump conn (s ∷ ss) =
    let rest = pump conn ss in
    if s.conn == conn
    then elim s.buffer [ [] ↦ s ∷ ss | ev ∷ buffer ↦ record s { buffer = buffer } ∷ ss ]
    else s ∷ rest
