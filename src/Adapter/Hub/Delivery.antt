-- ===== src/Adapter/Hub/Delivery.antt =====
-- adapter/store.go and adapter/ws.go: no panic of the hub, and whom a broadcast reaches.
use what_is_it.Prelude.{
  ℕ, ◌≤◌, ltb, ◌==◌, List, [], ◌∷◌, ◌++◌, Option, some, Bool, true, false, ◌≡◌, refl, arith, inl,
  inr, Bool-cases, List-cases, All, length, length-append, if◌then◌else◌,
}
use what_is_it.Adapter.Hub.{
  BackendEvent, Socket, Hub, send_size, add, close, remove_from, remove, send_or_drop,
  broadcast_from, broadcast, pump,
}

-- A client of the hub has an open channel within its 256 events.
pub record IsClient (s : Socket) : Type 0 where
  pub open_channel : s.closed ≡ false
  pub bounded : length s.buffer ≤ send_size

abbrev pub IsHub : Hub → Type 0
IsHub h = All IsClient h.clients

abbrev has_room : Socket → Bool
has_room s = ltb (length s.buffer) send_size

-- The clients with room, each with the event at the end of its buffer.
pub reached : BackendEvent → List Socket → List Socket
reached ev [] = []
reached ev (s ∷ ss) =
    if has_room s then record s { buffer = s.buffer ++ ev ∷ [] } ∷ reached ev ss else reached ev ss

-- The clients without room, closed.
pub dropped : List Socket → List Socket
dropped [] = []
dropped (s ∷ ss) = if has_room s then dropped ss else record s { closed = true } ∷ dropped ss

broadcast_from_lem :
    (ev : BackendEvent) (ss gone : List Socket)
    → All IsClient ss
    → broadcast_from ev ss gone
      ≡ some (record { clients = reached ev ss; gone = dropped ss ++ gone })
unfolding broadcast_from send_or_drop close reached dropped
broadcast_from_lem ev [] gone v = refl
broadcast_from_lem ev (s ∷ ss) gone v =
    ground (arith, v.0.open_channel, broadcast_from_lem ev ss gone v.1)

-- A broadcast does not panic. Each client with room has the event at the end of its buffer, every other
-- client is closed and let go with the 256 events it had, and those let go before are as they were.
pub broadcast_lem :
    (ev : BackendEvent) (h : Hub)
    → IsHub h
    → broadcast ev h
      ≡ some (record { clients = reached ev h.clients; gone = dropped h.clients ++ h.gone })
unfolding broadcast
broadcast_lem ev h v = broadcast_from_lem ev h.clients h.gone v

reached-IsClient :
    (ev : BackendEvent) (ss : List Socket) → All IsClient ss → All IsClient (reached ev ss)
unfolding reached
reached-IsClient ev [] v = tt
reached-IsClient ev (s ∷ ss) v = elim (Bool-cases (has_room s)) [
  | inl e ↦ rw e (
    record {
      open_channel = v.0.open_channel;
      bounded = ground (arith, length-append s.buffer (ev ∷ []));
    },
    reached-IsClient ev ss v.1,
  )
  | inr e ↦ rw e (reached-IsClient ev ss v.1)
]

-- What the handlers, the connections and the write pumps do to the hub.
pub data HubCall : Type 0 where
  adds : (conn : ℕ) → HubCall
  removes : (conn : ℕ) → HubCall
  broadcasts : BackendEvent → HubCall
  pumps : (conn : ℕ) → HubCall

unfoldable pub hub_step : HubCall → Hub → Option Hub
hub_step (adds conn) h = some (add conn h)
hub_step (removes conn) h = remove conn h
hub_step (broadcasts ev) h = broadcast ev h
hub_step (pumps conn) h = some (record h { clients = pump conn h.clients })

remove_from-IsHub :
    (conn : ℕ) (ss gone : List Socket)
    → All IsClient ss
    → (h : Hub) × (remove_from conn ss gone ≡ some h) × IsHub h
unfolding remove_from close
remove_from-IsHub conn [] gone v = (record { clients = []; gone = gone }, refl, tt)
remove_from-IsHub conn (s ∷ ss) gone v =
    let (h, e, k) = remove_from-IsHub conn ss gone v.1 in
    elim (Bool-cases (s.conn == conn)) [
      | inl t ↦ (
        record { clients = ss; gone = record s { closed = true } ∷ gone },
        rw (t, v.0.open_channel) refl,
        v.1,
      )
      | inr t ↦ (record h { clients = s ∷ h.clients }, rw (t, e) refl, (v.0, k))
    ]

pump-IsClient : (conn : ℕ) (ss : List Socket) → All IsClient ss → All IsClient (pump conn ss)
unfolding pump
pump-IsClient conn [] v = tt
pump-IsClient conn (s ∷ ss) v = elim (Bool-cases (s.conn == conn)) [
  | inl t ↦ elim (List-cases s.buffer) [
    | inl e ↦ rw (t, e) (v.0, v.1)
    | inr ((ev, rest), e) ↦
        rw (t, e)
          (record { open_channel = v.0.open_channel; bounded = ground (arith, v.0.bounded) }, v.1)
  ]
  | inr t ↦ rw t (v.0, pump-IsClient conn ss v.1)
]

-- Whatever clients come and go and whatever is broadcast and written, in whatever order, the hub never
-- sends on a closed channel and closes none twice, and every buffer is within its 256 events.
pub hub_step-IsHub :
    (c : HubCall) (h : Hub) → IsHub h → (h' : Hub) × (hub_step c h ≡ some h') × IsHub h'
unfolding hub_step add remove
hub_step-IsHub (adds conn) h v =
    (add conn h, refl, (record { open_channel = refl; bounded = omega arith }, v))
hub_step-IsHub (removes conn) h v = remove_from-IsHub conn h.clients h.gone v
hub_step-IsHub (broadcasts ev) h v = (
  record { clients = reached ev h.clients; gone = dropped h.clients ++ h.gone },
  broadcast_lem ev h v,
  reached-IsClient ev h.clients v,
)
hub_step-IsHub (pumps conn) h v =
    (record h { clients = pump conn h.clients }, refl, pump-IsClient conn h.clients v)
