-- ===== src/Adapter/Service.antt =====
-- adapter/routes.go with adapter/ws.go: the adapter as a whole, requests and WebSocket clients in any order.
use what_is_it.Prelude.{Option, some, ◌≡◌}
use what_is_it.Adapter.Hub.{Hub}
use what_is_it.Adapter.Hub.Delivery.{HubCall, hub_step, hub_step-IsHub}
use what_is_it.Adapter.Gateway.{World, Adapter}
use what_is_it.Adapter.Reply.{Request}
use what_is_it.Adapter.Routes.{serve}
use what_is_it.Adapter.Upkeep.{IsAdapter}
use what_is_it.Adapter.Handlers.{serve-IsAdapter}

pub data AdapterStep (a : Adapter) : Adapter → Type 1 where
  answers : (w : World) (r : Request) {b : Adapter} → b ≡ (serve w r a).1 → AdapterStep a b
  calls_hub :
      (c : HubCall) {h : Hub} {b : Adapter}
      → hub_step c a.hub ≡ some h
      → b ≡ record a { hub = h }
      → AdapterStep a b

pub data AdapterRuns (a : Adapter) : Adapter → Type 1 where
  rests : {b : Adapter} → b ≡ a → AdapterRuns a b
  continues : {b c : Adapter} → AdapterRuns a b → AdapterStep b c → AdapterRuns a c

same_hub : (h h' : Hub) (x : Option Hub) → x ≡ some h → x ≡ some h' → h ≡ h'
same_hub h h' x e e' = cc

called-IsAdapter :
    (c : HubCall) (a : Adapter) (h : Hub)
    → hub_step c a.hub ≡ some h
    → IsAdapter a
    → IsAdapter (record a { hub = h })
called-IsAdapter c a h e v =
    let (h', e', k) = hub_step-IsHub c a.hub v.sockets in
    record { history = v.history; sockets = rw (same_hub h h' (hub_step c a.hub) e e') k }

AdapterStep-IsAdapter : (a b : Adapter) → AdapterStep a b → IsAdapter a → IsAdapter b
AdapterStep-IsAdapter a b (answers w r e) v = rw e (serve-IsAdapter w r a v)
AdapterStep-IsAdapter a b (calls_hub c {h = h} e e') v = rw e' (called-IsAdapter c a h e v)

AdapterRuns-IsAdapter : (a b : Adapter) → AdapterRuns a b → IsAdapter a → IsAdapter b
AdapterRuns-IsAdapter a b (rests e) v = rw e v
AdapterRuns-IsAdapter a b (continues {b = m} r s) v =
    AdapterStep-IsAdapter m b s (AdapterRuns-IsAdapter a m r v)

-- Whatever requests are served, with whatever the gateway, the disk and the clock answer, and whatever
-- WebSocket clients come, go and are written to, in whatever order, from a well-formed adapter: it stays one,
-- with threads of at most two thousand messages of different ids and registered sockets that are open with at
-- most 256 events each; and the next call of the hub, whichever it is, does not panic.
pub AdapterRuns-Safe :
    (a b : Adapter)
    → IsAdapter a
    → AdapterRuns a b
    → IsAdapter b × ((c : HubCall) → (h : Hub) × (hub_step c b.hub ≡ some h))
AdapterRuns-Safe a b v r =
    let k = AdapterRuns-IsAdapter a b r v in
    (k, λ c. let (h, e, _) = hub_step-IsHub c b.hub k.sockets in (h, e))
