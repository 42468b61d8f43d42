-- ===== src/System.antt =====
-- The server as a whole: the requests of server-go/web.go, the events of server-go/client.go, the calls of
-- server-go/calls.go and the goroutines of the pairing, the media and the WebSockets as steps on one state, in
-- any order. What a handler does under one lock is a step of its own besides, since handlers run at once:
-- each operation of the store, each publication and either half of `SetPhone` may come between any others.
pub mod Passkey
use what_is_it.Prelude.{ℤ, ℕ, Text, Option, none, ◌≡◌, ap, Arrangement}
use what_is_it.Store.Operation.{Operation, perform, call}
use what_is_it.Store.Validity.{perform-IsValid}
use what_is_it.Store.Invariant.{IsValid, set_name-IsValid}
use what_is_it.Bus.{Event, ev_incoming_call, ev_call_state, unsubscribe, subscribe}
use what_is_it.Bus.Delivery.{bus_step, bus_step-IsBus, subscribes, unsubscribes}
use what_is_it.State.{AppState, publishing, set_own_phone, set_qr, set_phone_number}
use what_is_it.State.Invariant.{IsApp}
use what_is_it.Calls.{Call, Phone, on_incoming_call, on_end, record_call}
use what_is_it.Whatsapp.{Directory}
use what_is_it.Whatsapp.Session.{WaEvent, handle_event, MessageEvent}
use what_is_it.Whatsapp.Upkeep.{handle_event-IsApp, publication-IsApp}
use what_is_it.Web.{Credentials}
use what_is_it.Web.CallUpkeep.{recorded-IsApp}
use what_is_it.Link.{Answers, Item, on_item, on_closed, connect}
use what_is_it.Media.Incoming.{Fetch, cache_incoming}
use what_is_it.Router.{Server, Outside, Request, serve}
use what_is_it.Router.Upkeep.{serve-IsApp, on_item-IsApp, connect-IsApp}

abbrev with_app : Server → AppState → Server
with_app s a = record s { phone = record s.phone { app = a } }

pub data Step (s : Server) : Server → Type 1 where
  serves :
      (x : Outside) (c : Credentials) (r : Request) {t : Server} → t ≡ (serve x c r s).1 → Step s t
  hears :
      (order : Arrangement) (w : Directory) (e : WaEvent) {t : Server}
      → t ≡ with_app s (handle_event order w e s.phone.app)
      → Step s t
  rings :
      (incoming : Call) (now : ℤ) {t : Server}
      → t ≡ record s { phone = on_incoming_call incoming now s.phone }
      → Step s t
  ends :
      (id reason : Text) {t : Server} → t ≡ record s { phone = on_end id reason s.phone } → Step s t
  connects :
      (x : Answers) {t : Server}
      → t ≡ record (with_app s (connect x s.link s.phone.app).1) {
        link = (connect x s.link s.phone.app).0.1;
      }
      → Step s t
  gives : (item : Item) {t : Server} → t ≡ with_app s (on_item item s.phone.app) → Step s t
  closes :
      (x : Answers) (n : ℕ) {t : Server} → t ≡ record s { link = on_closed x n s.link } → Step s t
  keeps_media :
      (w : Directory) (d : Fetch) (e : MessageEvent) {t : Server}
      → t ≡ record s { media_files = cache_incoming w d e s.media_files }
      → Step s t
  leaves :
      (id : ℕ) {t : Server}
      → t ≡ with_app s (record s.phone.app { bus = unsubscribe id s.phone.app.bus })
      → Step s t
  operates :
      (op : Operation) {t : Server}
      → t ≡ with_app s (record s.phone.app { store = perform op s.phone.app.store })
      → Step s t
  announces : (ev : Event) {t : Server} → t ≡ with_app s (publishing ev s.phone.app) → Step s t
  sets_phone :
      (phone : Text) {t : Server} → t ≡ with_app s (set_own_phone phone s.phone.app) → Step s t

pub data Runs (s : Server) : Server → Type 1 where
  stays : {t : Server} → t ≡ s → Runs s t
  goes_on : {t u : Server} → Runs s t → Step t u → Runs s u

Step-IsApp : (s t : Server) → IsApp s.phone.app → Step s t → IsApp t.phone.app
unfolding on_incoming_call on_end bus_step
Step-IsApp s t v (serves x c r e) = rw e (serve-IsApp x c r s v)
Step-IsApp s t v (hears order w ev e) = rw e (handle_event-IsApp order w ev s.phone.app v)
Step-IsApp s t v (rings c now e) = rw e (recorded-IsApp _ _ _ _ _ _ now s.phone.app v)
Step-IsApp s t v (ends id reason e) = rw e (publication-IsApp _ s.phone.app v)
Step-IsApp s t v (connects x e) = rw e (connect-IsApp x s.link s.phone.app v)
Step-IsApp s t v (gives item e) = rw e (on_item-IsApp item s.phone.app v)
Step-IsApp s t v (closes x n e) = rw e v
Step-IsApp s t v (keeps_media w d ev e) = rw e v
Step-IsApp s t v (leaves id e) =
    rw e (record { store = v.store; bus = bus_step-IsBus (unsubscribes id) s.phone.app.bus v.bus })
Step-IsApp s t v (operates op e) =
    rw e (record { store = perform-IsValid op s.phone.app.store v.store; bus = v.bus })
Step-IsApp s t v (announces ev e) = rw e (publication-IsApp ev s.phone.app v)
Step-IsApp s t v (sets_phone phone e) = rw e (record { store = v.store; bus = v.bus })

-- Whatever requests on any route, session events, calls, items of pairing and downloads happen in whatever
-- order, and whatever single operations of the store and publications, or one half of `SetPhone`, come in
-- between, the shared state stays well formed: the store and the bus keep their invariants.
pub Runs-IsApp : (s t : Server) → IsApp s.phone.app → Runs s t → IsApp t.phone.app
Runs-IsApp s t v (stays e) = rw e v
Runs-IsApp s t v (goes_on {t = m} h step) = Step-IsApp m t (Runs-IsApp s m v h) step
