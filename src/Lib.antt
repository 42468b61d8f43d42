-- ===== src/Lib.antt =====
-- WhatsIt back ends: a model of server-go, the Go server between the HarmonyOS app and WhatsApp, and of
-- adapter, a second Go server with the same interface over another gateway, in which their states and
-- handlers are functions.
--
-- The parts and how they interact. The session of WhatsApp (server-go/client.go, history.go,
-- extract.go) turns events of the third-party client into operations of the history store
-- (server-go/store.go) and publishes on the event bus (server-go/events.go); the HTTP handlers
-- (server-go/web.go, auth.go, status.go, avatar.go, channels.go) act on the same store and bus through
-- the shared state (server-go/state.go) and on the registry of calls (server-go/calls.go); a WebSocket
-- (server-go/ws.go) sends each subscriber what the bus hands it and carries the media of a call. The
-- adapter (adapter/routes.go, proxy.go, store.go, ws.go) passes requests on to its gateway, keeps a
-- history of its own, and hears from the gateway by a webhook.
--
--   Prelude           lists, texts as bytes, 64-bit integers, maps, the two sorts of Go
--   Wire              the records that the stores keep and the interface shows
--   Store             HistoryStore: a record, one function per method; Store.Operation has the
--                     methods as data, Store.Board what they mean, Store.Query what the store is
--                     asked, with the snapshot that Flush takes
--   Bus               EventBus: subscribe, unsubscribe, publish; Bus.Stream the loop of one WebSocket
--   State             AppState and the passkey ceremony, with channels as numbered slots
--   Calls             CallRegistry: the life of calls, each handler with what the engine answers
--   Whatsapp          the values of the client; Extract for extract.go, History for history.go,
--                     Session for the events of client.go
--   Link              linking by QR codes: Connect, StartPairing and startQR of client.go
--   Upload            SendMedia of client.go with its handler
--   Avatar, Channel   the caches of avatar.go and channels.go with their handlers
--   Audio, Video      pcmSource.ReadFrame, the sample rates, the 16-bit samples, isKeyframe and the
--                     binary frames
--   Media             the cache of media files (server-go/media.go), the handler that serves it, and
--                     Incoming for the media of messages
--   Web               Request and Response; Chats, Calling, Pairing for the handlers, Server for
--                     the routes that they serve
--   Router            all routes of the server under their guard, over the whole state, with ws
--   System            the steps of the whole server, in any order, with single operations in between
--   Adapter           the adapter: Json for decoded values, Store and Snapshot for store.go, Hub for
--                     ws.go, Gateway for proxy.go, Webhook, Chats, Session and Content for the
--                     handlers of routes.go, Routes for its two tables
--   Tests             the theorems at concrete inputs
--
-- Every method of the stores, the bus, the hub and the registry takes a mutex, so it is one step;
-- interleavings are sequences of steps. SetPhone of the shared state takes two mutexes, one after the
-- other, and is two steps of System; where a handler calls it alone, set_phone_number is both. A Go map
-- is an association list. The order in which Go visits a map, and in which sort.Slice leaves equal
-- elements, is an Arrangement, any permutation. An int64 is a ℤ, with its wrap-around where the code
-- counts or multiplies. No function runs on fuel: each loop recurses on the list it goes through. Two of
-- the same name, one of each server, are told apart by their modules: Store.upsert_message and
-- Adapter.Store.upsert_message.
--
-- Third-party code is a parameter: the client of WhatsApp (Web.Client, Link.Answers and their like), its
-- directory of names and JIDs (Whatsapp.Directory), the call engine and the decoders (Web.World), the
-- gateway and the JSON decoder of the adapter (Adapter.Gateway.World), float32
-- (Audio.Resample.Floats), the upgrade of a WebSocket (Router.Outside). Nothing is assumed of them but
-- that an Arrangement permutes and, where the adapter reads its file back, that the decoder reads the
-- integers that a float64 holds exactly. A request body is what the JSON decoder made of it.
--
-- Not modelled: file and network I/O, the text of JSON, the JSON of the snapshot of server-go and its
-- reading by NewHistoryStore, the goroutines of the media of a call, the arithmetic of floats, the
-- start-up of both servers, the Rust server and the app.
mod Prelude
pub mod Wire
pub mod Store
pub mod Bus
pub mod Router
pub mod State
pub mod Calls
pub mod Whatsapp
pub mod Audio
pub mod Video
pub mod Media
pub mod Web
pub mod System
pub mod Adapter
pub mod Avatar
pub mod Channel
pub mod Upload
pub mod Link
mod Tests
