-- ===== src/Link.antt =====
-- server-go/client.go: linking the phone by QR codes. A stream of codes is named by the number of its
-- creation, which is also that of the context that cancels it; `codes` are the streams that still give codes.
pub mod Streams
use what_is_it.Prelude.{
  ℕ, suc, ◌==◌, Text, bytes, is_empty, text_eq, List, [], ◌∷◌, ◌++◌, Option, none, some, Bool, true,
  false, ◌&&◌, ◌||◌, if◌then◌else◌,
}
use what_is_it.Calls.{Answer, ok, err}
use what_is_it.Bus.{ev_qr}
use what_is_it.Web.{Response, reply, done, failed}
use what_is_it.State.{AppState, set_qr, publishing, set_phone_number}

-- The state of `WAClient` and of its client: the user of the stored device, the socket, `qrCh`, `cancelQR`.
pub record Link : Type 0 where
  pub device : Option Text
  pub connected : Bool
  pub stream : Option ℕ
  pub cancel : Option ℕ
  pub codes : List ℕ
  pub next : ℕ

abbrev pub new_link : Link
new_link = record {
  device = none;
  connected = false;
  stream = none;
  cancel = none;
  codes = [];
  next = 0;
}

-- What whatsmeow answers: `GetQRChannel`, `Connect`, whether the socket is still open five seconds after a
-- stream of codes ended, and whether a stream gives an item or ends within five seconds.
pub record Answers : Type 0 where
  pub qr_channel : Answer (Unit {0})
  pub connect : Answer (Unit {0})
  pub stays_open : Bool
  pub item_comes : Bool

unfoldable pub without : ℕ → List ℕ → List ℕ
without n [] = []
without n (m ∷ ms) = let rest = without n ms in if m == n then rest else m ∷ rest

-- `startQR`, in a new context.
unfoldable pub start_qr : Answers → Link → Link
start_qr x l = elim x.qr_channel [
  | err e ↦ record l { cancel = some l.next; next = suc l.next }
  | ok _ ↦ record l {
    cancel = some l.next;
    stream = some l.next;
    codes = l.next ∷ l.codes;
    next = suc l.next;
  }
]

-- `cli.Connect()`
abbrev pub dial : Answers → Link → Answer (Unit {0}) × Link
dial x l = elim x.connect [ err e ↦ (err e, l) | ok _ ↦ (ok tt, record l { connected = true }) ]

-- `if wc.cancelQR != nil { wc.cancelQR(); wc.cancelQR = nil }`
unfoldable pub cancel_qr : Link → Link
unfolding without
cancel_qr l = elim l.cancel [
  | none ↦ l
  | some n ↦ record l { codes = without n l.codes; cancel = none }
]

abbrev pub disconnected : Link → Link
disconnected l = record l { connected = false }

-- `cli.Store.ID != nil`
abbrev pub has_device : Option Text → Bool
has_device none = false
has_device (some user) = true

abbrev pub has_stream : Option ℕ → Bool
has_stream none = false
has_stream (some n) = true

-- `StartPairing`
unfoldable pub start_pairing : Answers → Link → Answer (Unit {0}) × Link
unfolding start_qr cancel_qr
start_pairing x l =
    if has_device l.device || (has_stream l.stream && l.connected)
    then (ok tt, l)
    else dial x (start_qr x (disconnected (cancel_qr l)))

abbrev pub linked_as :
    Text → Answer (Unit {0}) × Link → AppState → (Answer (Unit {0}) × Link) × AppState
linked_as user (err e, l) a = ((err e, l), a)
linked_as user (ok u, l) a = ((ok u, l), set_phone_number user a)

abbrev pub connect_device :
    Option Text → Answers → Link → AppState → (Answer (Unit {0}) × Link) × AppState
connect_device none x l a = (dial x (start_qr x l), a)
connect_device (some user) x l a = linked_as user (dial x l) a

-- `Connect`
unfoldable pub connect : Answers → Link → AppState → (Answer (Unit {0}) × Link) × AppState
unfolding start_qr set_phone_number
connect x l = connect_device l.device x l

-- `return "", fmt.Errorf("connect: %w", err)`, and the wait for the first item.
abbrev pub awaited : Answers → Answer (Unit {0}) × Link → Answer (Unit {0}) × Link
awaited x (err e, l) = (err (bytes "connect: " ++ e), l)
awaited x (ok u, l) =
    (if x.item_comes then ok tt else err (bytes "timed out waiting for connection"), l)

-- The part of `PairCode` before `PairPhone`: it opens the socket. The item that it waits for is dropped.
unfoldable pub open_socket : Answers → Link → Answer (Unit {0}) × Link
unfolding start_qr
open_socket x l =
    if has_device l.device
    then (err (bytes "device already linked; log out first"), l)
    else if l.connected
    then (ok tt, l)
    else awaited x (dial x (if has_stream l.stream then l else start_qr x l))

abbrev pub answer_paired : Answer (Unit {0}) × Link → Response × Link
answer_paired (err e, l) = (reply 500 (failed e), l)
answer_paired (ok u, l) = (reply 200 done, l)

-- The handler `pair` of server-go/web.go.
unfoldable pub pair : Answers → Link → Response × Link
unfolding start_pairing
pair x l = answer_paired (start_pairing x l)

-- The items of a stream, which the goroutine of `startQR` passes on.
pub data Item : Type 0 where
  code : Text → Item
  timeout other : Item

unfoldable pub on_item : Item → AppState → AppState
unfolding set_qr
on_item (code c) a = publishing (ev_qr c) (set_qr c a)
on_item timeout a = publishing (ev_qr []) (set_qr [] a)
on_item other a = a

-- The end of the goroutine, when the channel `n` is closed: without a device it waits for the socket to
-- be closed, but not for long, and pairs anew.
unfoldable pub on_closed : Answers → ℕ → Link → Link
unfolding without start_pairing
on_closed x n l =
    let l' = record l { codes = without n l.codes } in
    if has_device l.device then l' else (start_pairing x (record l' { connected = x.stays_open })).1
