-- ===== src/Link/Streams.antt =====
-- server-go/client.go: never more than one stream gives QR codes.
use what_is_it.Prelude.{
  ℕ, ◌==◌, Text, List, [], ◌∷◌, Option, none, some, Bool, true, false, ◌≡◌, ◌⊎◌, ◌&&◌, ◌||◌, ap,
  refl, arith, inl, inr, Bool-cases, Option-cases, if◌then◌else◌, length, ◌≤◌,
}
use what_is_it.Calls.{Answer, Answer-cases, ok, err}
use what_is_it.State.{AppState}
use what_is_it.Link.{
  Link, Answers, dial, disconnected, has_stream, has_device, linked_as, connect_device, awaited,
  answer_paired, pair, without, start_qr, cancel_qr, start_pairing, connect, open_socket, on_closed,
}

-- The stream that gives codes, if there is one, is the last one made and the one that can be cancelled.
abbrev Tracks : List ℕ → Option ℕ → Option ℕ → Type 0
Tracks codes stream cancel =
    (codes ≡ []) ⊎ ((n : ℕ) × (codes ≡ n ∷ []) × (stream ≡ some n) × (cancel ≡ some n))

abbrev pub IsLink : Link → Type 0
IsLink l = Tracks l.codes l.stream l.cancel

start_qr-IsLink : (x : Answers) (l : Link) → l.codes ≡ [] → IsLink (start_qr x l)
unfolding start_qr
start_qr-IsLink x l e = elim (Answer-cases x.qr_channel) [
  | inl (u, h) ↦ rw h (inr (l.next, rw e refl, refl, refl))
  | inr (m, h) ↦ rw h (inl e)
]

dial-IsLink : (x : Answers) (l : Link) → IsLink l → IsLink (dial x l).1
dial-IsLink x l v = elim (Answer-cases x.connect) [ inl (u, h) ↦ rw h v | inr (m, h) ↦ rw h v ]

cancel_qr-silent : (l : Link) → IsLink l → (cancel_qr l).codes ≡ []
unfolding cancel_qr without
cancel_qr-silent l (inl e) = elim (Option-cases l.cancel) [
  | inl h ↦ rw h e
  | inr (n, h) ↦ rw h (rw e refl)
]
cancel_qr-silent l (inr (n, e, s, c)) = rw c (rw e (ground arith))

if-IsLink :
    (b : Bool) (o p : Answer (Unit {0}) × Link)
    → IsLink o.1
    → (b ≡ false → IsLink p.1)
    → IsLink (if b then o else p).1
if-IsLink true o p v w = v
if-IsLink false o p v w = w refl

start_pairing-IsLink : (x : Answers) (l : Link) → IsLink l → IsLink (start_pairing x l).1
unfolding start_pairing
start_pairing-IsLink x l v =
    if-IsLink (has_device l.device || (has_stream l.stream && l.connected)) _ _ v (λ e.
      dial-IsLink x (start_qr x (disconnected (cancel_qr l)))
        (start_qr-IsLink x (disconnected (cancel_qr l)) (cancel_qr-silent l v)))

answer_paired-IsLink : (o : Answer (Unit {0}) × Link) → IsLink o.1 → IsLink (answer_paired o).1
answer_paired-IsLink (err e, l) v = v
answer_paired-IsLink (ok u, l) v = v

pair-IsLink : (x : Answers) (l : Link) → IsLink l → IsLink (pair x l).1
unfolding pair
pair-IsLink x l v = answer_paired-IsLink (start_pairing x l) (start_pairing-IsLink x l v)

silent_link : (l : Link) → IsLink l → has_stream l.stream ≡ false → l.codes ≡ []
silent_link l (inl e) h = e
silent_link l (inr (n, e, s, c)) h = absurd (ground arith)

either-IsLink :
    (b : Bool) (k m : Link) → IsLink k → (b ≡ false → IsLink m) → IsLink (if b then k else m)
either-IsLink true k m v w = v
either-IsLink false k m v w = w refl

awaited-IsLink : (x : Answers) (o : Answer (Unit {0}) × Link) → IsLink o.1 → IsLink (awaited x o).1
awaited-IsLink x (err e, l) v = v
awaited-IsLink x (ok u, l) v = v

open_socket-IsLink : (x : Answers) (l : Link) → IsLink l → IsLink (open_socket x l).1
unfolding open_socket
open_socket-IsLink x l v = if-IsLink (has_device l.device) _ _ v (λ h.
    if-IsLink l.connected _ _ v (λ e.
      awaited-IsLink x (dial x (if has_stream l.stream then l else start_qr x l)) (
        dial-IsLink x _ (
          either-IsLink (has_stream l.stream) _ _ v
            (λ k. start_qr-IsLink x l (silent_link l v k))))))

without-Tracks :
    (n : ℕ) (codes : List ℕ) (stream cancel : Option ℕ)
    → Tracks codes stream cancel
    → Tracks (without n codes) stream cancel
unfolding without
without-Tracks n codes stream cancel (inl e) = inl (rw e refl)
without-Tracks n codes stream cancel (inr (m, e, s, c)) = elim (Bool-cases (m == n)) [
  | inl h ↦ inl (rw e (rw h refl))
  | inr h ↦ inr (m, rw e (rw h refl), s, c)
]

on_closed-IsLink : (x : Answers) (n : ℕ) (l : Link) → IsLink l → IsLink (on_closed x n l)
unfolding on_closed
on_closed-IsLink x n l v =
    let t = without-Tracks n l.codes l.stream l.cancel v in
    either-IsLink (has_device l.device) _ _ t (λ e.
      start_pairing-IsLink x (record l { codes = without n l.codes; connected = x.stays_open }) t)

-- What can happen to a link: requests to pair and for a pair code, a stream that ends, and what the client
-- does with the device and the socket on its own.
pub data LinkStep : Link → Link → Type 0 where
  pairs : (x : Answers) (l : Link) → LinkStep l (pair x l).1
  opens : (x : Answers) (l : Link) → LinkStep l (open_socket x l).1
  closed : (x : Answers) (n : ℕ) (l : Link) → LinkStep l (on_closed x n l)
  device_set : (device : Option Text) (l : Link) → LinkStep l (record l { device = device })
  socket_set : (connected : Bool) (l : Link) → LinkStep l (record l { connected = connected })

pub data LinkRuns (l : Link) : Link → Type 0 where
  at_start : LinkRuns l l
  then_step : (k m : Link) → LinkRuns l k → LinkStep k m → LinkRuns l m

LinkStep-IsLink : (l m : Link) → LinkStep l m → IsLink l → IsLink m
LinkStep-IsLink l m (pairs x _) v = pair-IsLink x l v
LinkStep-IsLink l m (opens x _) v = open_socket-IsLink x l v
LinkStep-IsLink l m (closed x n _) v = on_closed-IsLink x n l v
LinkStep-IsLink l m (device_set device _) v = v
LinkStep-IsLink l m (socket_set connected _) v = v

LinkRuns-IsLink : (l m : Link) → LinkRuns l m → IsLink l → IsLink m
LinkRuns-IsLink l m at_start v = v
LinkRuns-IsLink l m (then_step k _ r s) v = LinkStep-IsLink k m s (LinkRuns-IsLink l k r v)

linked_as-IsLink :
    (user : Text) (o : Answer (Unit {0}) × Link) (a : AppState)
    → IsLink o.1
    → IsLink (linked_as user o a).0.1
linked_as-IsLink user (err e, l) a v = v
linked_as-IsLink user (ok u, l) a v = v

connect_device-IsLink :
    (device : Option Text) (x : Answers) (l : Link) (a : AppState)
    → l.codes ≡ []
    → IsLink (connect_device device x l a).0.1
connect_device-IsLink none x l a e = dial-IsLink x (start_qr x l) (start_qr-IsLink x l e)
connect_device-IsLink (some user) x l a e =
    linked_as-IsLink user (dial x l) a (dial-IsLink x l (inl e))

one_stream :
    (l : Link) → IsLink l → (length l.codes ≤ 1) × ((n : ℕ) → l.codes ≡ n ∷ [] → l.cancel ≡ some n)
one_stream l (inl e) = (ground (arith, ap length e), λ n h. absurd (ground arith))
one_stream l (inr (m, e, s, c)) = (ground (arith, ap length e), λ n h. ground arith)

cancel_qr-next : (l : Link) → (cancel_qr l).next ≡ l.next
unfolding cancel_qr
cancel_qr-next l = elim (Option-cases l.cancel) [
  | inl h ↦ rw (h, cancel_qr) refl
  | inr (n, h) ↦ rw (h, cancel_qr) refl
]

abbrev FreshOnly : ℕ → List ℕ → Type 0
FreshOnly n codes = (codes ≡ []) ⊎ (codes ≡ n ∷ [])

start_qr-FreshOnly :
    (x : Answers) (l : Link) (n : ℕ) → l.codes ≡ [] → l.next ≡ n → FreshOnly n (start_qr x l).codes
unfolding start_qr
start_qr-FreshOnly x l n e h = elim (Answer-cases x.qr_channel) [
  | inl (u, k) ↦ rw k (inr (rw (e, h) refl))
  | inr (m, k) ↦ rw k (inl e)
]

dial-FreshOnly :
    (x : Answers) (l : Link) (n : ℕ) → FreshOnly n l.codes → FreshOnly n (dial x l).1.codes
dial-FreshOnly x l n v = elim (Answer-cases x.connect) [ inl (u, h) ↦ rw h v | inr (m, h) ↦ rw h v ]

else-FreshOnly :
    (b : Bool) (n : ℕ) (o p : Answer (Unit {0}) × Link)
    → b ≡ false
    → FreshOnly n p.1.codes
    → FreshOnly n (if b then o else p).1.codes
else-FreshOnly true n o p e v = absurd (ground arith)
else-FreshOnly false n o p e v = v

-- What a request to pair leaves where it is not a no-op: no stream, or the one it made.
restarted :
    (x : Answers) (l : Link)
    → IsLink l
    → l.connected ≡ false
    → has_device l.device ≡ false
    → FreshOnly l.next (start_pairing x l).1.codes
unfolding start_pairing
restarted x l v c d =
    else-FreshOnly (has_device l.device || (has_stream l.stream && l.connected)) l.next (ok tt, l)
      (dial x (start_qr x (disconnected (cancel_qr l)))) (ground arith)
      (dial-FreshOnly x (start_qr x (disconnected (cancel_qr l))) l.next (
        start_qr-FreshOnly x (disconnected (cancel_qr l)) l.next (cancel_qr-silent l v)
          (cancel_qr-next l)))

-- Once the server has connected, at most one stream of QR codes gives codes at any time, and the handle that
-- is kept is the one that cancels it, whatever requests come, whatever the client answers them, and whenever
-- streams end, devices are linked and sockets open or close. A request to pair on a closed socket, without a
-- linked device, leaves no stream but the one that it makes.
pub connect-OneStream :
    (x : Answers) (l m : Link) (a : AppState)
    → l.codes ≡ []
    → LinkRuns (connect x l a).0.1 m
    → (length m.codes ≤ 1)
      × ((n : ℕ) → m.codes ≡ n ∷ [] → m.cancel ≡ some n)
      × ((y : Answers)
          → m.connected ≡ false
          → has_device m.device ≡ false
          → ((start_pairing y m).1.codes ≡ []) ⊎ ((start_pairing y m).1.codes ≡ m.next ∷ []))
unfolding connect
connect-OneStream x l m a e r =
    let v = LinkRuns-IsLink _ m r (connect_device-IsLink l.device x l a e) in
    ((one_stream m v).0, (one_stream m v).1, λ y c d. restarted y m v c d)
