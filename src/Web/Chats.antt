-- ===== src/Web/Chats.antt =====
-- server-go/web.go and server-go/client.go: the handlers of chats and messages.
use what_is_it.Prelude.{
  ℤ, pos, ltb_ℤ, Text, bytes, is_empty, not, ◌&&◌, ◌||◌, List, [], ◌∷◌, ◌++◌, Option, none, some,
  or_else, true, if◌then◌else◌,
}
use what_is_it.Wire.{Message}
use what_is_it.Store.{HistoryStore, max_messages, upsert_message, mark_read, add_reaction}
use what_is_it.Store.Query
use what_is_it.Store.Query.{oldest_message}
use what_is_it.Bus.{ev_message}
use what_is_it.State.{publishing, is_linked}
use what_is_it.Calls.{Answer, ok, err, Phone}
use what_is_it.Whatsapp.{Jid}
use what_is_it.Web.{
  World, Client, Outcome, conversation, extended_text, reaction_to, done, with_id, with_chats,
  with_statuses, with_messages, with_calls, panicked, succeed, fail, bad_jid, not_linked,
  bad_request,
}

-- The guard of the handlers that need a linked phone.
unfoldable pub when_linked : (Phone → Outcome) → Phone → Outcome
unfolding is_linked
when_linked h p = if is_linked p.app then h p else not_linked p

unfoldable pub get_chats : World → Phone → Outcome
unfolding when_linked Query.chats
get_chats w = when_linked (λ p. succeed (with_chats (Query.chats w.order p.app.store)) p)

unfoldable pub status_list : World → Phone → Outcome
unfolding when_linked Query.statuses
status_list w = when_linked (λ p. succeed (with_statuses (Query.statuses w.order p.app.store)) p)

unfoldable pub call_history : World → Phone → Outcome
unfolding Query.calls
call_history w p = succeed (with_calls (Query.calls w.order p.app.store)) p

-- The bound of `messages`: a number from 1 to the maximum, and else the maximum.
unfoldable pub limit_of : World → Text → ℤ
limit_of w v = elim (w.atoi v) [
  | none ↦ pos max_messages
  | some n ↦
      if not (is_empty v) && (ltb_ℤ (pos 0) n && not (ltb_ℤ (pos max_messages) n))
      then n
      else pos max_messages
]

abbrev answer_messages : Option (List Message) → Phone → Outcome
answer_messages none p = (panicked, p)
answer_messages (some ms) p = succeed (with_messages ms) p

unfoldable pub get_messages : World → (chat limit : Text) → Phone → Outcome
unfolding when_linked limit_of Query.messages
get_messages w chat limit = when_linked (λ p.
    if is_empty chat
    then fail 400 (bytes "chat required") p
    else answer_messages (Query.messages chat (limit_of w limit) p.app.store) p)

-- `RequestHistoryBackfill`
unfoldable pub request_history_backfill :
    World → Client → Jid → ℤ → HistoryStore → Answer (Unit {0})
unfolding oldest_message
request_history_backfill w c chat count s = elim (oldest_message (w.directory.jid_text chat) s) [
  | none ↦ err (
      bytes "no messages stored for "
      ++ w.directory.jid_text chat
      ++ bytes "; nothing to backfill before")
  | some oldest ↦
      elim (c.send_peer_message chat oldest (if ltb_ℤ (pos 0) count then count else pos 50)) [
        | ok _ ↦ ok tt
        | err e ↦ err (bytes "request backfill: " ++ e)
      ]
]

abbrev answer_done : Answer (Unit {0}) → Phone → Outcome
answer_done (ok _) p = succeed done p
answer_done (err e) p = fail 500 e p

abbrev backfill_jid : World → Client → Answer Jid → Option ℤ → Phone → Outcome
backfill_jid w c (err e) count p = bad_jid e p
backfill_jid w c (ok jid) count p =
    answer_done (request_history_backfill w c jid (or_else count (pos 50)) p.app.store) p

abbrev backfill_body : World → Client → Option (Text × Option ℤ) → Phone → Outcome
backfill_body w c none p = bad_request p
backfill_body w c (some (chat, count)) p =
    if is_empty chat
    then fail 400 (bytes "chat required") p
    else backfill_jid w c (w.directory.parse_jid chat) count p

unfoldable pub history_backfill : World → Option (Text × Option ℤ) → Phone → Outcome
unfolding when_linked request_history_backfill
history_backfill w body = when_linked (λ p. elim w.client [
  | none ↦ fail 500 (bytes "client not initialized") p
  | some c ↦ backfill_body w c body p
])

pub record SendBody : Type 0 where
  pub chat : Text
  pub text : Text
  pub reply_to : Option Text

-- `SendText`
unfoldable pub send_text : Client → Jid → (text reply_to : Text) → Answer Text
send_text c jid text reply_to =
    c.send_message jid
      (if is_empty reply_to then conversation text else extended_text text reply_to)

-- The message that `send` records.
unfoldable pub sent_message : ℤ → Text → SendBody → Message
sent_message now id b = record {
  id = id;
  chat = b.chat;
  text = b.text;
  dir = bytes "out";
  time = now;
  status = bytes "sent";
  reply_to = or_else b.reply_to [];
  reactions = [];
  media = none;
  from_me = true;
}

abbrev record_sent : World → SendBody → Answer Text → Phone → Outcome
record_sent w b (err e) p = fail 500 e p
record_sent w b (ok id) p = succeed (with_id id) (record p {
  app =
      publishing (ev_message b.chat)
        (record p.app { store = upsert_message (sent_message w.now id b) p.app.store });
})

abbrev send_client : World → SendBody → Jid → Option Client → Phone → Outcome
send_client w b jid none p = fail 500 (bytes "client not initialized") p
send_client w b jid (some c) p = record_sent w b (send_text c jid b.text (or_else b.reply_to [])) p

abbrev send_jid : World → SendBody → Answer Jid → Phone → Outcome
send_jid w b (err e) p = bad_jid e p
send_jid w b (ok jid) p = send_client w b jid w.client p

abbrev send_body : World → Option SendBody → Phone → Outcome
send_body w none p = bad_request p
send_body w (some b) p =
    if is_empty b.chat || is_empty b.text
    then fail 400 (bytes "chat and text required") p
    else send_jid w b (w.directory.parse_jid b.chat) p

unfoldable pub send : World → Option SendBody → Phone → Outcome
unfolding when_linked send_text sent_message
send w body = when_linked (send_body w body)

-- The ids of the messages of others.
unfoldable pub inbound_ids : List Message → List Text
inbound_ids [] = []
inbound_ids (m ∷ ms) = let rest = inbound_ids ms in if m.from_me then rest else m.id ∷ rest

abbrev mark_store : Text → Answer (Unit {0}) → Phone → Outcome
mark_store chat (err e) p = fail 500 e p
mark_store chat (ok _) p =
    succeed done (record p { app = record p.app { store = mark_read chat p.app.store } })

abbrev read_client : Text → List Text → Jid → Option Client → Phone → Outcome
read_client chat ids jid none p = (panicked, p)
read_client chat ids jid (some c) p = mark_store chat (c.mark_read ids jid) p

abbrev read_ids : World → Text → Jid → List Text → Phone → Outcome
read_ids w chat jid [] p = mark_store chat (ok tt) p
read_ids w chat jid (id ∷ ids) p = read_client chat (id ∷ ids) jid w.client p

abbrev read_jid : World → Text → Answer Jid → Phone → Outcome
read_jid w chat (err e) p = bad_jid e p
read_jid w chat (ok jid) p =
    read_ids w chat jid (inbound_ids (or_else (Query.messages chat (pos 50) p.app.store) [])) p

abbrev read_body : World → Option Text → Phone → Outcome
read_body w none p = bad_request p
read_body w (some chat) p = read_jid w chat (w.directory.parse_jid chat) p

unfoldable pub read : World → Option Text → Phone → Outcome
unfolding when_linked inbound_ids Query.messages
read w body = when_linked (read_body w body)

pub record ReactBody : Type 0 where
  pub chat : Text
  pub message_id : Text
  pub emoji : Text

abbrev react_sent : ReactBody → Answer Text → Phone → Outcome
react_sent b (err e) p = fail 500 e p
react_sent b (ok _) p = succeed done (record p {
  app = record p.app { store = add_reaction b.chat b.message_id b.emoji p.app.store };
})

abbrev react_client : ReactBody → Jid → Option Client → Phone → Outcome
react_client b jid none p = (panicked, p)
react_client b jid (some c) p =
    react_sent b (c.send_message jid (reaction_to b.message_id b.emoji)) p

abbrev react_jid : World → ReactBody → Answer Jid → Phone → Outcome
react_jid w b (err e) p = bad_jid e p
react_jid w b (ok jid) p = react_client b jid w.client p

abbrev react_body : World → Option ReactBody → Phone → Outcome
react_body w none p = bad_request p
react_body w (some b) p = react_jid w b (w.directory.parse_jid b.chat) p

unfoldable pub react : World → Option ReactBody → Phone → Outcome
unfolding when_linked
react w body = when_linked (react_body w body)
