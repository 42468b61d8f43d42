-- ===== src/Web/Calling.antt =====
-- server-go/web.go: the handlers of calls, over the registry.
use what_is_it.Prelude.{Text, Option, none, some, Bool, length}
use what_is_it.Calls.{
  Answer, ok, err, Call, Phone, list, start_outgoing, accept_incoming, reject_incoming, hangup,
  set_muted, set_camera,
}
use what_is_it.Web.{
  World, Outcome, done, with_call_id, with_active_calls, succeed, fail, bad_request,
}
use what_is_it.Web.Chats.{when_linked}

abbrev answer_call_id : Answer Text × Phone → Outcome
answer_call_id (err e, p) = fail 500 e p
answer_call_id (ok id, p) = succeed (with_call_id id) p

abbrev answer_done_call : Answer (Unit {0}) × Phone → Outcome
answer_done_call (err e, p) = fail 500 e p
answer_done_call (ok _, p) = succeed done p

-- What the engine answers for this chat.
abbrev engine_answer : Option (Text → Bool → Answer Call) → Text → Bool → Option (Answer Call)
engine_answer none chat video = none
engine_answer (some call) chat video = some (call chat video)

abbrev start_body : World → Option (Text × Bool) → Phone → Outcome
start_body w none p = bad_request p
start_body w (some (chat, video)) p =
    answer_call_id (start_outgoing (engine_answer w.engine chat video) video w.now p)

unfoldable pub call_start : World → Option (Text × Bool) → Phone → Outcome
unfolding when_linked start_outgoing
call_start w body = when_linked (start_body w body)

unfoldable pub call_accept : World → Option (Text × Bool) → Phone → Outcome
unfolding accept_incoming
call_accept w none p = bad_request p
call_accept w (some (id, video)) p = answer_call_id (accept_incoming id video (w.answer id) p)

unfoldable pub call_reject : World → Option Text → Phone → Outcome
unfolding reject_incoming
call_reject w none p = bad_request p
call_reject w (some id) p = answer_done_call (reject_incoming id (w.reject id) p)

unfoldable pub call_end : World → Option Text → Phone → Outcome
unfolding hangup
call_end w none p = bad_request p
call_end w (some id) p = answer_done_call (hangup id (w.hangup id) p)

unfoldable pub call_mute : Option (Text × Bool) → Phone → Outcome
unfolding set_muted
call_mute none p = bad_request p
call_mute (some (id, muted)) p = succeed done (set_muted id muted p)

unfoldable pub call_camera : Option (Text × Bool) → Phone → Outcome
unfolding set_camera
call_camera none p = bad_request p
call_camera (some (id, on)) p = succeed done (set_camera id on p)

unfoldable pub call_state : World → Phone → Outcome
unfolding list
call_state w p =
    let calls = list w.order p.calls in succeed (with_active_calls calls (length calls)) p
