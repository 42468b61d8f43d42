-- ===== src/Web/Server.antt =====
-- server-go/web.go: the routes whose handlers use the shared state and the registry of calls alone. Those of
-- pairing, channels, pictures, media and the WebSocket join them in Router.
use what_is_it.Prelude.{ℤ, Text, Option, Bool}
use what_is_it.Calls.{Phone}
use what_is_it.Web.{World, Outcome}
use what_is_it.Web.Chats.{
  SendBody, ReactBody, get_chats, status_list, call_history, get_messages, history_backfill, send,
  read, react,
}
use what_is_it.Web.Calling.{
  call_start, call_accept, call_reject, call_end, call_mute, call_camera, call_state,
}
use what_is_it.Web.Pairing.{
  status, pair_code, logout, passkey_request, passkey_assertion, passkey_confirm, passkey_cancel,
  post_status,
}

-- The requests, each with its decoded body or its parameters.
pub data PhoneRequest : Type 0 where
  status_request : PhoneRequest
  pair_code_request : Option (Text × Text) → PhoneRequest
  chats_request : PhoneRequest
  status_list_request : PhoneRequest
  calls_request : PhoneRequest
  status_update_request : Option Text → PhoneRequest
  messages_request : (chat limit : Text) → PhoneRequest
  backfill_request : Option (Text × Option ℤ) → PhoneRequest
  send_request : Option SendBody → PhoneRequest
  read_request : Option Text → PhoneRequest
  react_request : Option ReactBody → PhoneRequest
  logout_request : PhoneRequest
  call_start_request : Option (Text × Bool) → PhoneRequest
  call_accept_request : Option (Text × Bool) → PhoneRequest
  call_reject_request : Option Text → PhoneRequest
  call_end_request : Option Text → PhoneRequest
  call_mute_request : Option (Text × Bool) → PhoneRequest
  call_camera_request : Option (Text × Bool) → PhoneRequest
  call_state_request : PhoneRequest
  options_request : PhoneRequest
  assertion_request : Option (Text × Text) → PhoneRequest
  confirm_request : PhoneRequest
  cancel_request : PhoneRequest

unfoldable pub handle_phone : World → PhoneRequest → Phone → Outcome
handle_phone w status_request = status
handle_phone w (pair_code_request body) = pair_code w body
handle_phone w chats_request = get_chats w
handle_phone w status_list_request = status_list w
handle_phone w calls_request = call_history w
handle_phone w (status_update_request body) = post_status w body
handle_phone w (messages_request chat limit) = get_messages w chat limit
handle_phone w (backfill_request body) = history_backfill w body
handle_phone w (send_request body) = send w body
handle_phone w (read_request body) = read w body
handle_phone w (react_request body) = react w body
handle_phone w logout_request = logout w
handle_phone w (call_start_request body) = call_start w body
handle_phone w (call_accept_request body) = call_accept w body
handle_phone w (call_reject_request body) = call_reject w body
handle_phone w (call_end_request body) = call_end w body
handle_phone w (call_mute_request body) = call_mute body
handle_phone w (call_camera_request body) = call_camera body
handle_phone w call_state_request = call_state w
handle_phone w options_request = passkey_request
handle_phone w (assertion_request body) = passkey_assertion w body
handle_phone w confirm_request = passkey_confirm w
handle_phone w cancel_request = passkey_cancel
