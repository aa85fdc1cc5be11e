-- ===== src/Message/ErrorText.antt =====
-- `err.Error()`: the texts of the WebSocket gateway's errors.
use zerogame.Shared.{String}
use zerogame.Shared.Decimal.{cat, decimal}
use zerogame.Message.Body.{Kind}
use zerogame.Message.Failure.{
  Error, library, invalid_message_format, header_required, invalid_message_type,
  failed_to_serialize_message, header_is_nil, unsupported_message_type, failed_to_parse,
  failed_to_marshal, failed_to_marshal_response, failed_to_serialize_push, failed_to_parse_body,
  invalid_proto_format, failed_to_serialize_proto, unsupported_for_proto,
}

-- The name of a struct in the texts.
unfoldable pub kind_text : Kind → String
kind_text Kind.heartbeat = "heartbeat"
kind_text Kind.login = "login message"
kind_text Kind.logout = "logout message"
kind_text Kind.join_room = "join room message"
kind_text Kind.leave_room = "leave room message"
kind_text Kind.game_action = "game action message"
kind_text Kind.chat = "chat message"
kind_text Kind.user_info_query = "user info query"
kind_text Kind.room_list_query = "room list query"
kind_text _ = ""

unfoldable pub error_text : Error → String
unfolding kind_text
error_text (library s) = s
error_text (invalid_message_format e) = cat "invalid message format: " (error_text e)
error_text header_required = "message header is required"
error_text (invalid_message_type t) = cat "invalid message type: " (decimal t)
error_text (failed_to_serialize_message e) = cat "failed to serialize message: " (error_text e)
error_text header_is_nil = "message header is nil"
error_text (unsupported_message_type t) = cat "unsupported message type: " (decimal t)
error_text (failed_to_parse k e) =
    cat "failed to parse " (cat (kind_text k) (cat ": " (error_text e)))
error_text (failed_to_marshal k e) =
    cat "failed to marshal " (cat (kind_text k) (cat ": " (error_text e)))
error_text (failed_to_marshal_response e) = cat "failed to marshal response data: " (error_text e)
error_text (failed_to_serialize_push e) = cat "failed to serialize push data: " (error_text e)
error_text (failed_to_parse_body e) = cat "failed to parse message body: " (error_text e)
error_text (invalid_proto_format e) = cat "invalid proto message format: " (error_text e)
error_text (failed_to_serialize_proto e) = cat "failed to serialize proto message: " (error_text e)
error_text (unsupported_for_proto t) =
    cat "unsupported message type for proto marshal: " (decimal t)
