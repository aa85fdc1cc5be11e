-- ===== src/Server/Setup/Tests.antt =====
-- A server of the default configuration, and its first client.
use zerogame.Shared.{◌≡◌, refl, true, none, [], ◌∷◌, nat_key, String_discrete, ℕ_discrete}
use zerogame.Shared.Int.{pos, ℤ_discrete}
use zerogame.Shared.GoMap.{get, put}
use zerogame.Shared.Effect.{panicked, result_of}
use zerogame.Message.{LoginMessage, WebSocketMessage}
use zerogame.Message.Body.{Body}
use zerogame.Message.Failure.{success, ok}
use zerogame.Parser.Json
use zerogame.Parser.{Codec, check_header, with_body}
use zerogame.Parser.Json.{parse, parse_message_body, new_message_parser}
use zerogame.Parser.Tests.{sample_codec, header_of}
use zerogame.Connection.Reach.{here}
use zerogame.Gateway.{Net}
use zerogame.Server.{text_message, handle_connection}
use zerogame.Server.Setup.{
  WebSocketConfig, new_service_context, new_web_socket_server, new_server_with_parser,
}
use zerogame.Server.Setup.Logins.{login_ends_program}

abbrev defaults : WebSocketConfig
defaults = record {
  host = "0.0.0.0";
  port = pos 8888;
  path = "/ws";
  read_timeout = pos 60;
  write_timeout = pos 60;
  max_message_size = pos 65536;
  heartbeat_interval = pos 30;
  heartbeat_timeout = pos 90;
  max_connections = pos 10000;
  enable_compression = true;
  allowed_origins = [];
  serialization_format = "json";
}

abbrev guest : LoginMessage
guest = record { token = "t" }

abbrev codec : Codec
codec = record sample_codec { unmarshal_login = λ b. ok guest }

abbrev reliable : Net
reliable = record { write_error = λ sent c b. none }

abbrev login_message : WebSocketMessage
login_message = with_body (header_of 1 0) []

login_parses :
    (new_service_context codec defaults).parser.parse_message (1 ∷ 0 ∷ []) ≡ success login_message
unfolding new_service_context new_web_socket_server new_server_with_parser Json.parse_message
    check_header String_discrete
login_parses = refl

login_decodes :
    (new_service_context codec defaults).parser.parse_message_body login_message
    ≡ success (Body.login guest)
unfolding new_service_context new_web_socket_server new_server_with_parser Json.parse_message_body
    new_message_parser put get ℤ_discrete ℕ_discrete parse String_discrete
login_decodes = refl

login_ends_program_example :
    let server = new_service_context codec defaults in
    result_of (
      handle_connection reliable server.parser server.router 7
        ((1000, text_message (1 ∷ 0 ∷ [])) ∷ [])
        server.gateway)
    ≡ panicked
login_ends_program_example =
    login_ends_program reliable codec defaults 7 (new_service_context codec defaults).gateway 1000
      (1 ∷ 0 ∷ []) [] login_message (header_of 1 0) guest here login_parses refl login_decodes
