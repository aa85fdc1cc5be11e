-- ===== src/Server/Setup/Logins.antt =====
-- A login on the server that `NewServiceContext` builds.
use zerogame.Shared.{
  arith, if◌then◌else◌, ◌==◌, ℕ, ◌≡◌, refl, sym, some, List, ◌∷◌, string_key, nat_key,
}
use zerogame.Shared.Effect.{panicked, result_of}
use zerogame.Message.{Bytes, MessageHeader, WebSocketMessage, LoginMessage}
use zerogame.Message.Body.{Body}
use zerogame.Message.Failure.{success}
use zerogame.Shared.Int.{pos}
use mathlib.Core.Path.{subst}
use zerogame.Parser.{Codec, MessageParserInterface}
use zerogame.Connection.{Conn, new_connection_manager}
use zerogame.Connection.Reach.{Reach}
use zerogame.Connection.Defects.{add_connection_panics}
use zerogame.Gateway.{Gateway, Net}
use zerogame.Handler.{handle_login}
use zerogame.Server.Dispatching.{
  Format, json, proto, parser_of, default_router, handle_message_runs,
}
use zerogame.Server.{Incoming, text_message, handle_message, serve, handle_connection, new_gateway}
use zerogame.Server.Setup.{
  WebSocketServer, WebSocketConfig, new_service_context, new_web_socket_server,
  new_server_with_parser,
}

abbrev format_of : WebSocketConfig → Format
format_of cfg = if cfg.serialization_format == "proto" then proto else json

-- The server of a configuration, by the format that it names.
abbrev server_with : Codec → WebSocketConfig → Format → WebSocketServer
server_with codec cfg format = new_server_with_parser cfg (parser_of codec format)

new_service_context_lem :
    (codec : Codec) (cfg : WebSocketConfig)
    → new_service_context codec cfg ≡ server_with codec cfg (format_of cfg)
unfolding new_service_context new_web_socket_server
new_service_context_lem codec cfg = ground arith

module _ (net : Net) (codec : Codec) (cfg : WebSocketConfig) (conn : Conn) where
  login_panics :
      (format : Format) (g : Gateway) (now : ℕ) (bytes : Bytes) (msg : WebSocketMessage)
      (h : MessageHeader) (m : LoginMessage)
      → let parser = parser_of codec format in
        Reach (new_connection_manager cfg.max_connections) g.conn_mgr
        → parser.parse_message bytes ≡ success msg
        → msg.header ≡ some h
        → parser.parse_message_body msg ≡ success (Body.login m)
        → result_of (handle_message net parser default_router conn now bytes g) ≡ panicked
  unfolding handle_login
  login_panics format g now bytes msg h m reached parses headed decodes =
      rw
        (
          handle_message_runs net codec format conn now msg h (Body.login m) g bytes parses headed
              decodes,
          handle_login,
          add_connection_panics cfg.max_connections conn (pos 1) now reached,
        )
        refl

  panics_through :
      (parser : MessageParserInterface) (g : Gateway) (now : ℕ) (bytes : Bytes)
      (rest : List (ℕ × Incoming))
      → result_of (handle_message net parser default_router conn now bytes g) ≡ panicked
      → result_of
          (handle_connection net parser default_router conn ((now, text_message bytes) ∷ rest) g)
        ≡ panicked
  unfolding handle_connection serve
  panics_through parser g now bytes rest fails = rw (fails, serve) refl

  -- On the server that `NewServiceContext` builds, for every configuration, and after any calls of
  -- its connection manager in which no connection is added while it is held and every room joined
  -- has a name, a text frame that decodes to a login message ends the program:
  -- `AddConnection` panics at its log line, and nothing recovers.
  pub login_ends_program :
      (g : Gateway) (now : ℕ) (bytes : Bytes) (rest : List (ℕ × Incoming)) (msg : WebSocketMessage)
      (h : MessageHeader) (m : LoginMessage)
      → let server = new_service_context codec cfg in
        Reach server.gateway.conn_mgr g.conn_mgr
        → server.parser.parse_message bytes ≡ success msg
        → msg.header ≡ some h
        → server.parser.parse_message_body msg ≡ success (Body.login m)
        → result_of (
            handle_connection net server.parser server.router conn
              ((now, text_message bytes) ∷ rest)
              g)
          ≡ panicked
  unfolding new_server_with_parser new_gateway
  login_ends_program g now bytes rest msg h m =
      subst
        (λ server.
          Reach server.gateway.conn_mgr g.conn_mgr
          → server.parser.parse_message bytes ≡ success msg
          → msg.header ≡ some h
          → server.parser.parse_message_body msg ≡ success (Body.login m)
          → result_of (
              handle_connection net server.parser server.router conn
                ((now, text_message bytes) ∷ rest) g)
            ≡ panicked)
        (sym (new_service_context_lem codec cfg))
        (λ reached parses headed decodes.
          panics_through (parser_of codec (format_of cfg)) g now bytes rest
            (login_panics (format_of cfg) g now bytes msg h m reached parses headed decodes))
