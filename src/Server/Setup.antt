-- ===== src/Server/Setup.antt =====
-- server/gateway_ws: the configuration (internal/config/config.go), what `NewServiceContext`
-- (internal/svc/servicecontext.go) and `NewWebSocketServer` build from it, and the parts of server.go
-- that read it. The upgrade itself is a parameter: its result is the connection, or none.
pub mod Logins
mod Tests
use zerogame.Shared.{
  ℕ, ◌+◌, ◌*◌, String, Bool, Option, none, some, List, [], ◌∷◌, if◌then◌else◌, ◌==◌, string_key,
  nat_key,
}
use zerogame.Shared.Int.{ℤ, pos, negsuc, sub_ℕ}
use zerogame.Shared.Decimal.{cat, decimal}
use zerogame.Parser.{Codec, MessageParserInterface}
use zerogame.Parser.Json.{new_message_parser, json_interface}
use zerogame.Parser.Proto.{new_proto_message_parser, proto_interface}
use zerogame.Connection.{Conn, get_connection_count, get_room_count}
use zerogame.Gateway.{Gateway}
use zerogame.Router.{MessageRouter}
use zerogame.Handler.{DefaultMessageHandler}
use zerogame.Server.Dispatching.{default_router}
use zerogame.Server.{new_gateway, check_origin}

pub record WebSocketConfig : Type 0 where
  pub host : String
  pub port : ℤ
  pub path : String
  pub read_timeout : ℤ
  pub write_timeout : ℤ
  pub max_message_size : ℤ
  pub heartbeat_interval : ℤ
  pub heartbeat_timeout : ℤ
  pub max_connections : ℤ
  pub enable_compression : Bool
  pub allowed_origins : List String
  pub serialization_format : String

-- `gateway` holds the connection manager and the broadcaster; of the upgrader, whether it compresses
-- and which origins it lets in.
pub record WebSocketServer : Type 0 where
  pub config : WebSocketConfig
  pub gateway : Gateway
  pub router : MessageRouter DefaultMessageHandler
  pub parser : MessageParserInterface
  pub compresses : Bool
  pub lets_in : String → Bool

unfoldable pub new_server_with_parser : WebSocketConfig → MessageParserInterface → WebSocketServer
new_server_with_parser cfg parser = record {
  config = cfg;
  gateway = new_gateway cfg.max_connections;
  router = default_router;
  parser = parser;
  compresses = cfg.enable_compression;
  lets_in = check_origin cfg.allowed_origins;
}

unfoldable pub new_web_socket_server : Codec → WebSocketConfig → WebSocketServer
unfolding new_server_with_parser
new_web_socket_server codec cfg =
    new_server_with_parser cfg (json_interface codec new_message_parser)

-- The server of `NewServiceContext`.
unfoldable pub new_service_context : Codec → WebSocketConfig → WebSocketServer
unfolding new_web_socket_server new_server_with_parser
new_service_context codec cfg =
    if cfg.serialization_format == "proto"
    then new_server_with_parser cfg (proto_interface codec new_proto_message_parser)
    else new_web_socket_server codec cfg

unfoldable get_stats : WebSocketServer → List (String × ℤ)
get_stats s =
    ("connections", pos (get_connection_count s.gateway.conn_mgr))
    ∷ ("rooms", pos (get_room_count s.gateway.conn_mgr))
    ∷ ("max_connections", s.config.max_connections)
    ∷ ("heartbeat_interval", s.config.heartbeat_interval)
    ∷ ("heartbeat_timeout", s.config.heartbeat_timeout)
    ∷ []

-- `time.Now().Add(time.Duration(seconds) * time.Second)`, in nanoseconds.
abbrev deadline : ℕ → ℤ → ℤ
deadline now (pos seconds) = pos (now + seconds * 1000000000)
deadline now (negsuc n) = sub_ℕ now ((n + 1) * 1000000000)

-- What the server sets on a socket.
pub record Socket : Type 0 where
  pub socket : Conn
  pub read_limit : ℤ
  pub read_deadline : ℤ
  pub write_deadline : ℤ

-- The pong handler.
unfoldable on_pong : WebSocketConfig → ℕ → Socket → Socket
on_pong cfg now s = record s { read_deadline = deadline now cfg.read_timeout }

-- `handleWebSocket`, up to the start of `handleConnection` on the socket, if there is one.
unfoldable handle_web_socket : WebSocketConfig → Option Conn → ℕ → Option Socket
handle_web_socket cfg none now = none
handle_web_socket cfg (some conn) now = some (record {
  socket = conn;
  read_limit = cfg.max_message_size;
  read_deadline = deadline now cfg.read_timeout;
  write_deadline = deadline now cfg.write_timeout;
})

abbrev seconds : ℤ → ℤ
seconds (pos n) = pos (n * 1000000000)
seconds (negsuc n) = sub_ℕ 0 ((n + 1) * 1000000000)

-- What `Start` starts besides the broadcaster: the checker with its interval and its timeout, and
-- a listener that hands one path to `handleWebSocket`.
pub record Started : Type 0 where
  pub interval : ℤ
  pub timeout : ℤ
  pub addr : String
  pub pattern : String

unfoldable start : WebSocketServer → Started
start s = record {
  interval = seconds s.config.heartbeat_interval;
  timeout = seconds s.config.heartbeat_timeout;
  addr = cat s.config.host (cat ":" (decimal s.config.port));
  pattern = s.config.path;
}
