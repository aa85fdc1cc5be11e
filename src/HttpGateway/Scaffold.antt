-- ===== src/HttpGateway/Scaffold.antt =====
-- The handlers that goctl made: server/gateway_http/internal/handler/gatewayhttphandler.go
-- (`Gateway_httpHandler`) and logic/gatewayhttplogic.go, and server/gateway_ws/internal/handler and
-- logic/gatewaywslogic.go.
--
-- `parse` is `httpx.Parse`. A response is a pointer, so `none` is written as null.
use zerogame.Shared.{List, [], ◌∷◌, String, Option, none}
use zerogame.HttpGateway.{Fallible, success, failed}
use zerogame.HttpGateway.Handlers.{HttpRequest, Reply, http_error, ok_json}

-- The structs of both packages `types`.
pub record Request : Type 0 where
  pub name : String

pub record Response : Type 0 where
  pub message : String

abbrev page : (Request → Fallible (Option Response)) → Fallible Request → Reply (Option Response)
page answer (success req) = written (answer req)
  where
    written : Fallible (Option Response) → Reply (Option Response)
    written (success resp) = ok_json resp
    written (failed e) = http_error e
page answer (failed e) = http_error e

-- `Gateway_http`, whose results are still nil when it returns.
unfoldable gateway_http : Request → Fallible (Option Response)
gateway_http req = success none

unfoldable gateway_http_handler :
    (HttpRequest → Fallible Request) → HttpRequest → Reply (Option Response)
unfolding gateway_http
gateway_http_handler parse r = page gateway_http (parse r)

-- `Gateway_ws`.
unfoldable gateway_ws : Request → Fallible (Option Response)
gateway_ws req = success none

unfoldable gateway_ws_handler :
    (HttpRequest → Fallible Request) → HttpRequest → Reply (Option Response)
unfolding gateway_ws
gateway_ws_handler parse r = page gateway_ws (parse r)

-- `RegisterHandlers` of the WebSocket gateway's HTTP server: the method and the path of its route.
unfoldable ws_routes : List (String × String)
ws_routes = ("GET", "/from/:name") ∷ []
