-- ===== src/Services/Credentials.antt =====
-- What a login looks at: not at the account, and not at the password.
use zerogame.Shared.{◌≡◌, refl, ◌≢◌, ◌∙◌, ap, String, none, some, List, []}
use zerogame.Shared.Int.{pos}
use zerogame.Shared.Effect.{returned}
use zerogame.HttpGateway.{
  rpc_response_to_map, Fallible, success, Remote, RpcResponse, GenericResponse, handle_restful,
}
use zerogame.HttpGateway.Path.Laws.{IsRoute}
use zerogame.HttpGateway.Calls.{mapped, called, call_failed, generic_gateway_logs_on}
use zerogame.HttpGateway.Handlers.{
  HttpRequest, HttpLib, Reply, http_error, ok_json, request_data, restful_gateway_handler, answered,
}
use zerogame.HttpGateway.Handlers.Replies.{restful_gateway_handler_routes}
use zerogame.Services.{
  LogonRequest, LogonResponse, GetUserInfoRequest, GetUserInfoResponse, Link, over, get_user_info,
  logon, LoginReq, LoginResp, default_user_service, login_handler, parsed_login, login,
}

-- The login service, reached over one connection, which reaches the user service over another.
abbrev pub login_system : Link → Link → LogonRequest → Fallible LogonResponse
login_system to_login to_user req =
    over to_login (logon (default_user_service to_user get_user_info) req)

-- The first connection that is down.
abbrev pub first_down : Link → Link → Link
first_down (some e) to_user = some e
first_down none to_user = to_user

abbrev fixed_logon : LogonResponse
fixed_logon = record {
  user_id = pos 123456;
  error_code = pos 0;
  confine_time = "";
  token = "allen";
  skin = "";
  ui_type = "";
  versions = "";
  login_count = pos 0;
}

-- Whatever the account, the password and the rest of the request, a login is answered with the
-- same user and token, unless a connection is down.
logon_fixed :
    (to_login to_user : Link) (req : LogonRequest)
    → login_system to_login to_user req ≡ over (first_down to_login to_user) (success fixed_logon)
unfolding logon default_user_service get_user_info
logon_fixed (some e) to_user req = refl
logon_fixed none (some e) req = refl
logon_fixed none none req = refl

abbrev pub login_page : Link → Reply LoginResp
login_page none = ok_json (record { user_id = pos 123456; token = "allen" })
login_page (some e) = http_error e

-- The handler of `/login` lets everybody in: every request that parses, with any account and any
-- password, is answered with user 123456 and the token "allen", unless a connection is down.
pub login_handler_accepts :
    (parse : HttpRequest → Fallible LoginReq) (to_login to_user : Link) (r : HttpRequest)
    (req : LoginReq)
    → parse r ≡ success req
    → login_handler parse (login_system to_login to_user) r
      ≡ login_page (first_down to_login to_user)
unfolding login_handler login
login_handler_accepts parse to_login to_user r req e =
    rw (e, login_handler, logon_fixed) (shown to_login to_user)
  where
    shown :
        (to_login to_user : Link)
        → parsed_login (λ q. over (first_down to_login to_user) (success fixed_logon)) (success req)
          ≡ login_page (first_down to_login to_user)
    shown none none = refl
    shown none (some e) = refl
    shown (some e) to_user = refl

module _ {V : Type 0}
    (lib : HttpLib V LogonRequest LogonResponse GetUserInfoRequest GetUserInfoResponse)
    (remote : Remote V LogonRequest LogonResponse GetUserInfoRequest GetUserInfoResponse)
    (to_login to_user : Link) where
  abbrev pub rest_page :
      Link
      → Reply (GenericResponse V LogonRequest LogonResponse GetUserInfoRequest GetUserInfoResponse)
  rest_page none = ok_json (
      mapped remote "" [] (
        rpc_response_to_map V LogonRequest LogonResponse GetUserInfoRequest GetUserInfoResponse
          remote (RpcResponse.logged_on fixed_logon)))
  rest_page (some e) = ok_json (call_failed remote "" [] e)

  -- The generic route lets everybody in, if the gateway's client reaches this login service: a
  -- request, no OPTIONS, for the method `Logon` of the service `login`, under any of its names, whose
  -- data reads and decodes to any login request, is answered with one fixed login, whatever account
  -- and password it names, unless a connection is down, which is answered with the code 10000003.
  pub restful_login_accepts :
      (r : HttpRequest) (method : String) (fields : List (String × V)) (req : LogonRequest)
      → ((q : LogonRequest) → remote.call_logon q ≡ login_system to_login to_user q)
      → r.http_method ≢ "OPTIONS"
      → IsRoute lib.to_lower r.path "login" method
      → remote.title method ≡ "Logon"
      → request_data V LogonRequest LogonResponse GetUserInfoRequest GetUserInfoResponse lib r
        ≡ success fields
      → remote.unmarshal_logon fields ≡ success req
      → restful_gateway_handler V LogonRequest LogonResponse GetUserInfoRequest GetUserInfoResponse
          lib remote r
        ≡ returned (rest_page (first_down to_login to_user))
  unfolding handle_restful
  restful_login_accepts r method fields req linked other route title reads decoded =
      restful_gateway_handler_routes lib remote r "login" method fields other route reads
      ∙ ap (answered V LogonRequest LogonResponse GetUserInfoRequest GetUserInfoResponse lib remote)
          (generic_gateway_logs_on remote method fields route.named.1 title)
      ∙ rw (decoded, linked req, logon_fixed) (paged to_login to_user)
    where
      paged :
          (to_login to_user : Link)
          → answered V LogonRequest LogonResponse GetUserInfoRequest GetUserInfoResponse lib remote
              (returned (
                called remote method fields RpcResponse.logged_on
                  (over (first_down to_login to_user) (success fixed_logon))))
            ≡ returned (rest_page (first_down to_login to_user))
      paged none none = refl
      paged none (some e) = refl
      paged (some e) to_user = refl
