-- ===== src/Services.antt =====
-- The login service and the user service: server/login and server/user, with the structs of
-- pb/login and pb/user that they read or fill, and the login of the HTTP gateway
-- (server/gateway_http/internal/logic/loginlogic.go and handler/loginhandler.go).
--
-- A gRPC connection hands a call over or fails, which is the parameter `Link`. The lines that the
-- services print are not modelled.
pub mod Credentials
mod Tests
use zerogame.Shared.{String, Option, none, some}
use zerogame.Shared.Int.{ℤ, pos}
use zerogame.HttpGateway.{Fallible, success, failed}
use zerogame.HttpGateway.Handlers.{HttpRequest, Reply, http_error, ok_json}

pub record LogonRequest : Type 0 where
  pub accounts : String
  pub password : String
  pub login_type : ℤ
  pub sys_version : String
  pub models : String
  pub channel : String
  pub platform : String
  pub versions : String
  pub location : String
  pub token : String
  pub shop_id : ℤ
  pub device_model : String
  pub gps : String

pub record LogonResponse : Type 0 where
  pub user_id : ℤ
  pub error_code : ℤ
  pub confine_time : String
  pub token : String
  pub skin : String
  pub ui_type : String
  pub versions : String
  pub login_count : ℤ

pub record GetUserInfoRequest : Type 0 where
  pub user_id : ℤ

pub record GetUserInfoResponse : Type 0 where
  pub user_id : ℤ
  pub nickname : String
  pub gold : ℤ

-- `none` hands the call over; `some` fails it with a text.
abbrev pub Link : Type 0
Link = Option String

abbrev pub over : {A : Type 0} → Link → Fallible A → Fallible A
over none answer = answer
over (some e) answer = failed e

-- `GetUserInfoLogic.GetUserInfo`.
unfoldable pub get_user_info : GetUserInfoRequest → Fallible GetUserInfoResponse
get_user_info req = success (record { user_id = pos 123456; nickname = "allen"; gold = pos 1111 })

abbrev logon_response : Fallible GetUserInfoResponse → Fallible LogonResponse
logon_response (success rsp) = success (record {
  user_id = pos 123456;
  error_code = pos 0;
  confine_time = "";
  token = rsp.nickname;
  skin = "";
  ui_type = "";
  versions = "";
  login_count = pos 0;
})
logon_response (failed e) = failed e

-- `LogonLogic.Logon`, over the client of the user service.
unfoldable pub logon :
    (GetUserInfoRequest → Fallible GetUserInfoResponse) → LogonRequest → Fallible LogonResponse
logon user_rpc req = logon_response (user_rpc (record { user_id = pos 0 }))

-- A call of the login service. The requests of the methods but `Logon` are not looked into.
pub data LoginCall : Type 0 where
  logon_call : LogonRequest → LoginCall
  register_call reset_password_call send_verify_code_call bind_query_call : LoginCall
  current_game_query_call check_user_status_call ban_user_call : LoginCall

-- A response: `empty` is the struct of the method's response with nothing set.
pub data LoginAnswer : Type 0 where
  logged_on : LogonResponse → LoginAnswer
  empty : LoginAnswer

abbrev answer_logon : Fallible LogonResponse → Fallible LoginAnswer
answer_logon (success r) = success (logged_on r)
answer_logon (failed e) = failed e

-- The logic of the other methods, which reads nothing of its request.
unfoldable register : Fallible LoginAnswer
register = success empty

unfoldable reset_password : Fallible LoginAnswer
reset_password = success empty

unfoldable send_verify_code : Fallible LoginAnswer
send_verify_code = success empty

unfoldable bind_query : Fallible LoginAnswer
bind_query = success empty

unfoldable current_game_query : Fallible LoginAnswer
current_game_query = success empty

unfoldable check_user_status : Fallible LoginAnswer
check_user_status = success empty

unfoldable ban_user : Fallible LoginAnswer
ban_user = success empty

-- `LoginServiceServer`.
unfoldable serve_login :
    (GetUserInfoRequest → Fallible GetUserInfoResponse) → LoginCall → Fallible LoginAnswer
unfolding logon
serve_login user_rpc (logon_call req) = answer_logon (logon user_rpc req)
serve_login user_rpc register_call = register
serve_login user_rpc reset_password_call = reset_password
serve_login user_rpc send_verify_code_call = send_verify_code
serve_login user_rpc bind_query_call = bind_query
serve_login user_rpc current_game_query_call = current_game_query
serve_login user_rpc check_user_status_call = check_user_status
serve_login user_rpc ban_user_call = ban_user

-- `UserServiceServer`.
unfoldable pub serve_user : GetUserInfoRequest → Fallible GetUserInfoResponse
unfolding get_user_info
serve_user req = get_user_info req

-- `defaultLoginService` and `defaultUserService`: each method hands its request to the client of
-- the connection.
unfoldable default_login_service :
    Link → (LoginCall → Fallible LoginAnswer) → LoginCall → Fallible LoginAnswer
default_login_service link server call = over link (server call)

unfoldable pub default_user_service :
    Link
    → (GetUserInfoRequest → Fallible GetUserInfoResponse)
    → GetUserInfoRequest
    → Fallible GetUserInfoResponse
default_user_service link server req = over link (server req)

-- The HTTP gateway's own login.
pub record LoginReq : Type 0 where
  pub accounts : String
  pub password : String

pub record LoginResp : Type 0 where
  pub user_id : ℤ
  pub token : String

abbrev pub logon_request : LoginReq → LogonRequest
logon_request req = record {
  accounts = req.accounts;
  password = req.password;
  login_type = pos 0;
  sys_version = "";
  models = "";
  channel = "";
  platform = "";
  versions = "";
  location = "";
  token = "";
  shop_id = pos 0;
  device_model = "";
  gps = "";
}

abbrev login_resp : Fallible LogonResponse → Fallible LoginResp
login_resp (success r) = success (record { user_id = r.user_id; token = r.token })
login_resp (failed e) = failed e

-- `LoginLogic.Login`.
unfoldable pub login : (LogonRequest → Fallible LogonResponse) → LoginReq → Fallible LoginResp
login login_rpc req = login_resp (login_rpc (logon_request req))

abbrev login_reply : Fallible LoginResp → Reply LoginResp
login_reply (success resp) = ok_json resp
login_reply (failed e) = http_error e

abbrev pub parsed_login :
    (LogonRequest → Fallible LogonResponse) → Fallible LoginReq → Reply LoginResp
parsed_login login_rpc (success req) = login_reply (login login_rpc req)
parsed_login login_rpc (failed e) = http_error e

-- `LoginHandler`; `parse` is `httpx.Parse`.
unfoldable pub login_handler :
    (HttpRequest → Fallible LoginReq)
    → (LogonRequest → Fallible LogonResponse)
    → HttpRequest
    → Reply LoginResp
unfolding login
login_handler parse login_rpc r = parsed_login login_rpc (parse r)
