-- ===== src/Services/Tests.antt =====
-- Two logins with a wrong password, of server/gateway_http, server/login and server/user.
use zerogame.Shared.{
  ◌≡◌, refl, String, none, [], ◌∷◌, string_key, nat_key, String_discrete, ℕ_discrete,
}
use zerogame.Shared.GoMap.{put}
use zerogame.Shared.Int.{pos}
use zerogame.Shared.Effect.{returned}
use zerogame.HttpGateway.{success, failed, Remote}
use zerogame.HttpGateway.Path.{
  parse_service_method, trim_slash, split_slash, from_parts, service_alias,
}
use zerogame.HttpGateway.Path.Laws.{IsRoute, parse_service_method_reads}
use zerogame.HttpGateway.Handlers.{
  HttpRequest, HttpLib, request_data, add_values, restful_gateway_handler,
}
use zerogame.Services.{
  LogonRequest, LogonResponse, GetUserInfoRequest, GetUserInfoResponse, LoginReq, logon_request,
}
use zerogame.Services.Credentials.{login_system, first_down, rest_page, restful_login_accepts}

abbrev guess : LoginReq
guess = record { accounts = "allen"; password = "guess" }

abbrev query_logon : HttpRequest
query_logon = record {
  http_method = "GET";
  path = "/api/login/Logon";
  query = ("password", "guess" ∷ []) ∷ [];
  content_type = "";
  body = [];
}

abbrev lib : HttpLib String LogonRequest LogonResponse GetUserInfoRequest GetUserInfoResponse
lib = record {
  to_lower = λ s. s;
  text_value = λ s. s;
  read_all = λ r. success (r.body);
  unmarshal_map = λ b. failed "unexpected end of JSON input";
  parse_form = λ r. success [];
  parse_json_body = λ r. failed "unexpected end of JSON input";
}

-- The user service is down.
abbrev remote : Remote String LogonRequest LogonResponse GetUserInfoRequest GetUserInfoResponse
remote = record {
  title = λ s. s;
  unmarshal_logon = λ fields. success (logon_request guess);
  unmarshal_get_user_info = λ fields. success (record { user_id = pos 0 });
  call_logon = login_system none none;
  call_get_user_info = λ q. failed "connection refused";
  marshal_response = λ a. success (6 ∷ 1 ∷ []);
  unmarshal_response = λ b. success (("token", "allen") ∷ []);
}

logon-IsRoute : IsRoute lib.to_lower query_logon.path "login" "Logon"
unfolding parse_service_method trim_slash split_slash from_parts service_alias String_discrete
    ℕ_discrete
logon-IsRoute = (parse_service_method_reads lib.to_lower query_logon.path "login" "Logon").0 refl

query_data :
    request_data String LogonRequest LogonResponse GetUserInfoRequest GetUserInfoResponse lib
      query_logon
    ≡ success (("password", "guess") ∷ [])
unfolding request_data add_values put String_discrete
query_data = refl

restful_login_accepts_example :
    restful_gateway_handler String LogonRequest LogonResponse GetUserInfoRequest GetUserInfoResponse
      lib remote query_logon
    ≡ returned (rest_page lib remote none none (first_down none none))
restful_login_accepts_example =
    restful_login_accepts lib remote none none query_logon "Logon" (("password", "guess") ∷ [])
      (logon_request guess) (λ q. refl) (cc) logon-IsRoute refl query_data refl
