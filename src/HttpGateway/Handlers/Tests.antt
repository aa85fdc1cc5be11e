-- ===== src/HttpGateway/Handlers/Tests.antt =====
-- The handlers of gatewayhttphandler.go on two requests, with services that answer with texts.
use zerogame.Shared.{
  ◌≡◌, refl, ◌↔◌, arith, String, true, none, List, [], ◌∷◌, string_key, nat_key, String_discrete,
}
use zerogame.Shared.GoMap.{get, Distinct}
use zerogame.Shared.Effect.{returned}
use zerogame.HttpGateway.{Fallible, success, failed, GenericRequest, GenericResponse}
use zerogame.HttpGateway.Tests.{remote, allen}
use zerogame.HttpGateway.Path.{parse_service_method}
use zerogame.HttpGateway.Path.Laws.{IsRoute, parse_service_method_reads}
use zerogame.HttpGateway.Handlers.{
  HttpRequest, HttpLib, Reply, request_data, restful_gateway_handler, generic_gateway_handler,
  contains, write_methods,
}
use zerogame.HttpGateway.Handlers.Merging.{request_data_merges, override, first_value}
use zerogame.HttpGateway.Handlers.Replies.{handlers_reply}

abbrev lowered : String → String
lowered name = name

abbrev no_json : HttpRequest → Fallible (GenericRequest String String String String String)
no_json r = failed "unexpected end of JSON input"

abbrev pub texts : HttpLib String String String String String
texts = record {
  to_lower = lowered;
  text_value = λ s. s;
  read_all = λ r. success (r.body);
  unmarshal_map = λ b. success allen;
  parse_form = λ r. success [];
  parse_json_body = no_json;
}

abbrev pub logon_request : HttpRequest
logon_request = record {
  http_method = "POST";
  path = "/api/LoginService/logon";
  query = ("accounts", "bob" ∷ []) ∷ ("channel", "web" ∷ "app" ∷ []) ∷ [];
  content_type = "application/json; charset=utf-8";
  body = 123 ∷ [];
}

parse_service_method_reads_example :
    (parse_service_method lowered "/api/users/getUserInfo" ≡ success ("user", "getUserInfo"))
    ↔ IsRoute lowered "/api/users/getUserInfo" "user" "getUserInfo"
parse_service_method_reads_example =
    parse_service_method_reads lowered "/api/users/getUserInfo" "user" "getUserInfo"

writes_post : write_methods "POST" ≡ true
unfolding String_discrete
writes_post = refl

says_json : contains "application/json; charset=utf-8" "application/json" ≡ true
says_json = refl

query_keys : Distinct logon_request.query
unfolding get String_discrete
query_keys = (refl, (refl, tt))

json_keys : Distinct allen
unfolding get
json_keys = (refl, tt)

request_data_merges_example :
    (fields : List (String × String)) × (request_data String String String String String texts
        logon_request
      ≡ success fields)
    × ((k : String)
        → get k fields
          ≡ override texts (get k allen) (first_value texts (get k logon_request.query) none))
request_data_merges_example =
    request_data_merges texts logon_request (123 ∷ []) allen writes_post says_json query_keys refl
      (omega arith) refl json_keys (cc)

handlers_reply_example :
    ((reply : Reply (GenericResponse String String String String String)) × (restful_gateway_handler
          String String String String String texts remote logon_request
        ≡ returned reply))
    × ((reply : Reply (GenericResponse String String String String String))
        × (generic_gateway_handler String String String String String texts remote logon_request
            ≡ returned reply))
handlers_reply_example = handlers_reply texts remote logon_request
