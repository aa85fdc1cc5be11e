-- ===== src/HttpGateway/Handlers.antt =====
-- server/gateway_http/internal/handler/gatewayhttphandler.go: the handlers of the HTTP gateway.
--
-- `r.URL.Query()` is a map from a key to its values. Reading the body, decoding it and the form, and
-- `httpx.ParseJsonBody` are the parameter `HttpLib`. A reply is what the handler writes after its
-- headers.
pub mod Merging
pub mod Replies
pub mod Tests
use text.Mathlib.Text.{find?}
use zerogame.Shared.{
  String, Bool, true, false, ◌||◌, ◌&&◌, not, Option, none, some, List, [], ◌∷◌, length,
  if◌then◌else◌, ◌==◌, string_key, nat_key,
}
use zerogame.Shared.Decimal.{cat}
use zerogame.Shared.GoMap.{get, put, is_some}
use zerogame.Shared.Effect.{Outcome, returned, panicked}
use zerogame.Message.{Bytes}
use zerogame.HttpGateway.{
  Fallible, success, failed, Fields, GenericRequest, GenericResponse, Remote, generic_gateway,
  handle_restful,
}
use zerogame.HttpGateway.Path.{parse_service_method}

-- `url.Values`.
abbrev pub Values : Type 0
Values = List (String × List String)

pub record HttpRequest : Type 0 where
  pub http_method : String
  pub path : String
  pub query : Values
  pub content_type : String
  pub body : Bytes

-- `httpx.ErrorCtx`, `httpx.OkJsonCtx`, and the bare status of `OPTIONS`.
pub data Reply (A : Type 0) : Type 0 where
  status_ok : Reply A
  http_error : String → Reply A
  ok_json : A → Reply A

-- `url.Values.Get`.
abbrev first_or_empty : Option (List String) → String
first_or_empty (some (v ∷ vs)) = v
first_or_empty _ = ""

-- `strings.Contains`.
abbrev pub contains : String → String → Bool
contains s part = is_some (find? s part)

abbrev pub write_methods : String → Bool
write_methods m = m == "POST" || m == "PUT" || m == "DELETE"

module _ (V LogonRequest LogonResponse GetUserInfoRequest GetUserInfoResponse : Type 0) where
  abbrev Data : Type 0
  Data = Fields V LogonRequest LogonResponse GetUserInfoRequest GetUserInfoResponse

  abbrev Request : Type 0
  Request = GenericRequest V LogonRequest LogonResponse GetUserInfoRequest GetUserInfoResponse

  abbrev Response : Type 0
  Response = GenericResponse V LogonRequest LogonResponse GetUserInfoRequest GetUserInfoResponse

  -- `text_value` is a string as an `interface{}`.
  pub record HttpLib : Type 0 where
    pub to_lower : String → String
    pub text_value : String → V
    pub read_all : HttpRequest → Fallible Bytes
    pub unmarshal_map : Bytes → Fallible Data
    pub parse_form : HttpRequest → Fallible Values
    pub parse_json_body : HttpRequest → Fallible Request

  module _ (lib : HttpLib) where
    abbrev pub put_first : String → List String → Data → Data
    put_first k [] fields = fields
    put_first k (v ∷ vs) fields = put k (lib.text_value v) fields

    -- `data[key] = values[0]` for each key of a query or of a form.
    unfoldable pub add_values : Values → Data → Data
    add_values [] fields = fields
    add_values ((k, vs) ∷ rest) fields = add_values rest (put_first k vs fields)

    -- `data[key] = value` for each key of a JSON object.
    unfoldable pub add_all : Data → Data → Data
    add_all [] fields = fields
    add_all ((k, v) ∷ rest) fields = add_all rest (put k v fields)

    -- The loop of `parseFromURL`.
    unfoldable add_others : Values → Data → Data
    add_others [] fields = fields
    add_others ((k, vs) ∷ rest) fields =
        let next =
          if not (k == "service") && not (k == "method") then put_first k vs fields else fields in
        add_others rest next

    unfoldable parse_from_url : HttpRequest → Fallible Request
    unfolding add_others
    parse_from_url r =
        let service = first_or_empty (get "service" r.query) in
        let method = first_or_empty (get "method" r.query) in
        if service == "" || method == ""
        then failed "service and method are required"
        else success (record { service = service; method = method; fields = add_others r.query [] })

    abbrev decoded : Data → Fallible Data → Fallible Data
    decoded fields (success json) = success (add_all json fields)
    decoded fields (failed e) = failed (cat "invalid JSON request body: " e)

    abbrev with_body : Data → Fallible Bytes → Fallible Data
    with_body fields (success body) =
        if length body == 0 then success fields else decoded fields (lib.unmarshal_map body)
    with_body fields (failed e) = failed (cat "failed to read request body: " e)

    abbrev with_form : Data → Fallible Values → Fallible Data
    with_form fields (success form) = success (add_values form fields)
    with_form fields (failed e) = failed (cat "invalid form data: " e)

    abbrev required : Fallible Data → Fallible Data
    required (success fields) =
        if length fields == 0
        then failed "no request data provided (neither query parameters nor request body)"
        else success fields
    required (failed e) = failed e

    -- `data`, with the errors on the way; a method of another name leaves it nil.
    unfoldable pub request_data : HttpRequest → Fallible Data
    unfolding add_values add_all
    request_data r =
        let query_data = add_values r.query [] in
        if r.http_method == "GET"
        then success query_data
        else if write_methods r.http_method
        then required (
            if contains r.content_type "application/json"
            then with_body query_data (lib.read_all r)
            else if contains r.content_type "application/x-www-form-urlencoded"
            then with_form query_data (lib.parse_form r)
            else success query_data)
        else success []

    module _
        (remote : Remote V LogonRequest LogonResponse GetUserInfoRequest GetUserInfoResponse) where
      -- The error of the logic is always nil.
      abbrev pub answered : Outcome Response → Outcome (Reply Response)
      answered (returned resp) = returned (ok_json resp)
      answered panicked = panicked

      abbrev with_data : String × String → Fallible Data → Outcome (Reply Response)
      with_data p (failed e) = returned (http_error e)
      with_data p (success fields) = answered (
          handle_restful V LogonRequest LogonResponse GetUserInfoRequest GetUserInfoResponse remote
            p.0 p.1 fields)

      abbrev routed : Fallible (String × String) → Fallible Data → Outcome (Reply Response)
      routed (failed e) read = returned (http_error e)
      routed (success p) read = with_data p read

      unfoldable pub restful_gateway_handler : HttpRequest → Outcome (Reply Response)
      unfolding request_data
      restful_gateway_handler r =
          if r.http_method == "OPTIONS"
          then returned status_ok
          else routed (parse_service_method lib.to_lower r.path) (request_data r)

      abbrev pub parsed : Fallible Request → Outcome (Reply Response)
      parsed (failed e) = returned (http_error e)
      parsed (success req) = answered (
          generic_gateway V LogonRequest LogonResponse GetUserInfoRequest GetUserInfoResponse remote
            req)

      unfoldable pub generic_gateway_handler : HttpRequest → Outcome (Reply Response)
      unfolding parse_from_url
      generic_gateway_handler r =
          if r.http_method == "OPTIONS"
          then returned status_ok
          else if r.http_method == "GET"
          then parsed (parse_from_url r)
          else if write_methods r.http_method
          then parsed (lib.parse_json_body r)
          else returned (http_error "Unsupported HTTP method")

      -- The headers that both handlers set first, whatever they reply then.
      abbrev cors_headers : List (String × String)
      cors_headers =
          ("Access-Control-Allow-Origin", "*")
          ∷ ("Access-Control-Allow-Methods", "GET, POST, PUT, DELETE, OPTIONS")
          ∷ ("Access-Control-Allow-Headers", "Content-Type, Authorization")
          ∷ []

      unfoldable generic_gateway_page :
          HttpRequest → List (String × String) × Outcome (Reply Response)
      unfolding generic_gateway_handler
      generic_gateway_page r = (cors_headers, generic_gateway_handler r)

      unfoldable restful_gateway_page :
          HttpRequest → List (String × String) × Outcome (Reply Response)
      unfolding restful_gateway_handler
      restful_gateway_page r = (cors_headers, restful_gateway_handler r)
