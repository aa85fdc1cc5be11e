-- ===== src/HttpGateway/Calls.antt =====
-- What the HTTP gateway answers to the two calls that it can make.
use zerogame.Shared.{
  ◌≡◌, refl, ◌≢◌, String, true, false, none, some, List, ◌==◌, string_key, String_discrete, arith,
  ==-ne, ◌∙◌,
}
use zerogame.Shared.Int.{pos}
use zerogame.Shared.Decimal.{cat}
use zerogame.Shared.GoMap.{get}
use zerogame.Shared.Effect.{Outcome, returned}
use zerogame.HttpGateway.{
  Fallible, success, failed, wrapping, Service, login_rpc, user_rpc, service_routes, methods,
  has_method, Fields, GenericRequest, GenericResponse, RpcRequest, RpcResponse, logged_on,
  user_info, Remote, build_rpc_request, reflect_call, call_rpc_method, convert_rpc_response,
  rpc_response_to_map, route_to_service, validate_request, unmarshalled, routed, generic_gateway,
}

-- What the code computes on the names of the two calls.
abbrev IsRouted : String → Service → String → Type 0
IsRouted service client name =
    ((service == "") ≡ false)
    × (get service service_routes ≡ some client)
    × (has_method name (methods client) ≡ true)

login-IsRouted :
    IsRouted "login" login_rpc "Logon"
    × ((cat "login" (cat "." (cat "Logon" "Request")) == "login.LogonRequest") ≡ true)
    × (◌==◌ {K = String} "Logon" "Logon" ≡ true)
unfolding get service_routes String_discrete
login-IsRouted = ((refl, refl, refl), refl, refl)

user-IsRouted :
    IsRouted "user" user_rpc "GetUserInfo"
    × ((cat "user" (cat "." (cat "GetUserInfo" "Request")) == "login.LogonRequest") ≡ false)
    × ((cat "user" (cat "." (cat "GetUserInfo" "Request")) == "user.GetUserInfoRequest") ≡ true)
    × (◌==◌ {K = String} "GetUserInfo" "GetUserInfo" ≡ true)
unfolding get service_routes String_discrete
user-IsRouted = ((refl, refl, refl), refl, refl, refl)

module _ {V LogonRequest LogonResponse GetUserInfoRequest GetUserInfoResponse : Type 0}
    (remote : Remote V LogonRequest LogonResponse GetUserInfoRequest GetUserInfoResponse)
    (method : String)
    (fields : Fields V LogonRequest LogonResponse GetUserInfoRequest GetUserInfoResponse) where
  abbrev Response : Type 0
  Response = GenericResponse V LogonRequest LogonResponse GetUserInfoRequest GetUserInfoResponse

  abbrev pub gateway_of : String → Outcome Response
  gateway_of service =
      generic_gateway V LogonRequest LogonResponse GetUserInfoRequest GetUserInfoResponse remote
        (record { service = service; method = method; fields = fields })

  abbrev pub call_failed : String → Response
  call_failed e = record {
    code = pos 10000003;
    message = cat "Service call failed: " e;
    data_fields = none;
  }

  abbrev pub mapped : Fallible (List (String × V)) → Response
  mapped (success f) = record { code = pos 0; message = "success"; data_fields = some f }
  mapped (failed e) = call_failed (cat "failed to convert RPC response: " e)

  abbrev pub called :
      {A : Type 0}
      → (A → RpcResponse V LogonRequest LogonResponse GetUserInfoRequest GetUserInfoResponse)
      → Fallible A
      → Response
  called wrap (success a) = mapped (
      rpc_response_to_map V LogonRequest LogonResponse GetUserInfoRequest GetUserInfoResponse remote
        (wrap a))
  called wrap (failed e) = call_failed e

  -- The fields decoded, the service called, and its answer turned into fields: the first failure
  -- is the answer.
  abbrev pub answer_of :
      {R A : Type 0}
      → (R → Fallible A)
      → (A → RpcResponse V LogonRequest LogonResponse GetUserInfoRequest GetUserInfoResponse)
      → Fallible R
      → Response
  answer_of call wrap (success r) = called wrap (call r)
  answer_of call wrap (failed e) =
      call_failed (cat "failed to build RPC request: " (cat "failed to unmarshal request data: " e))

  abbrev request_to :
      String → GenericRequest V LogonRequest LogonResponse GetUserInfoRequest GetUserInfoResponse
  request_to service = record { service = service; method = method; fields = fields }

  abbrev build :
      String
      → Fallible (RpcRequest V LogonRequest LogonResponse GetUserInfoRequest GetUserInfoResponse)
  build service =
      build_rpc_request V LogonRequest LogonResponse GetUserInfoRequest GetUserInfoResponse remote
        (request_to service)

  -- The answer when the request is built: it is sent under the method's name.
  abbrev sent :
      String
      → Fallible (RpcRequest V LogonRequest LogonResponse GetUserInfoRequest GetUserInfoResponse)
      → Outcome Response
  sent name built =
      routed V LogonRequest LogonResponse GetUserInfoRequest GetUserInfoResponse remote (
        wrapping
          (wrapping (returned built) (cat "failed to build RPC request: ") (
            reflect_call V LogonRequest LogonResponse GetUserInfoRequest GetUserInfoResponse remote
              name))
          (λ e. e)
          (convert_rpc_response V LogonRequest LogonResponse GetUserInfoRequest GetUserInfoResponse
            remote))

  validates :
      (service : String) (client : Service) (name : String)
      → method ≢ ""
      → IsRouted service client name
      → validate_request V LogonRequest LogonResponse GetUserInfoRequest GetUserInfoResponse remote
          (request_to service)
        ≡ none
  unfolding validate_request
  validates service client name named r = rw (r.0, ==-ne named, r.1, validate_request)

  routes :
      (service : String) (client : Service) (name : String)
      → method ≢ ""
      → remote.title method ≡ name
      → IsRouted service client name
      → gateway_of service ≡ sent name (build service)
  unfolding generic_gateway route_to_service call_rpc_method
  routes service client name named title r = rw (
    validates service client name named r,
    generic_gateway,
    r.1,
    route_to_service,
    title,
    r.2,
    call_rpc_method,
  )

  logs_on :
      (o : Fallible LogonRequest)
      → sent "Logon" (
          unmarshalled V LogonRequest LogonResponse GetUserInfoRequest GetUserInfoResponse remote
            RpcRequest.logon o)
        ≡ returned (answer_of remote.call_logon logged_on o)
  unfolding reflect_call convert_rpc_response
  logs_on (success r) = ground (arith, login-IsRouted)
  logs_on (failed e) = refl

  asks_user :
      (o : Fallible GetUserInfoRequest)
      → sent "GetUserInfo" (
          unmarshalled V LogonRequest LogonResponse GetUserInfoRequest GetUserInfoResponse remote
            RpcRequest.get_user_info o)
        ≡ returned (answer_of remote.call_get_user_info user_info o)
  unfolding reflect_call convert_rpc_response
  asks_user (success r) = ground (arith, user-IsRouted)
  asks_user (failed e) = refl

  -- A request to `login` for a method whose title is `Logon` decodes the fields, calls the service
  -- and answers with what it returned, or with the code 10000003 and the first failure.
  pub generic_gateway_logs_on :
      method ≢ ""
      → remote.title method ≡ "Logon"
      → gateway_of "login"
        ≡ returned (answer_of remote.call_logon logged_on (remote.unmarshal_logon fields))
  unfolding build_rpc_request
  generic_gateway_logs_on named title =
      routes "login" login_rpc "Logon" named title login-IsRouted.0
      ∙ rw (title, build_rpc_request, login-IsRouted.1) (logs_on (remote.unmarshal_logon fields))

  -- A request to `user` for a method whose title is `GetUserInfo` does the same with that service.
  pub generic_gateway_asks_user :
      method ≢ ""
      → remote.title method ≡ "GetUserInfo"
      → gateway_of "user"
        ≡ returned
            (answer_of remote.call_get_user_info user_info (remote.unmarshal_get_user_info fields))
  unfolding build_rpc_request
  generic_gateway_asks_user named title =
      routes "user" user_rpc "GetUserInfo" named title user-IsRouted.0
      ∙ rw (title, build_rpc_request, user-IsRouted.1, user-IsRouted.2)
          (asks_user (remote.unmarshal_get_user_info fields))
