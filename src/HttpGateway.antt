-- ===== src/HttpGateway.antt =====
-- server/gateway_http/internal/logic/genericlogic.go: the HTTP gateway's calls of the RPC services.
--
-- `reflect` finds a method of a client by its name, so the clients' methods are listed by name, and
-- calls it, which panics where the argument is of another type than the parameter. The gRPC
-- connections, `mapping.UnmarshalKey`, encoding/json and `strings.Title` are the parameter `Remote`.
-- An error is its text.
pub mod Reachable
pub mod Calls
pub mod Path
pub mod Handlers
pub mod Total
pub mod Routes
pub mod Scaffold
mod Tests
use zerogame.Shared.{
  String, Bool, true, false, ◌||◌, Option, none, some, List, [], ◌∷◌, if◌then◌else◌, ◌==◌,
  string_key,
}
use zerogame.Shared.Int.{ℤ, pos}
use zerogame.Shared.Decimal.{cat}
use zerogame.Message.{Bytes}
use zerogame.Shared.GoMap.{get}
use zerogame.Shared.Effect.{Outcome, returned, panicked}

-- A value with an `error`, which is nil or has a text.
pub data Fallible (A : Type 0) : Type 0 where
  success : A → Fallible A
  failed : String → Fallible A

-- `if err != nil { return nil, … }`, with the text that the error becomes, and a call that may panic.
abbrev pub wrapping :
    {A B : Type 0}
    → Outcome (Fallible A)
    → (String → String)
    → (A → Outcome (Fallible B))
    → Outcome (Fallible B)
wrapping (returned (success a)) text k = k a
wrapping (returned (failed e)) text k = returned (failed (text e))
wrapping panicked text k = panicked

-- The dynamic types of the clients in `serviceRoutes`.
pub data Service : Type 0 where
  login_rpc user_rpc : Service

unfoldable pub service_routes : List (String × Service)
service_routes = ("login", login_rpc) ∷ ("user", user_rpc) ∷ []

-- The exported methods of `loginServiceClient` and `userServiceClient`.
abbrev pub methods : Service → List String
methods login_rpc =
    "Logon" ∷ "Register" ∷ "ResetPassword" ∷ "SendVerifyCode" ∷ "BindQuery" ∷ "CurrentGameQuery"
    ∷ "CheckUserStatus" ∷ "BanUser" ∷ []
methods user_rpc = "GetUserInfo" ∷ []

abbrev pub has_method : String → List String → Bool
has_method name [] = false
has_method name (m ∷ ms) = m == name || has_method name ms

module _ (V LogonRequest LogonResponse GetUserInfoRequest GetUserInfoResponse : Type 0) where
  -- A `map[string]interface{}`.
  abbrev pub Fields : Type 0
  Fields = List (String × V)

  pub record GenericRequest : Type 0 where
    pub service : String
    pub method : String
    pub fields : Fields

  -- `Data` is nil where a call failed.
  pub record GenericResponse : Type 0 where
    pub code : ℤ
    pub message : String
    pub data_fields : Option Fields

  -- The dynamic types of a request, and of a response.
  pub data RpcRequest : Type 0 where
    logon : LogonRequest → RpcRequest
    get_user_info : GetUserInfoRequest → RpcRequest

  pub data RpcResponse : Type 0 where
    logged_on : LogonResponse → RpcResponse
    user_info : GetUserInfoResponse → RpcResponse

  pub record Remote : Type 0 where
    pub title : String → String
    pub unmarshal_logon : Fields → Fallible LogonRequest
    pub unmarshal_get_user_info : Fields → Fallible GetUserInfoRequest
    pub call_logon : LogonRequest → Fallible LogonResponse
    pub call_get_user_info : GetUserInfoRequest → Fallible GetUserInfoResponse
    pub marshal_response : RpcResponse → Fallible Bytes
    pub unmarshal_response : Bytes → Fallible Fields

  module _ (remote : Remote) where
    abbrev pub unmarshalled : {A : Type 0} → (A → RpcRequest) → Fallible A → Fallible RpcRequest
    unmarshalled wrap (success a) = success (wrap a)
    unmarshalled wrap (failed e) = failed (cat "failed to unmarshal request data: " e)

    unfoldable pub build_rpc_request : GenericRequest → Fallible RpcRequest
    build_rpc_request req =
        let request_type_name =
          cat req.service (cat "." (cat (remote.title req.method) "Request")) in
        if request_type_name == "login.LogonRequest"
        then unmarshalled logon (remote.unmarshal_logon req.fields)
        else if request_type_name == "user.GetUserInfoRequest"
        then unmarshalled get_user_info (remote.unmarshal_get_user_info req.fields)
        else failed (cat "unsupported request type: " request_type_name)

    abbrev pub answered :
        {A : Type 0} → (A → RpcResponse) → Fallible A → Outcome (Fallible RpcResponse)
    answered wrap (success a) = returned (success (wrap a))
    answered wrap (failed e) = returned (failed e)

    -- `method.Call`: only `Logon` takes a `*LogonRequest`, and only `GetUserInfo` a
    -- `*GetUserInfoRequest`.
    unfoldable pub reflect_call : String → RpcRequest → Outcome (Fallible RpcResponse)
    reflect_call name (logon r) =
        if name == "Logon" then answered logged_on (remote.call_logon r) else panicked
    reflect_call name (get_user_info r) =
        if name == "GetUserInfo" then answered user_info (remote.call_get_user_info r) else panicked

    unfoldable pub call_rpc_method : Service → GenericRequest → Outcome (Fallible RpcResponse)
    unfolding build_rpc_request reflect_call
    call_rpc_method client req =
        let method_name = remote.title req.method in
        if has_method method_name (methods client)
        then wrapping (returned (build_rpc_request req)) (cat "failed to build RPC request: ")
            (reflect_call method_name)
        else returned (
            failed (
              cat "method '"
                (cat method_name (cat "' not found in service '" (cat req.service "'")))))

    abbrev unmarshalled_map : Fallible Bytes → Fallible Fields
    unmarshalled_map (success bytes) = remote.unmarshal_response bytes
    unmarshalled_map (failed e) = failed e

    unfoldable pub rpc_response_to_map : RpcResponse → Fallible Fields
    rpc_response_to_map resp = unmarshalled_map (remote.marshal_response resp)

    unfoldable pub convert_rpc_response : RpcResponse → Outcome (Fallible GenericResponse)
    unfolding rpc_response_to_map
    convert_rpc_response resp =
        wrapping (returned (rpc_response_to_map resp)) (cat "failed to convert RPC response: ")
          λ fields.
            returned
              (success (record { code = pos 0; message = "success"; data_fields = some fields }))

    unfoldable pub route_to_service : GenericRequest → Outcome (Fallible GenericResponse)
    unfolding call_rpc_method convert_rpc_response
    route_to_service req = elim (get req.service service_routes) [
      | none ↦ returned (failed (cat "service '" (cat req.service "' not found")))
      | some client ↦ wrapping (call_rpc_method client req) (λ e. e) convert_rpc_response
    ]

    -- `none` is a nil error.
    unfoldable pub validate_request : GenericRequest → Option String
    validate_request req =
        if req.service == ""
        then some "service is required"
        else if req.method == ""
        then some "method is required"
        else elim (get req.service service_routes) [
          | none ↦ some (cat "service '" (cat req.service "' not found"))
          | some client ↦ none
        ]

    abbrev pub refusal : ℤ → String → GenericResponse
    refusal code message = record { code = code; message = message; data_fields = none }

    abbrev pub routed : Outcome (Fallible GenericResponse) → Outcome GenericResponse
    routed (returned (success resp)) = returned resp
    routed (returned (failed e)) = returned (refusal (pos 10000003) (cat "Service call failed: " e))
    routed panicked = panicked

    -- The error of the source is always nil. The logger is set.
    unfoldable pub generic_gateway : GenericRequest → Outcome GenericResponse
    unfolding route_to_service validate_request
    generic_gateway req = elim (validate_request req) [
      | some e ↦ returned (refusal (pos 10000002) (cat "Invalid request: " e))
      | none ↦ routed (route_to_service req)
    ]

    unfoldable pub handle_restful : String → String → Fields → Outcome GenericResponse
    unfolding generic_gateway
    handle_restful service method fields =
        generic_gateway (record { service = service; method = method; fields = fields })
