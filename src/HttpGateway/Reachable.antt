-- ===== src/HttpGateway/Reachable.antt =====
-- What a caller of the HTTP gateway can reach.
use zerogame.Shared.{
  ◌≡◌, refl, ◌≢◌, ◌⊎◌, inl, inr, String, true, false, none, some, List, [], ◌∷◌, ◌==◌, string_key,
  String_discrete, arith, Bool-cases, Option-cases, eq_of_==, sym, All,
}
use mathlib.Core.Path.{subst}
use zerogame.Shared.Int.{pos}
use zerogame.Shared.Decimal.{cat}
use zerogame.Shared.GoMap.{get}
use zerogame.Shared.Effect.{Outcome, returned}
use zerogame.HttpGateway.{
  failed, Service, login_rpc, user_rpc, service_routes, methods, has_method, GenericRequest,
  GenericResponse, Remote, build_rpc_request, call_rpc_method, route_to_service, validate_request,
  generic_gateway,
}

-- The name that `buildRPCRequest` looks at.
abbrev type_name : String → String → String
type_name service method = cat service (cat "." (cat method "Request"))

-- A predicate that holds of each method holds of a method that is found.
pick :
    (P : String → Type 0) (name : String) (ms : List String)
    → All P ms
    → has_method name ms ≡ true
    → P name
pick P name [] a h = absurd (ground arith)
pick P name (m ∷ ms) a h = elim (Bool-cases (m == name)) [
  | inl same ↦ subst P (eq_of_== same) a.0
  | inr other ↦ pick P name ms a.1 (ground arith)
]

abbrev IsUntyped : String → String → Type 0
IsUntyped service name =
    ((type_name service name == "login.LogonRequest") ≡ false)
    × ((type_name service name == "user.GetUserInfoRequest") ≡ false)

abbrev UntypedBut : String → String → String → Type 0
UntypedBut service only name = name ≢ only → IsUntyped service name

-- No method but `Logon` of the login client has a request type.
other_logins : All (UntypedBut "login" "Logon") (methods login_rpc)
unfolding String_discrete
other_logins = (
  λ n. absurd (n refl),
  (
    λ n. (refl, refl),
    (
      λ n. (refl, refl),
      (
        λ n. (refl, refl),
        (λ n. (refl, refl), (λ n. (refl, refl), (λ n. (refl, refl), (λ n. (refl, refl), tt)))),
      ),
    ),
  ),
)

other_users : All (UntypedBut "user" "GetUserInfo") (methods user_rpc)
other_users = (λ n. absurd (n refl), tt)

service_cases :
    (service : String) (client : Service)
    → get service service_routes ≡ some client
    → ((service ≡ "login") × (client ≡ login_rpc)) ⊎ ((service ≡ "user") × (client ≡ user_rpc))
unfolding get service_routes
service_cases service client e = ground arith

module _ {V LogonRequest LogonResponse GetUserInfoRequest GetUserInfoResponse : Type 0}
    (remote : Remote V LogonRequest LogonResponse GetUserInfoRequest GetUserInfoResponse)
    (req : GenericRequest V LogonRequest LogonResponse GetUserInfoRequest GetUserInfoResponse) where
  abbrev Request : Type 0
  Request = GenericRequest V LogonRequest LogonResponse GetUserInfoRequest GetUserInfoResponse

  abbrev Response : Type 0
  Response = GenericResponse V LogonRequest LogonResponse GetUserInfoRequest GetUserInfoResponse

  abbrev gateway : Outcome Response
  gateway =
      generic_gateway V LogonRequest LogonResponse GetUserInfoRequest GetUserInfoResponse remote req

  abbrev IsRefused : Response → Type 0
  IsRefused resp =
      ((resp.code ≡ pos 10000002) ⊎ (resp.code ≡ pos 10000003)) × (resp.data_fields ≡ none)

  -- The two calls that the gateway can make.
  abbrev pub IsCallable : Type 0
  IsCallable =
      ((req.service ≡ "login") × (remote.title req.method ≡ "Logon"))
      ⊎ ((req.service ≡ "user") × (remote.title req.method ≡ "GetUserInfo"))

  abbrev FailedCall : Type 0
  FailedCall =
      (e : String) × (route_to_service V LogonRequest LogonResponse GetUserInfoRequest
          GetUserInfoResponse remote req
        ≡ returned (failed e))

  build_fails :
      IsUntyped req.service (remote.title req.method)
      → build_rpc_request V LogonRequest LogonResponse GetUserInfoRequest GetUserInfoResponse remote
          req
        ≡ failed
            (cat "unsupported request type: " (type_name req.service (remote.title req.method)))
  unfolding build_rpc_request
  build_fails (a, b) = rw (a, b, build_rpc_request)

  route_fails :
      (client : Service)
      → get req.service service_routes ≡ some client
      → (has_method (remote.title req.method) (methods client) ≡ true
          → IsUntyped req.service (remote.title req.method))
      → FailedCall
  unfolding route_to_service call_rpc_method
  route_fails client found untyped =
      elim (Bool-cases (has_method (remote.title req.method) (methods client))) [
        | inl has ↦
            rw (found, route_to_service, has, call_rpc_method, build_fails (untyped has)) (_, refl)
        | inr lacks ↦ rw (found, route_to_service, lacks, call_rpc_method) (_, refl)
      ]

  untyped :
      (IsCallable → ⊥)
      → (client : Service) → get req.service service_routes ≡ some client
      → has_method (remote.title req.method) (methods client) ≡ true
      → IsUntyped req.service (remote.title req.method)
  untyped other client found has = elim (service_cases req.service client found) [
    | inl (s, c) ↦
        subst (λ t. IsUntyped t (remote.title req.method)) (sym s)
          (pick (UntypedBut "login" "Logon") (remote.title req.method) (methods login_rpc)
            other_logins
            (subst (λ d. has_method (remote.title req.method) (methods d) ≡ true) c has)
            (λ e. other (inl (s, e))))
    | inr (s, c) ↦
        subst (λ t. IsUntyped t (remote.title req.method)) (sym s)
          (pick (UntypedBut "user" "GetUserInfo") (remote.title req.method) (methods user_rpc)
            other_users (subst (λ d. has_method (remote.title req.method) (methods d) ≡ true) c has)
            (λ e. other (inr (s, e))))
  ]

  route_refuses : (IsCallable → ⊥) → FailedCall
  unfolding route_to_service
  route_refuses other = elim (Option-cases (get req.service service_routes)) [
    | inl lost ↦ rw (lost, route_to_service) (_, refl)
    | inr (client, found) ↦ route_fails client found (untyped other client found)
  ]

  -- A request for anything but `Logon` of the login service and `GetUserInfo` of the user service,
  -- also for another method that the client has, is refused: the gateway does not panic, and answers
  -- with one of the codes 10000002 and 10000003 and no data.
  pub generic_gateway_refuses :
      (IsCallable → ⊥) → (resp : Response) × (gateway ≡ returned resp) × IsRefused resp
  unfolding generic_gateway
  generic_gateway_refuses other =
      elim (Option-cases (
        validate_request V LogonRequest LogonResponse GetUserInfoRequest GetUserInfoResponse remote
          req)) [
            | inl valid ↦
                let (e, failing) = route_refuses other in
                rw (valid, generic_gateway, failing) (_, refl, (inr refl, refl))
            | inr (e, invalid) ↦ rw (invalid, generic_gateway) (_, refl, (inl refl, refl))
          ]
