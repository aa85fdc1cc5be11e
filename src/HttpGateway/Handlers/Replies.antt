-- ===== src/HttpGateway/Handlers/Replies.antt =====
-- What the handlers of the HTTP gateway write.
use zerogame.Shared.{
  ◌≡◌, refl, ◌≢◌, ap, inl, inr, ◌⊎◌, String, List, ◌==◌, string_key, ==-ne, Bool-cases,
}
use zerogame.Shared.Effect.{Outcome, returned}
use zerogame.HttpGateway.{
  Fallible, success, failed, GenericRequest, GenericResponse, Remote, handle_restful,
}
use zerogame.HttpGateway.Path.{parse_service_method}
use zerogame.HttpGateway.Path.Laws.{IsRoute, parse_service_method_reads}
use zerogame.HttpGateway.Total.{generic_gateway_returns}
use zerogame.HttpGateway.Handlers.{
  HttpRequest, Reply, status_ok, http_error, ok_json, HttpLib, request_data, write_methods,
  answered, parsed, restful_gateway_handler, generic_gateway_handler,
}

Fallible-cases :
    {A : Type 0} (f : Fallible A) → ((a : A) × (f ≡ success a)) ⊎ ((e : String) × (f ≡ failed e))
Fallible-cases (success a) = inl (a, refl)
Fallible-cases (failed e) = inr (e, refl)

module _ {V LogonRequest LogonResponse GetUserInfoRequest GetUserInfoResponse : Type 0}
    (lib : HttpLib V LogonRequest LogonResponse GetUserInfoRequest GetUserInfoResponse)
    (remote : Remote V LogonRequest LogonResponse GetUserInfoRequest GetUserInfoResponse)
    (r : HttpRequest) where
  abbrev Response : Type 0
  Response = GenericResponse V LogonRequest LogonResponse GetUserInfoRequest GetUserInfoResponse

  abbrev handled : Outcome (Reply Response)
  handled =
      restful_gateway_handler V LogonRequest LogonResponse GetUserInfoRequest GetUserInfoResponse
        lib remote r

  abbrev generic : Outcome (Reply Response)
  generic =
      generic_gateway_handler V LogonRequest LogonResponse GetUserInfoRequest GetUserInfoResponse
        lib remote r

  -- A request that is no OPTIONS, for a route and with data that reads, is answered with what
  -- `HandleRESTful` returns for that service, method and data.
  pub restful_gateway_handler_routes :
      (service method : String) (fields : List (String × V))
      → r.http_method ≢ "OPTIONS"
      → IsRoute lib.to_lower r.path service method
      → request_data V LogonRequest LogonResponse GetUserInfoRequest GetUserInfoResponse lib r
        ≡ success fields
      → handled
        ≡ answered V LogonRequest LogonResponse GetUserInfoRequest GetUserInfoResponse lib remote (
            handle_restful V LogonRequest LogonResponse GetUserInfoRequest GetUserInfoResponse
              remote service method fields)
  unfolding restful_gateway_handler
  restful_gateway_handler_routes service method fields other route reads =
      rw
        (
          ==-ne other,
          restful_gateway_handler,
          (parse_service_method_reads lib.to_lower r.path service method).1 route,
          reads,
        )
        refl

  answers :
      (service method : String) (fields : List (String × V))
      → (reply : Reply Response) × (answered V LogonRequest LogonResponse GetUserInfoRequest
            GetUserInfoResponse lib remote
            (handle_restful V LogonRequest LogonResponse GetUserInfoRequest GetUserInfoResponse
              remote service method fields)
          ≡ returned reply)
  unfolding handle_restful
  answers service method fields =
      let (resp, e) =
        generic_gateway_returns remote
          (record { service = service; method = method; fields = fields }) in
      (
        ok_json resp,
        ap (answered V LogonRequest LogonResponse GetUserInfoRequest GetUserInfoResponse lib remote)
            e,
      )

  restful_gateway_handler_replies : (reply : Reply Response) × (handled ≡ returned reply)
  unfolding restful_gateway_handler
  restful_gateway_handler_replies = elim (Bool-cases (r.http_method == "OPTIONS")) [
    | inl options ↦ rw (options, restful_gateway_handler) (status_ok, refl)
    | inr other ↦ elim (Fallible-cases (parse_service_method lib.to_lower r.path)) [
      | inr (e, bad) ↦ rw (other, restful_gateway_handler, bad) (http_error e, refl)
      | inl ((service, method), good) ↦
          elim (Fallible-cases (
            request_data V LogonRequest LogonResponse GetUserInfoRequest GetUserInfoResponse lib
              r)) [
                | inr (e, bad) ↦ rw (other, restful_gateway_handler, good, bad) (http_error e, refl)
                | inl (fields, reads) ↦
                    rw (other, restful_gateway_handler, good, reads) (answers service method fields)
              ]
    ]
  ]

  parsed_replies :
      (req : Fallible
        (GenericRequest V LogonRequest LogonResponse GetUserInfoRequest GetUserInfoResponse))
      → (reply : Reply Response) × (parsed V LogonRequest LogonResponse GetUserInfoRequest
            GetUserInfoResponse lib remote req
          ≡ returned reply)
  parsed_replies (failed e) = (http_error e, refl)
  parsed_replies (success req) =
      let (resp, e) = generic_gateway_returns remote req in
      (
        ok_json resp,
        ap (answered V LogonRequest LogonResponse GetUserInfoRequest GetUserInfoResponse lib remote)
            e,
      )

  generic_gateway_handler_replies : (reply : Reply Response) × (generic ≡ returned reply)
  unfolding generic_gateway_handler
  generic_gateway_handler_replies = elim (Bool-cases (r.http_method == "OPTIONS")) [
    | inl options ↦ rw (options, generic_gateway_handler) (status_ok, refl)
    | inr other ↦ elim (Bool-cases (r.http_method == "GET")) [
      | inl gets ↦ rw (other, gets, generic_gateway_handler) (parsed_replies _)
      | inr no_get ↦ elim (Bool-cases (write_methods r.http_method)) [
        | inl writes ↦ rw (other, no_get, generic_gateway_handler, writes) (parsed_replies _)
        | inr neither ↦ rw (other, no_get, generic_gateway_handler, neither) (_, refl)
      ]
    ]
  ]

  -- Both handlers write a reply to every request, whatever the RPC services and the decoding do: no
  -- request makes them panic.
  pub handlers_reply :
      ((reply : Reply Response) × (handled ≡ returned reply))
      × ((reply : Reply Response) × (generic ≡ returned reply))
  handlers_reply = (restful_gateway_handler_replies, generic_gateway_handler_replies)
