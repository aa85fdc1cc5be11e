-- ===== src/HttpGateway/Routes.antt =====
-- server/gateway_http/internal/handler/routes.go: the routes of the HTTP gateway.
--
-- go-zero's router is a parameter, which hands a request to the handler of one of the routes.
mod Tests
use zerogame.Shared.{
  ◌≡◌, refl, ◌≢◌, ◌∙◌, sym, ap, ◌⊎◌, inl, inr, String, Bool, true, false, Option, none, some, List,
  [], ◌∷◌, if◌then◌else◌, ◌==◌, string_key, not, ◌&&◌, ◌||◌, arith, eq_of_==, ==-eq, ==-ne,
  String_discrete, Option-cases,
}
use mathlib.Core.Path.{subst}
use zerogame.Shared.Effect.{Outcome}
use zerogame.HttpGateway.{Remote, GenericResponse}
use zerogame.HttpGateway.Handlers.{
  HttpRequest, HttpLib, Reply, generic_gateway_handler, write_methods, parsed,
}

-- `Gateway_httpHandler`, `LoginHandler`, `GenericGatewayHandler`, `RESTfulGatewayHandler` and the
-- health check.
pub data RouteHandler : Type 0 where
  scaffold login generic restful health : RouteHandler

pub record Route : Type 0 where
  pub verb : String
  pub pattern : String
  pub handler : RouteHandler

-- `RegisterHandlers`.
abbrev pub routes : List Route
routes =
    record { verb = "GET"; pattern = "/from/:name"; handler = scaffold }
    ∷ record { verb = "POST"; pattern = "/login"; handler = login }
    ∷ record { verb = "POST"; pattern = "/api/generic"; handler = generic }
    ∷ record { verb = "GET"; pattern = "/api/:service/:method"; handler = restful }
    ∷ record { verb = "POST"; pattern = "/api/:service/:method"; handler = restful }
    ∷ record { verb = "PUT"; pattern = "/api/:service/:method"; handler = restful }
    ∷ record { verb = "DELETE"; pattern = "/api/:service/:method"; handler = restful }
    ∷ record { verb = "GET"; pattern = "/health"; handler = health }
    ∷ []

abbrev In : Route → List Route → Type 0
In r [] = ⊥
In r (route ∷ rest) = (r ≡ route) ⊎ In r rest

-- What the code relies on in go-zero's router: a request is handed to the handler of a route that
-- was registered for its method, or to none.
abbrev pub IsRouter : (List Route → String → String → Option RouteHandler) → Type 0
IsRouter dispatch =
    (rs : List Route) (verb path : String) (h : RouteHandler)
    → dispatch rs verb path ≡ some h
    → (r : Route) × In r rs × (r.verb ≡ verb) × (r.handler ≡ h)

-- The methods that each handler is registered for.
abbrev admits : RouteHandler → String → Bool
admits scaffold verb = verb == "GET"
admits login verb = verb == "POST"
admits generic verb = verb == "POST"
admits restful verb = verb == "GET" || write_methods verb
admits health verb = verb == "GET"

abbrev all_admitted : List Route → Bool
all_admitted [] = true
all_admitted (route ∷ rest) = admits route.handler route.verb && all_admitted rest

admits-In :
    (r : Route) (rs : List Route)
    → all_admitted rs ≡ true
    → In r rs
    → admits r.handler r.verb ≡ true
admits-In r [] all i = absurd i
admits-In r (route ∷ rest) all (inl e) =
    subst (λ x. admits x.handler x.verb ≡ true) (sym e) (ground arith)
admits-In r (route ∷ rest) all (inr i) = admits-In r rest (ground arith) i

routes_admitted : all_admitted routes ≡ true
unfolding String_discrete
routes_admitted = refl

no_options : (h : RouteHandler) → admits h "OPTIONS" ≡ false
unfolding String_discrete
no_options scaffold = refl
no_options login = refl
no_options generic = refl
no_options restful = refl
no_options health = refl

generic_refuses_get : admits generic "GET" ≡ false
unfolding String_discrete
generic_refuses_get = refl

post_writes : write_methods "POST" ≡ true
unfolding String_discrete
post_writes = refl

module _ {V LogonRequest LogonResponse GetUserInfoRequest GetUserInfoResponse : Type 0}
    (lib : HttpLib V LogonRequest LogonResponse GetUserInfoRequest GetUserInfoResponse)
    (remote : Remote V LogonRequest LogonResponse GetUserInfoRequest GetUserInfoResponse) where
  abbrev Response : Type 0
  Response = GenericResponse V LogonRequest LogonResponse GetUserInfoRequest GetUserInfoResponse

  abbrev pub generic_page : HttpRequest → Outcome (Reply Response)
  generic_page =
      generic_gateway_handler V LogonRequest LogonResponse GetUserInfoRequest GetUserInfoResponse
        lib remote

  abbrev pub from_body : HttpRequest → Outcome (Reply Response)
  from_body r =
      parsed V LogonRequest LogonResponse GetUserInfoRequest GetUserInfoResponse lib remote
        (lib.parse_json_body r)

  generic_decodes : (r : HttpRequest) → r.http_method ≡ "POST" → generic_page r ≡ from_body r
  unfolding generic_gateway_handler
  generic_decodes r posts =
      let no_options : (r.http_method == "OPTIONS") ≡ false =
        ==-ne {K = String} (λ o. absurd (cc (posts, o))) in
      let no_get : (r.http_method == "GET") ≡ false =
        ==-ne {K = String} (λ g. absurd (cc (posts, g))) in
      let writes : write_methods r.http_method ≡ true = ap write_methods posts ∙ post_writes in
      rw (no_options, generic_gateway_handler, no_get, writes) refl

module _ (dispatch : List Route → String → String → Option RouteHandler)
    (router : IsRouter dispatch) where
  dispatched :
      (verb path : String) (h : RouteHandler)
      → dispatch routes verb path ≡ some h
      → admits h verb ≡ true
  dispatched verb path h e =
      let (r, i, verbs, handlers) = router routes verb path h e in
      rw⁻¹ (verbs, handlers) (admits-In r routes routes_admitted i)

  not_dispatched :
      (verb path : String) (h : RouteHandler)
      → admits h verb ≡ false
      → dispatch routes verb path ≢ some h
  not_dispatched verb path h refuses e = cc (refuses, dispatched verb path h e)

  module _ {V LogonRequest LogonResponse GetUserInfoRequest GetUserInfoResponse : Type 0}
      (lib : HttpLib V LogonRequest LogonResponse GetUserInfoRequest GetUserInfoResponse)
      (remote : Remote V LogonRequest LogonResponse GetUserInfoRequest GetUserInfoResponse) where
    -- The routes hand no OPTIONS request to any handler, whatever its path, and no GET request to the
    -- generic handler; what that handler is given, it decodes from the body. Its branches for OPTIONS
    -- and for GET are never taken, and neither is the branch of the RESTful handler for OPTIONS.
    pub routes_reach :
        (r : HttpRequest)
        → ((path : String) → dispatch routes "OPTIONS" path ≡ none)
          × ((path : String) → dispatch routes "GET" path ≢ some generic)
          × (dispatch routes r.http_method r.path ≡ some generic
              → generic_page lib remote r ≡ from_body lib remote r)
          × (dispatch routes r.http_method r.path ≡ some restful → r.http_method ≢ "OPTIONS")
    unfolding generic_gateway_handler
    routes_reach r = (
      λ path. elim (Option-cases (dispatch routes "OPTIONS" path)) [
        | inl e ↦ e
        | inr (h, e) ↦ absurd (not_dispatched "OPTIONS" path h (no_options h) e)
      ],
      λ path. not_dispatched "GET" path generic generic_refuses_get,
      λ e. generic_decodes lib remote r (eq_of_== (dispatched r.http_method r.path generic e)),
      λ e o.
          not_dispatched r.http_method r.path restful (ap (admits restful) o ∙ no_options restful)
            e,
    )
