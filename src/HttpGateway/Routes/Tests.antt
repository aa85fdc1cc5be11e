-- ===== src/HttpGateway/Routes/Tests.antt =====
-- The routes of routes.go under a router that goes by the method, and by the path of one pattern.
use zerogame.Shared.{
  ◌≡◌, refl, ◌≢◌, inl, inr, String, Bool, Option, none, some, List, [], ◌∷◌, ◌&&◌, if◌then◌else◌,
  ◌==◌, string_key, eq_of_==, Bool-cases, arith,
}
use zerogame.HttpGateway.Tests.{remote}
use zerogame.HttpGateway.Handlers.Tests.{texts, logon_request}
use zerogame.HttpGateway.Handlers.{HttpRequest}
use zerogame.HttpGateway.Routes.{
  Route, RouteHandler, generic, restful, routes, IsRouter, generic_page, from_body, routes_reach,
}

-- `/api/generic` is the only pattern without a parameter that it knows; any other path is that of
-- the patterns with the two parameters.
abbrev pattern_of : String → String
pattern_of path = if path == "/api/generic" then path else "/api/:service/:method"

abbrev fits : Route → String → String → Bool
fits r verb path = r.verb == verb && (r.pattern == pattern_of path)

first_fit : List Route → String → String → Option RouteHandler
first_fit [] verb path = none
first_fit (r ∷ rs) verb path =
    let later = first_fit rs verb path in if fits r verb path then some r.handler else later

first_fit-IsRouter : IsRouter first_fit
unfolding first_fit
first_fit-IsRouter [] verb path h e = absurd (cc e)
first_fit-IsRouter (r ∷ rs) verb path h e = elim (Bool-cases (fits r verb path)) [
  | inl fit ↦ (r, inl refl, eq_of_== {K = String} (ground arith), ground arith)
  | inr n ↦
      let (q, i, verbs, handlers) = first_fit-IsRouter rs verb path h (ground arith) in
      (q, inr i, verbs, handlers)
]

abbrev generic_request : HttpRequest
generic_request = record logon_request { path = "/api/generic" }

routes_reach_example :
    ((path : String) → first_fit routes "OPTIONS" path ≡ none)
    × ((path : String) → first_fit routes "GET" path ≢ some generic)
    × (first_fit routes generic_request.http_method generic_request.path ≡ some generic
        → generic_page texts remote generic_request ≡ from_body texts remote generic_request)
    × (first_fit routes generic_request.http_method generic_request.path ≡ some restful
        → generic_request.http_method ≢ "OPTIONS")
routes_reach_example = routes_reach first_fit first_fit-IsRouter texts remote generic_request
