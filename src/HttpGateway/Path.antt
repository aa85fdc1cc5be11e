-- ===== src/HttpGateway/Path.antt =====
-- server/gateway_http/internal/handler/gatewayhttphandler.go: `parseServiceMethodFromPath`.
--
-- `strings.Split` and `strings.TrimPrefix` are by clauses on the text; `strings.ToLower`, which goes
-- by the Unicode tables, is a parameter.
pub mod Splitting
pub mod Laws
use Prim.Native.Char.{Char, code}
use Prim.Native.String
use Prim.Native.String.{String}
use zerogame.Shared.{
  ℕ, Bool, true, false, ◌||◌, not, List, [], ◌∷◌, length, ltb, if◌then◌else◌, ◌==◌, nat_key,
  string_key,
}
use zerogame.HttpGateway.{Fallible, success, failed}

-- `strings.TrimPrefix(path, "/")`.
unfoldable pub trim_slash : String → String
trim_slash String.[] = ""
trim_slash (String.◌∷◌ c s) = if code c == b'/' then s else String.◌∷◌ c s

-- A character put before the first part.
abbrev grow : Char → List String → List String
grow c [] = String.◌∷◌ c "" ∷ []
grow c (part ∷ parts) = String.◌∷◌ c part ∷ parts

-- `strings.Split(path, "/")`.
unfoldable pub split_slash : String → List String
split_slash String.[] = "" ∷ []
split_slash (String.◌∷◌ c s) =
    let parts = split_slash s in if code c == b'/' then "" ∷ parts else grow c parts

-- The `switch` on the service's name.
unfoldable pub service_alias : String → String
service_alias name =
    if name == "login" || name == "loginservice" || name == "login_service"
    then "login"
    else if name == "user" || name == "userservice" || name == "user_service" || name == "users"
    then "user"
    else name

abbrev bad_path : String
bad_path = "Invalid path format. Expected: /api/{service}/{method}"

abbrev empty_name : String
empty_name = "Service and method cannot be empty"

module _ (to_lower : String → String) where
  -- `parts[0]`, `parts[1]` and `parts[2]`.
  unfoldable pub from_parts : List String → Fallible (String × String)
  unfolding service_alias
  from_parts (first ∷ service_name ∷ method ∷ rest) =
      let service = service_alias (to_lower service_name) in
      if not (first == "api")
      then failed bad_path
      else if service == "" || method == ""
      then failed empty_name
      else success (service, method)
  from_parts _ = failed bad_path

  unfoldable pub parse_service_method : String → Fallible (String × String)
  unfolding trim_slash split_slash from_parts
  parse_service_method path = from_parts (split_slash (trim_slash path))
