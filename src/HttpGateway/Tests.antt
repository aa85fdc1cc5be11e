-- ===== src/HttpGateway/Tests.antt =====
-- The HTTP gateway with services that answer with texts.
use zerogame.Message.{Bytes}
use zerogame.Shared.{
  ◌≡◌, refl, sym, ◌∙◌, ◌⊎◌, inl, inr, String, none, List, [], ◌∷◌, if◌then◌else◌, ◌==◌, string_key,
  String_discrete,
}
use zerogame.Shared.Int.{pos}
use zerogame.Shared.Effect.{returned}
use zerogame.HttpGateway.{
  Fallible, success, failed, GenericRequest, GenericResponse, RpcResponse, Remote, generic_gateway,
}
use zerogame.HttpGateway.Reachable.{IsCallable, generic_gateway_refuses}

-- The titles of three method names.
abbrev title_of : String → String
title_of name =
    if name == "logon"
    then "Logon"
    else if name == "getUserInfo"
    then "GetUserInfo"
    else if name == "register"
    then "Register"
    else name

abbrev encoded : RpcResponse String String String String String → Fallible Bytes
encoded (RpcResponse.logged_on token) = success (1 ∷ [])
encoded (RpcResponse.user_info name) = success []

abbrev as_fields : Bytes → Fallible (List (String × String))
as_fields [] = success (("nickname", "allen") ∷ [])
as_fields (b ∷ bs) = success (("token", "allen") ∷ [])

abbrev account : List (String × String) → Fallible String
account [] = failed "accounts is not set"
account (f ∷ fs) = success f.1

-- The user service is down.
abbrev pub remote : Remote String String String String String
remote = record {
  title = title_of;
  unmarshal_logon = account;
  unmarshal_get_user_info = account;
  call_logon = λ a. success a;
  call_get_user_info = λ a. failed "connection refused";
  marshal_response = encoded;
  unmarshal_response = as_fields;
}

logon_title : title_of "logon" ≡ "Logon"
unfolding String_discrete
logon_title = refl

user_title : title_of "getUserInfo" ≡ "GetUserInfo"
unfolding String_discrete
user_title = refl

register_title : title_of "register" ≡ "Register"
unfolding String_discrete
register_title = refl

abbrev pub allen : List (String × String)
allen = ("accounts", "allen") ∷ []

abbrev registration : GenericRequest String String String String String
registration = record { service = "login"; method = "register"; fields = allen }

registration_uncallable : IsCallable remote registration → ⊥
registration_uncallable (inl (s, t)) =
    let wrong : "Register" ≡ "Logon" = sym register_title ∙ t in absurd (cc wrong)
registration_uncallable (inr (s, t)) = let wrong : "login" ≡ "user" = s in absurd (cc wrong)

generic_gateway_refuses_example :
    (resp : GenericResponse String String String String String) × (generic_gateway String String
        String String String remote registration
      ≡ returned resp)
    × (((resp.code ≡ pos 10000002) ⊎ (resp.code ≡ pos 10000003)) × (resp.data_fields ≡ none))
generic_gateway_refuses_example =
    generic_gateway_refuses remote registration registration_uncallable
