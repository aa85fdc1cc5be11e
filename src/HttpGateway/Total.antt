-- ===== src/HttpGateway/Total.antt =====
-- The generic gateway always answers.
use zerogame.Shared.{
  ◌≡◌, refl, ◌≢◌, ◌⊎◌, inl, inr, String, String_discrete, string_key, ==-eq, ==-ne, ap, ◌∙◌,
}
use zerogame.Shared.Effect.{Outcome, returned}
use zerogame.HttpGateway.{
  GenericRequest, GenericResponse, Remote, generic_gateway, validate_request,
}
use zerogame.HttpGateway.Reachable.{IsCallable, generic_gateway_refuses}
use zerogame.HttpGateway.Calls.{gateway_of, generic_gateway_logs_on, generic_gateway_asks_user}

module _ {V LogonRequest LogonResponse GetUserInfoRequest GetUserInfoResponse : Type 0}
    (remote : Remote V LogonRequest LogonResponse GetUserInfoRequest GetUserInfoResponse)
    (req : GenericRequest V LogonRequest LogonResponse GetUserInfoRequest GetUserInfoResponse) where
  abbrev Response : Type 0
  Response = GenericResponse V LogonRequest LogonResponse GetUserInfoRequest GetUserInfoResponse

  abbrev answer : Outcome Response
  answer =
      generic_gateway V LogonRequest LogonResponse GetUserInfoRequest GetUserInfoResponse remote req

  unnamed : req.method ≡ "" → (resp : Response) × (answer ≡ returned resp)
  unfolding generic_gateway validate_request
  unnamed e = elim (String_discrete req.service "") [
    | yes s ↦ rw (==-eq s, generic_gateway) (_, refl)
    | no n ↦ rw (==-ne n, ==-eq e, generic_gateway) (_, refl)
  ]

  to_service :
      (service : String)
      → req.service ≡ service
      → answer ≡ gateway_of remote req.method req.fields service
  to_service service e =
      ap
        (λ s.
          generic_gateway V LogonRequest LogonResponse GetUserInfoRequest GetUserInfoResponse remote
            (record { service = s; method = req.method; fields = req.fields }))
        e

  callable : req.method ≢ "" → IsCallable remote req → (resp : Response) × (answer ≡ returned resp)
  callable named (inl (s, t)) =
      (_, to_service "login" s ∙ generic_gateway_logs_on remote req.method req.fields named t)
  callable named (inr (s, t)) =
      (_, to_service "user" s ∙ generic_gateway_asks_user remote req.method req.fields named t)

  decide_both : {A B : Type 0} → Dec A → Dec B → Dec (A × B)
  decide_both (yes a) (yes b) = yes (a, b)
  decide_both (yes a) (no n) = no (λ p. n p.1)
  decide_both (no n) b = no (λ p. n p.0)

  decide_either : {A B : Type 0} → Dec A → Dec B → (A ⊎ B) ⊎ ((A ⊎ B) → ⊥)
  decide_either (yes a) b = inl (inl a)
  decide_either (no n) (yes b) = inl (inr b)
  decide_either (no n) (no m) = inr (λ s. elim s [ inl a ↦ n a | inr b ↦ m b ])

  -- `GenericGateway` returns a response to every request: nothing on the way panics.
  pub generic_gateway_returns : (resp : Response) × (answer ≡ returned resp)
  generic_gateway_returns =
      elim (decide_either
        (decide_both (String_discrete req.service "login")
          (String_discrete (remote.title req.method) "Logon"))
        (decide_both (String_discrete req.service "user")
          (String_discrete (remote.title req.method) "GetUserInfo"))) [
            | inr other ↦ let (resp, e, _) = generic_gateway_refuses remote req other in (resp, e)
            | inl one ↦ elim (String_discrete req.method "") [
              | yes e ↦ unnamed e
              | no named ↦ callable named one
            ]
          ]
