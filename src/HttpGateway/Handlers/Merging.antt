-- ===== src/HttpGateway/Handlers/Merging.antt =====
-- The data that the RESTful handler takes from a request.
use zerogame.Shared.{
  ◌<◌, ◌≡◌, refl, ◌≢◌, ◌∙◌, ap, String, Bool, true, false, Option, none, some, List, [], ◌∷◌,
  length, if◌then◌else◌, ◌==◌, string_key, nat_key, String_discrete, ==-ne, arith,
}
use mathlib.Core.Path.{subst}
use zerogame.Shared.GoMap.{get, put, Distinct, get-put, ne-nil_of_get}
use zerogame.Message.{Bytes}
use zerogame.HttpGateway.{success}
use zerogame.HttpGateway.Handlers.{
  Values, HttpRequest, contains, write_methods, HttpLib, put_first, add_values, add_all,
  request_data,
}

get_no_write : write_methods "GET" ≡ false
unfolding String_discrete
get_no_write = refl

true_ne_false : {b : Bool} → b ≡ false → b ≡ true → ⊥
true_ne_false f t = cc (f, t)

module _ {V LogonRequest LogonResponse GetUserInfoRequest GetUserInfoResponse : Type 0}
    (lib : HttpLib V LogonRequest LogonResponse GetUserInfoRequest GetUserInfoResponse) where
  abbrev Data : Type 0
  Data = List (String × V)

  -- The first value of a key, before what was there.
  abbrev pub first_value : Option (List String) → Option V → Option V
  first_value none before = before
  first_value (some []) before = before
  first_value (some (v ∷ vs)) before = some (lib.text_value v)

  abbrev pub override : Option V → Option V → Option V
  override none before = before
  override (some v) before = some v

  abbrev with_values : Values → Data → Data
  with_values = add_values V LogonRequest LogonResponse GetUserInfoRequest GetUserInfoResponse lib

  abbrev with_all : Data → Data → Data
  with_all = add_all V LogonRequest LogonResponse GetUserInfoRequest GetUserInfoResponse lib

  get-put_first :
      (k j : String) (vs : List String) (fields : Data)
      → get j (
          put_first V LogonRequest LogonResponse GetUserInfoRequest GetUserInfoResponse lib k vs
            fields)
        ≡ (if k == j then first_value (some vs) (get j fields) else get j fields)
  get-put_first k j [] fields = ground arith
  get-put_first k j (v ∷ vs) fields = ground (arith, get-put k j (lib.text_value v) fields)

  get-add_values :
      (k : String) (vs : Values) (fields : Data)
      → Distinct vs
      → get k (with_values vs fields) ≡ first_value (get k vs) (get k fields)
  unfolding add_values get
  get-add_values k [] fields d = refl
  get-add_values k ((j, ws) ∷ vs) fields d =
      let fields' =
        put_first V LogonRequest LogonResponse GetUserInfoRequest GetUserInfoResponse lib j ws
          fields in
      ground (arith, get-add_values k vs fields' d.1, get-put_first j k ws fields)

  get-add_all :
      (k : String) (json fields : Data)
      → Distinct json
      → get k (with_all json fields) ≡ override (get k json) (get k fields)
  unfolding add_all get
  get-add_all k [] fields d = refl
  get-add_all k ((j, v) ∷ json) fields d =
      ground (arith, get-add_all k json (put j v fields) d.1, get-put j k v fields)

  some_first :
      (j : String) (v : V) (json fields : Data)
      → Distinct ((j, v) ∷ json)
      → get j (with_all ((j, v) ∷ json) fields) ≢ none
  unfolding get
  some_first j v json fields d e = absurd (ground (arith, get-add_all j ((j, v) ∷ json) fields d))

  not_empty : (json fields : Data) → Distinct json → json ≢ [] → 0 < length (with_all json fields)
  not_empty [] fields d n = absurd (n refl)
  not_empty ((j, v) ∷ json) fields d n =
      ne-nil_of_get j (with_all ((j, v) ∷ json) fields) (λ e. some_first j v json fields d e)

  not_get : (m : String) → write_methods m ≡ true → (m == "GET") ≡ false
  not_get m w = elim (String_discrete m "GET") [
    | yes e ↦
        let wrong : write_methods "GET" ≡ true = subst (λ x. write_methods x ≡ true) e w in
        absurd (true_ne_false get_no_write wrong)
    | no n ↦ ==-ne n
  ]

  takes :
      (r : HttpRequest) (body : Bytes) (json : Data)
      → write_methods r.http_method ≡ true
      → contains r.content_type "application/json" ≡ true
      → lib.read_all r ≡ success body
      → length body ≢ 0
      → lib.unmarshal_map body ≡ success json
      → length (with_all json (with_values r.query [])) ≢ 0
      → request_data V LogonRequest LogonResponse GetUserInfoRequest GetUserInfoResponse lib r
        ≡ success (with_all json (with_values r.query []))
  unfolding request_data
  takes r body json writes is_json read some_body decoded some_data =
      rw
        (
          not_get r.http_method writes,
          request_data,
          writes,
          is_json,
          read,
          ==-ne some_body,
          decoded,
          ==-ne some_data,
        )
        refl

  -- A POST, PUT or DELETE whose content type is JSON and whose body decodes to an object that is not
  -- empty: the data has the object's value under each of its keys, and under every other key the
  -- first value that the query has for it, if any.
  pub request_data_merges :
      (r : HttpRequest) (body : Bytes) (json : Data)
      → write_methods r.http_method ≡ true
      → contains r.content_type "application/json" ≡ true
      → Distinct r.query
      → lib.read_all r ≡ success body
      → 0 < length body
      → lib.unmarshal_map body ≡ success json
      → Distinct json
      → json ≢ []
      → (fields : Data) × (request_data V LogonRequest LogonResponse GetUserInfoRequest
            GetUserInfoResponse lib r
          ≡ success fields)
        × ((k : String) → get k fields ≡ override (get k json) (first_value (get k r.query) none))
  unfolding get
  request_data_merges r body json writes is_json distinct read some_body decoded distinct_json
        some_json =
      let merged = with_all json (with_values r.query []) in
      (
        merged,
        takes r body json writes is_json read (λ e. absurd (omega (arith, e, some_body))) decoded
            (λ e.
              absurd (
                omega (arith, e, not_empty json (with_values r.query []) distinct_json some_json))),
        λ k.
            get-add_all k json (with_values r.query []) distinct_json
            ∙ ap (override (get k json)) (get-add_values k r.query [] distinct),
      )
