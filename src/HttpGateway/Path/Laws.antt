-- ===== src/HttpGateway/Path/Laws.antt =====
-- Which paths `parseServiceMethodFromPath` of gatewayhttphandler.go reads, and what it reads in
-- them.
use Prim.Native.String.{String}
use text.Mathlib.TextLemmas.{nil-append, cons-append, append-nil}
use zerogame.Shared.{
  ◌≡◌, ◌≢◌, ◌↔◌, refl, ◌⊎◌, inl, inr, List, [], ◌∷◌, nat_key, string_key, arith, ap, ◌∙◌, sym,
  ℕ_discrete,
}
use zerogame.Shared.Decimal.{cat}
use zerogame.HttpGateway.{success}
use zerogame.HttpGateway.Path.{
  trim_slash, split_slash, service_alias, from_parts, parse_service_method,
}
use zerogame.HttpGateway.Path.Splitting.{
  NoSlash, slash_cons, split_all, split_at_slash, Ends, trim_cases, api-NoSlash, inner_part,
  last_part,
}

module _ (to_lower : String → String) where
  -- A path `/api/{name}/{method}`, with or without the first slash, that ends there or goes on after
  -- another slash.
  pub record IsRoute (path service method : String) : Type 0 where
    pub lead : String
    pub name : String
    pub tail : String
    pub leads : (lead ≡ "") ⊎ (lead ≡ "/")
    pub spells : path ≡ cat lead (cat "api" (cat "/" (cat name (cat "/" (cat method tail)))))
    pub clean_name : NoSlash name
    pub clean_method : NoSlash method
    pub ends : Ends method tail
    pub aliased : service ≡ service_alias (to_lower name)
    pub named : (service ≢ "") × (method ≢ "")

  trim-lead :
      (lead s : String)
      → (lead ≡ "") ⊎ (lead ≡ "/")
      → trim_slash (cat lead (cat "api" s)) ≡ cat "api" s
  unfolding trim_slash ℕ_discrete
  trim-lead lead s (inl e) = rw (e, nil-append, cons-append "a" "pi" s) refl
  trim-lead lead s (inr e) = rw (e, slash_cons) refl

  split_tail :
      (method tail : String)
      → NoSlash method
      → Ends method tail
      → (rest : List String) × (split_slash (cat method tail) ≡ method ∷ rest)
  split_tail method tail clean (inl e) = (
    [],
    ap (λ t. split_slash (cat method t)) e
        ∙ ap split_slash (append-nil method)
        ∙ split_all method clean,
  )
  split_tail method tail clean (inr (more, e)) =
      (split_slash more, ap (λ t. split_slash (cat method t)) e ∙ split_at_slash method more clean)

  from_parts_complete :
      (name method : String) (rest : List String)
      → service_alias (to_lower name) ≢ ""
      → method ≢ ""
      → from_parts to_lower ("api" ∷ name ∷ method ∷ rest)
        ≡ success (service_alias (to_lower name), method)
  unfolding from_parts
  from_parts_complete name method rest some_service some_method = ground arith

  reads_route :
      (path service method : String)
      → IsRoute path service method
      → parse_service_method to_lower path ≡ success (service, method)
  unfolding parse_service_method
  reads_route path service method r =
      let (rest, split) = split_tail method r.tail r.clean_method r.ends in
      ap (λ s. from_parts to_lower (split_slash (trim_slash s))) r.spells
      ∙ ap (λ s. from_parts to_lower (split_slash s)) (trim-lead r.lead _ r.leads)
      ∙ ap (from_parts to_lower) (
          split_at_slash "api" _ api-NoSlash
          ∙ ap (λ ps. "api" ∷ ps)
              (split_at_slash r.name _ r.clean_name ∙ ap (λ ps. r.name ∷ ps) split))
      ∙ from_parts_complete r.name method rest (λ e. r.named.0 (r.aliased ∙ e)) r.named.1
      ∙ ap (λ s. success (s, method)) (sym r.aliased)

  from_parts_sound :
      (parts : List String) (service method : String)
      → from_parts to_lower parts ≡ success (service, method)
      → (name : String) × (rest : List String) × (parts ≡ "api" ∷ name ∷ method ∷ rest)
        × (service ≡ service_alias (to_lower name))
        × (service ≢ "")
        × (method ≢ "")
  unfolding from_parts
  from_parts_sound [] service method e = absurd (ground arith)
  from_parts_sound (a ∷ []) service method e = absurd (ground arith)
  from_parts_sound (a ∷ b ∷ []) service method e = absurd (ground arith)
  from_parts_sound (a ∷ b ∷ c ∷ rest) service method e =
      (b, rest, ground arith, ground arith, ground arith, ground arith)

  IsRoute-read :
      (path service method : String)
      → parse_service_method to_lower path ≡ success (service, method)
      → IsRoute path service method
  unfolding parse_service_method
  IsRoute-read path service method e =
      let t = trim_slash path in
      let (name, rest, parts, aliased, some_service, some_method) =
        from_parts_sound (split_slash t) service method e in
      let (_, (after_api, spells_api, parts')) = inner_part t "api" name (method ∷ rest) parts in
      let (clean_name, (after_name, spells_name, parts'')) =
        inner_part after_api name method rest parts' in
      let (clean_method, (tail, spells_method, ends)) = last_part after_name method rest parts'' in
      let spelt : t ≡ cat "api" (cat "/" (cat name (cat "/" (cat method tail)))) =
        spells_api
        ∙ ap (λ x. cat "api" (cat "/" x))
            (spells_name ∙ ap (λ x. cat name (cat "/" x)) spells_method) in
      let (lead, leads, whole) = lead_of path in
      record {
        lead = lead;
        name = name;
        tail = tail;
        leads = leads;
        spells = whole ∙ ap (λ x. cat lead x) spelt;
        clean_name = clean_name;
        clean_method = clean_method;
        ends = ends;
        aliased = aliased;
        named = (some_service, some_method);
      }
    where
      lead_of :
          (path : String)
          → (lead : String) × ((lead ≡ "") ⊎ (lead ≡ "/")) × (path ≡ cat lead (trim_slash path))
      lead_of path = elim (trim_cases path) [
        | inl e ↦ ("", inl refl, e ∙ sym (nil-append _))
        | inr e ↦ ("/", inr refl, e)
      ]

  -- `parseServiceMethodFromPath` returns a service and a method exactly for the paths
  -- `/api/{name}/{method}`, with or without the first slash, ended there or by another slash and
  -- anything, where neither is empty or holds a slash: the service is the alias of the name in lower
  -- case, and the method is as it stands in the path.
  pub parse_service_method_reads :
      (path service method : String)
      → (parse_service_method to_lower path ≡ success (service, method))
        ↔ IsRoute path service method
  parse_service_method_reads path service method =
      (IsRoute-read path service method, reads_route path service method)
