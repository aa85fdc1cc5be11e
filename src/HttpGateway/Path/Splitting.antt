-- ===== src/HttpGateway/Path/Splitting.antt =====
-- What `strings.Split` and `strings.TrimPrefix` do to a path, in gatewayhttphandler.go.
use Prim.Native.Char.{Char, code}
use Prim.Native.String.{String}
use text.Mathlib.TextLemmas.{nil-append, cons-append, append-nil}
use text.Mathlib.TextEquality.{Char-path}
use mathlib.Core.Path.{subst}
use zerogame.Shared.{
  ◌≡◌, ◌≢◌, refl, ◌⊎◌, inl, inr, List, [], ◌∷◌, nat_key, string_key, arith, ap, ==-eq, ==-ne, ◌∙◌,
  sym, ℕ_discrete,
}
use zerogame.Shared.Decimal.{cat}
use zerogame.HttpGateway.Path.{trim_slash, split_slash}

abbrev pub NoSlash : String → Type 0
NoSlash String.[] = Unit
NoSlash (String.◌∷◌ c s) = (code c ≢ b'/') × NoSlash s

pub slash_cons : (rest : String) → cat "/" rest ≡ String.◌∷◌ "/" rest
slash_cons rest = cons-append "/" "" rest ∙ ap (λ s. String.◌∷◌ "/" s) (nil-append rest)

pub split_all : (s : String) → NoSlash s → split_slash s ≡ s ∷ []
unfolding split_slash
split_all String.[] n = refl
split_all (String.◌∷◌ c s) n = ground (arith, split_all s n.1)

pub split_at_slash :
    (s rest : String) → NoSlash s → split_slash (cat s (cat "/" rest)) ≡ s ∷ split_slash rest
unfolding split_slash ℕ_discrete
split_at_slash String.[] rest n = rw (nil-append, slash_cons) refl
split_at_slash (String.◌∷◌ c s) rest n =
    rw (cons-append c s (cat "/" rest)) (ground (arith, split_at_slash s rest n.1))

is_slash : (c : Char) (s : String) → code c ≡ b'/' → String.◌∷◌ c s ≡ cat "/" s
is_slash c s e = ap (λ d. String.◌∷◌ d s) (Char-path c "/" e) ∙ sym (slash_cons s)

cons_head : {a b : String} {ps qs : List String} → a ∷ ps ≡ b ∷ qs → a ≡ b
cons_head e = ground (arith, e)

cons_tail : {a b : String} {ps qs : List String} → a ∷ ps ≡ b ∷ qs → ps ≡ qs
cons_tail e = ground (arith, e)

-- A text up to its first slash, and what comes after it.
abbrev pub Ends : String → String → Type 0
Ends p tail = (tail ≡ "") ⊎ ((more : String) × (tail ≡ cat "/" more))

abbrev Cut : String → Type 0
Cut s = (p : String) × (tail : String) × NoSlash p × (s ≡ cat p tail) × Ends p tail

cut : (s : String) → Cut s
cut String.[] = ("", "", tt, sym (nil-append ""), inl refl)
cut (String.◌∷◌ c s) = elim (ℕ_discrete (code c) b'/') [
  | yes e ↦ ("", String.◌∷◌ c s, tt, sym (nil-append _), inr (s, is_slash c s e))
  | no n ↦
      let (p, tail, clean, e, end) = cut s in
      (String.◌∷◌ c p, tail, (n, clean), ap (String.◌∷◌ c) e ∙ sym (cons-append c p tail), end)
]

split_cut :
    (p tail : String) (parts : List String)
    → NoSlash p
    → Ends p tail
    → split_slash (cat p tail) ≡ parts
    → ((parts ≡ p ∷ []) × (tail ≡ ""))
      ⊎ ((more : String) × (tail ≡ cat "/" more) × (parts ≡ p ∷ split_slash more))
split_cut p tail parts clean (inl e) s = inl (
  sym s ∙ ap (λ t. split_slash (cat p t)) e ∙ ap split_slash (append-nil p) ∙ split_all p clean,
  e,
)
split_cut p tail parts clean (inr (more, e)) s =
    inr (more, e, sym s ∙ ap (λ t. split_slash (cat p t)) e ∙ split_at_slash p more clean)

pub trim_cases : (path : String) → (path ≡ trim_slash path) ⊎ (path ≡ cat "/" (trim_slash path))
unfolding trim_slash
trim_cases String.[] = inl refl
trim_cases (String.◌∷◌ c s) = elim (ℕ_discrete (code c) b'/') [
  | yes e ↦ inr (rw (==-eq e) (is_slash c s e))
  | no n ↦ inl (rw (==-ne n))
]

pub api-NoSlash : NoSlash "api"
api-NoSlash = (
  λ e. absurd (omega (arith, e)),
  (λ e. absurd (omega (arith, e)), (λ e. absurd (omega (arith, e)), tt)),
)

-- The first part of a split is the text up to its first slash.
first_part :
    (s p : String) (ps : List String)
    → split_slash s ≡ p ∷ ps
    → NoSlash p
      × (((ps ≡ []) × (s ≡ cat p ""))
          ⊎ ((more : String) × (s ≡ cat p (cat "/" more)) × (ps ≡ split_slash more)))
first_part s p ps e =
    let (q, tail, clean, spells, end) = cut s in
    elim (split_cut q tail (p ∷ ps) clean end (ap split_slash (sym spells) ∙ e)) [
      | inl (one, t) ↦ (
        subst NoSlash (cons_head (sym one)) clean,
        inl (
          cons_tail one,
          spells ∙ ap (λ x. cat q x) t ∙ ap (λ x. cat x "") (cons_head (sym one)),
        ),
      )
      | inr (more, t, many) ↦ (
        subst NoSlash (cons_head (sym many)) clean,
        inr (
          more,
          spells ∙ ap (λ x. cat q x) t ∙ ap (λ x. cat x (cat "/" more)) (cons_head (sym many)),
          cons_tail many,
        ),
      )
    ]

pub inner_part :
    (s p q : String) (ps : List String)
    → split_slash s ≡ p ∷ q ∷ ps
    → NoSlash p × ((more : String) × (s ≡ cat p (cat "/" more)) × (split_slash more ≡ q ∷ ps))
inner_part s p q ps e =
    let (clean, found) = first_part s p (q ∷ ps) e in
    elim found [
      | inl (one, t) ↦ absurd (ground arith)
      | inr (more, t, rest) ↦ (clean, (more, t, sym rest))
    ]

pub last_part :
    (s p : String) (ps : List String)
    → split_slash s ≡ p ∷ ps
    → NoSlash p × ((tail : String) × (s ≡ cat p tail) × Ends p tail)
last_part s p ps e =
    let (clean, found) = first_part s p ps e in
    elim found [
      | inl (one, t) ↦ (clean, ("", t, inl refl))
      | inr (more, t, rest) ↦ (clean, (cat "/" more, t, inr (more, refl)))
    ]
