-- ===== src/Shared/Booleans.antt =====
-- Boolean tests on native numbers and texts, the conditional, and splits that keep the equation.
use Prim.Native.Nat.{ℕ, compare, Ordering}
use Prim.Native.String.{String}
use mathlib.Core.Path.{◌≡◌, refl}
use mathlib.Core.Logic.{◌⊎◌, ◌≢◌, inl, inr}
use native.Mathlib.Omega.{arith}
use mathlib.Core.Bool.{Bool, true, false}
use mathlib.Core.Option.{Option, none, some}
use native.Mathlib.Decide.{ℕ_discrete}
use text.Mathlib.Text.{◌==◌ as str_eq}
use text.Mathlib.TextEquality.{eq_iff}

abbrev pub ltb : ℕ → ℕ → Bool
ltb a b = elim (compare a b) [ Ordering.lt ↦ true | _ ↦ false ]

abbrev pub leb : ℕ → ℕ → Bool
leb a b = elim (compare a b) [ Ordering.gt ↦ false | _ ↦ true ]

infix 1 if◌then◌else◌
abbrev pub if◌then◌else◌ {ℓ} : {A : Type ℓ} → Bool → A → A → A
if true then x else y = x
if false then x else y = y

pub Bool-cases : (b : Bool) → (b ≡ true) ⊎ (b ≡ false)
Bool-cases true = inl refl
Bool-cases false = inr refl

pub Option-cases {ℓ} : {A : Type ℓ} (o : Option A) → (o ≡ none) ⊎ ((a : A) × (o ≡ some a))
Option-cases none = inl refl
Option-cases (some a) = inr (a, refl)

decide_by : (s t : String) (b : Bool) → (str_eq s t) ≡ b → Dec (s ≡ t)
decide_by s t true h = yes ((eq_iff s t).0 h)
decide_by s t false h = no (λ e. cc ((eq_iff s t).1 e))

-- Equality of texts is decidable.
unfoldable pub String_discrete : Discrete String
unfolding decide_by
String_discrete s t = decide_by s t (str_eq s t) refl

-- What a Go map takes for its key, or `==` for its sides: a type with decidable equality.
pub record Key (K : Type 0) : Type 0 where
  pub dec : Discrete K

instance abbrev pub nat_key : Key ℕ
nat_key = record { dec = ℕ_discrete }

instance abbrev pub string_key : Key String
string_key = record { dec = String_discrete }

-- A decision read as a `bool`.
abbrev pub holds {ℓ} : {A : Type ℓ} → Dec A → Bool
holds (yes a) = true
holds (no n) = false

infix 50 ◌==◌
abbrev pub ◌==◌ : {K : Type 0} ⦃key : Key K⦄ → K → K → Bool
◌==◌ ⦃key⦄ a b = holds (key.dec a b)

module _ {K : Type 0} ⦃key : Key K⦄ where
  pub ==-eq : {a b : K} → a ≡ b → (a == b) ≡ true
  ==-eq e = ground arith

  pub ==-ne : {a b : K} → a ≢ b → (a == b) ≡ false
  ==-ne n = ground arith

  pub eq_of_== : {a b : K} → (a == b) ≡ true → a ≡ b
  eq_of_== h = ground arith
