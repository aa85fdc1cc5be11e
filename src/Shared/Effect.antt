-- ===== src/Shared/Effect.antt =====
-- Code that changes a state of type `S` and may panic: Go's runtime panics leave the changes made
-- before them in place. Also the logger that the gateway's types embed.

use mathlib.Core.Path.{◌≡◌, refl}

pub data Outcome (A : Type 0) : Type 0 where
  returned : A → Outcome A
  panicked : Outcome A

-- A step from a state: what it returns, and the state that it leaves.
abbrev pub M : Type 0 → Type 0 → Type 0
M S A = S → Outcome A × S

abbrev pub pure : {S A : Type 0} → A → M S A
pure a s = (returned a, s)

abbrev pub resume : {S A B : Type 0} → Outcome A × S → (A → M S B) → Outcome B × S
resume (returned a, s) f = f a s
resume (panicked, s) f = (panicked, s)

infixl 5 ◌>>=◌ ◌>>◌
abbrev pub ◌>>=◌ : {S A B : Type 0} → M S A → (A → M S B) → M S B
◌>>=◌ m f s = resume (m s) f

abbrev pub ◌>>◌ : {S B : Type 0} → M S (Unit {0}) → M S B → M S B
m >> k = m >>= λ _. k

-- The state without the result.
abbrev pub after : {S A : Type 0} → Outcome A × S → S
after p = p.1

abbrev pub result_of : {S A : Type 0} → Outcome A × S → Outcome A
result_of p = p.0

-- An embedded `logx.Logger`, which is an interface: the zero value is nil, and a method called
-- through it is a nil dereference. A logger that is set writes its line and returns.
pub data Logger : Type 0 where
  nil ready : Logger

-- `Infof` and `Errorf`, followed by the rest of the function, which returns `a`.
abbrev pub logged : {S A : Type 0} → Logger → A → M S A
logged nil a s = (panicked, s)
logged ready a s = (returned a, s)

-- Logging changes no state of the program's.
pub after-logged : {S A : Type 0} (l : Logger) (a : A) (s : S) → after (logged l a s) ≡ s
after-logged nil a s = refl
after-logged ready a s = refl
