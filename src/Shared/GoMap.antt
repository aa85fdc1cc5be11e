-- ===== src/Shared/GoMap.antt =====
-- Go's `map[K]V` as an association list whose order stands for the unspecified order of `range`.
use Prim.Native.Nat.{◌+◌, ◌<◌}
use mathlib.Core.Path.{◌≡◌, refl}
use mathlib.Core.Logic.{ite, ◌≢◌}
use mathlib.Core.Bool.{Bool, true, false}
use mathlib.Core.Option.{Option, none, some}
use mathlib.Core.List.{List, [], ◌∷◌}
use native.Mathlib.Omega.{arith}
use zerogame.Shared.Booleans.{Key}
use zerogame.Shared.Lists.{length, elem, Unique}

abbrev pub is_some {ℓ} : {A : Type ℓ} → Option A → Bool
is_some none = false
is_some (some a) = true

module _ {K V : Type 0} ⦃key : Key K⦄ where
  -- `m[k]`, with the second result of the comma-ok form.
  unfoldable pub get : K → List (K × V) → Option V
  get k [] = none
  get k ((j, v) ∷ m) = ite (key.dec j k) (some v) (get k m)

  -- `m[k] = v`.
  unfoldable pub put : K → V → List (K × V) → List (K × V)
  put k v [] = (k, v) ∷ []
  put k v ((j, w) ∷ m) = ite (key.dec j k) ((k, v) ∷ m) ((j, w) ∷ put k v m)

  -- `delete(m, k)`.
  unfoldable pub delete : K → List (K × V) → List (K × V)
  delete k [] = []
  delete k ((j, w) ∷ m) = ite (key.dec j k) (delete k m) ((j, w) ∷ delete k m)

  -- The keys, in the order of a `range` loop.
  unfoldable pub keys : List (K × V) → List K
  keys [] = []
  keys ((j, w) ∷ m) = j ∷ keys m

  pub get-put :
      (k j : K) (v : V) (m : List (K × V))
      → get j (put k v m) ≡ ite (key.dec k j) (some v) (get j m)
  unfolding get put
  get-put k j v [] = refl
  get-put k j v ((i, w) ∷ m) = ground (arith, get-put k j v m)

  pub get-delete :
      (k j : K) (m : List (K × V)) → get j (delete k m) ≡ ite (key.dec k j) none (get j m)
  unfolding get delete
  get-delete k j [] = ground arith
  get-delete k j ((i, w) ∷ m) = ground (arith, get-delete k j m)

  -- Each key stands once, as in any Go map.
  abbrev pub Distinct : List (K × V) → Type 0
  Distinct [] = Unit
  Distinct ((k, v) ∷ m) = (get k m ≡ none) × Distinct m

  pub put-Distinct : (k : K) (v : V) (m : List (K × V)) → Distinct m → Distinct (put k v m)
  unfolding get put
  put-Distinct k v [] d = (refl, tt)
  put-Distinct k v ((j, w) ∷ m) d = ground (arith, put-Distinct k v m d.1, get-put k j v m)

  pub delete-Distinct : (k : K) (m : List (K × V)) → Distinct m → Distinct (delete k m)
  unfolding delete
  delete-Distinct k [] d = tt
  delete-Distinct k ((j, w) ∷ m) d = ground (arith, delete-Distinct k m d.1, get-delete k j m)

  pub delete_absent : (k : K) (m : List (K × V)) → get k m ≡ none → delete k m ≡ m
  unfolding get delete
  delete_absent k [] h = refl
  delete_absent k ((j, w) ∷ m) h = ground (arith, delete_absent k m)

  pub length-put_new :
      (k : K) (v : V) (m : List (K × V)) → get k m ≡ none → length (put k v m) ≡ length m + 1
  unfolding get put
  length-put_new k v [] h = omega arith
  length-put_new k v ((j, w) ∷ m) h = ground (arith, length-put_new k v m)

  pub length-put_old :
      (k : K) (v : V) (m : List (K × V)) → get k m ≢ none → length (put k v m) ≡ length m
  unfolding get put
  length-put_old k v [] h = absurd (h refl)
  length-put_old k v ((j, w) ∷ m) h = ground (arith, length-put_old k v m)

  pub length-delete :
      (k : K) (m : List (K × V)) → Distinct m → get k m ≢ none → length (delete k m) + 1 ≡ length m
  unfolding get delete
  length-delete k [] d h = absurd (h refl)
  length-delete k ((j, w) ∷ m) d h = ground (arith, length-delete k m d.1, delete_absent k m)

  pub get_of_empty : (k : K) (m : List (K × V)) → length m ≡ 0 → get k m ≡ none
  unfolding get
  get_of_empty k [] h = refl
  get_of_empty k (e ∷ m) h = absurd (omega arith)

  pub delete-put : (k : K) (v : V) (m : List (K × V)) → delete k (put k v m) ≡ delete k m
  unfolding put delete
  delete-put k v [] = ground arith
  delete-put k v ((j, w) ∷ m) = ground (arith, delete-put k v m)

  pub ne-nil_of_get : (k : K) (m : List (K × V)) → get k m ≢ none → 0 < length m
  unfolding get
  ne-nil_of_get k [] h = absurd (h refl)
  ne-nil_of_get k (e ∷ m) h = omega arith

  pub elem-keys : (k : K) (m : List (K × V)) → elem k (keys m) ≡ is_some (get k m)
  unfolding get keys
  elem-keys k [] = refl
  elem-keys k ((j, v) ∷ m) = ground (arith, elem-keys k m)

  pub keys-Unique : (m : List (K × V)) → Distinct m → Unique (keys m)
  unfolding keys
  keys-Unique [] d = tt
  keys-Unique ((j, v) ∷ m) d = ground (arith, elem-keys j m, keys-Unique m d.1)
