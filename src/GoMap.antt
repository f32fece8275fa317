-- ===== src/GoMap.antt =====
-- Go's `map[string]V` as a list of its entries in the order in which the run-time would yield them.
-- The order of iteration is not determined in Go: statements range over every list of entries.
pub mod Laws
use victoria.Prelude.{String, Option, none, some, List, [], ◌∷◌, Bool, ◌==◌, if◌then◌else◌, ℕ, ◌+◌}

abbrev pub GoMap {ℓ} : Type ℓ → Type ℓ
GoMap V = List (String × V)

module _ {ℓ} {V : Type ℓ} where
  -- v, ok := m[k]
  unfoldable pub get : String → GoMap V → Option V
  get k [] = none
  get k ((j, v) ∷ m) = if j == k then some v else get k m

  -- m[k] = v
  unfoldable pub put : String → V → GoMap V → GoMap V
  put k v [] = (k, v) ∷ []
  put k v ((j, w) ∷ m) = if j == k then (k, v) ∷ m else (j, w) ∷ put k v m

  -- delete(m, k)
  unfoldable pub remove : String → GoMap V → GoMap V
  remove k [] = []
  remove k ((j, v) ∷ m) = let rest = remove k m in if j == k then rest else (j, v) ∷ rest

  unfoldable pub values : GoMap V → List V
  values [] = []
  values ((k, v) ∷ m) = v ∷ values m

  -- the loop `for k, v := range m { if p(v) { m[k] = f(v) } }`
  pub update_where : (V → Bool) → (V → V) → GoMap V → GoMap V
  update_where p f [] = []
  update_where p f ((k, v) ∷ m) = (k, (if p v then f v else v)) ∷ update_where p f m

module _ {ℓ} {A : Type ℓ} where
  -- the loop `for _, x := range xs { if p(x) { out = append(out, x) } }`
  unfoldable pub select : (A → Bool) → List A → List A
  select p [] = []
  select p (x ∷ xs) = let rest = select p xs in if p x then x ∷ rest else rest

  -- the first that passes the test, in the order of iteration
  unfoldable pub first : (A → Bool) → List A → Option A
  first p [] = none
  first p (x ∷ xs) = let rest = first p xs in if p x then some x else rest

  unfoldable pub count : (A → Bool) → List A → ℕ
  count p [] = 0
  count p (x ∷ xs) = (if p x then 1 else 0) + count p xs
