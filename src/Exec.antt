-- ===== src/Exec.antt =====
-- Methods that change an object and may fail: what was written before an error stays written, so
-- the state comes back beside the error too. The errors are those of internal/domain/errors.go
-- and internal/channel/adapter.go; `failed` is any other error of a dependency, and `panic` a
-- run-time panic.
pub mod Laws
pub mod Preserves
use victoria.Prelude.{Bool, true, false, Option, none, some, List, [], ◌∷◌}

pub data Error : Type 0 where
  not_found tenant_mismatch duplicate invalid_input sandbox_contamination : Error
  approval_required sandbox_mode security_violation expired consent_required : Error
  session_not_connected adapter_not_available failed panic : Error

pub data Result {ℓ} (A : Type ℓ) : Type ℓ where
  ok : A → Result A
  err : Error → Result A

abbrev pub Exec {ℓ} : Type ℓ → Type ℓ → Type ℓ
Exec S A = S → Result A × S

module _ {S A : Type 0} where
  unfoldable pub pure : A → Exec S A
  pure a s = (ok a, s)

  unfoldable pub throw : Error → Exec S A
  throw e s = (err e, s)

  unfoldable pub lift : Result A → Exec S A
  lift r s = (r, s)

  unfoldable pub gets : (S → A) → Exec S A
  gets f s = (ok (f s), s)

  -- `if !ok { return err }`
  unfoldable pub or_throw : Option A → Error → Exec S A
  or_throw none e s = (err e, s)
  or_throw (some a) e s = (ok a, s)

  -- `x, err := m`, where the caller looks at `err` itself
  unfoldable pub attempt : Exec S A → Exec S (Result A)
  attempt m s = let (r, s') = m s in (ok r, s')

  -- `_, _ = m`: the error is dropped
  unfoldable pub ignore : Exec S A → Exec S (Unit {0})
  ignore m s = let (r, s') = m s in (ok tt, s')

module _ {S : Type 0} where
  pub modify : (S → S) → Exec S (Unit {0})
  modify f s = (ok tt, f s)

  unfoldable pub skip : Exec S (Unit {0})
  skip s = (ok tt, s)

  unfoldable pub throw_if : Bool → Error → Exec S (Unit {0})
  throw_if true e s = (err e, s)
  throw_if false e s = (ok tt, s)

module _ {S A B : Type 0} where
  abbrev continue : Result A → (A → Exec S B) → Exec S B
  continue (ok a) f s = f a s
  continue (err e) f s = (err e, s)

  infixl 10 ◌>>=◌ ◌>>◌
  -- opening this opens the other ways to build a method too
  unfoldable pub ◌>>=◌ : Exec S A → (A → Exec S B) → Exec S B
  unfolding pure throw lift gets or_throw attempt ignore modify skip throw_if
  ◌>>=◌ m f s = let (r, s') = m s in continue r f s'

  abbrev pub ◌>>◌ : Exec S A → Exec S B → Exec S B
  m >> n = m >>= λ _. n

module _ {S A : Type 0} where
  -- `for _, x := range xs { body }`, left at the first error
  unfoldable pub for_each : List A → (A → Exec S (Unit {0})) → Exec S (Unit {0})
  unfolding ◌>>=◌
  for_each [] body = skip
  for_each (x ∷ xs) body = let rest = for_each xs body in do body x; rest
